-- ===== src/Main.antt =====
-- main.cpp, with the loops of usb_service_routine around its rounds (onekey_usb_bootloader_mode.hpp):
-- the two threads as a step relation over the two atomic flags. A step makes one access to a flag, or
-- runs what the service does between two accesses; the steps of the threads come in any order. Sleeping
-- and logging are left out, and so is the access that is only logged.
pub mod Stop
pub mod Stuck
pub mod EarlyReturn
pub mod Bounds
pub mod Once
pub mod Up
pub mod Traffic
mod Busy
pub mod Ending
pub mod Progress
pub mod Handshake
pub mod Settled
pub mod Finish
pub mod Whole
mod Sample
mod Examples
mod Tests
use firmware_x.Prelude.{ℕ, zero, suc, ◌+◌, ◌≡◌, [], Bool, true, false, leb, if◌then◌else◌}
use firmware_x.System.{Env, History, Exit, next}
use firmware_x.Bootloader.{Bootloader, init, cleanup}
use firmware_x.Bootloader.Service.{Generated, Locals, Round, again, leave, quit, round}

-- Where usb_service_routine is.
pub data Service : Type 0 where
  -- at `if ( !run_control )`, and at the tests of the outer and the inner loop
  start outer_test inner_test : Service
  -- before `init()`, `run_status = true`, the rest of the round, and `cleanup()`
  initialising marking serving cleaning : Service
  -- before `run_control = false`, where a `break` follows out of the inner or the outer loop, or a
  -- `return`
  breaking_inner breaking_outer returning : Service
  -- before `run_status = false`
  unmarking : Service
  returned : Service

-- Where main is: at the loop that waits for the service to run, in the loop that counts to 20 (at its
-- test, and in its body), before `run_control = false`, at the loop that waits for the service to end,
-- and behind `return 0`.
pub data Main : Type 0 where
  wait_running : Main
  counting counted : ℕ → Main
  stopping wait_stop done : Main

pub record Program : Type 0 where
  pub run_control : Bool
  pub run_status : Bool
  pub main : Main
  pub service : Service
  pub bootloader : Bootloader
  pub locals : Locals
  pub calls : History

-- `counter >= 20`
abbrev pub counter_limit : ℕ
counter_limit = 20

-- Behind the creation of the thread.
abbrev pub started : Bootloader → Locals → Program
started b l = record {
  run_control = true;
  run_status = false;
  main = wait_running;
  service = start;
  bootloader = b;
  locals = l;
  calls = [];
}

-- Where the service goes from a test of `run_control`, and behind what it has done.
abbrev pub at_start : Bool → Service
at_start true = outer_test
at_start false = returned

abbrev pub at_outer : Bool → Service
at_outer true = initialising
at_outer false = unmarking

abbrev pub at_inner : Bool → Service
at_inner true = marking
at_inner false = cleaning

abbrev pub after_init : Bool → Service
after_init true = inner_test
after_init false = breaking_outer

abbrev pub after_cleanup : Bool → Service
after_cleanup true = outer_test
after_cleanup false = breaking_outer

abbrev pub after_round : Round → Service
after_round again = inner_test
after_round leave = breaking_inner
after_round quit = returning

-- Where main goes from a test of `run_status`.
abbrev pub at_wait_running : Bool → Main
at_wait_running true = counting 0
at_wait_running false = wait_running

abbrev pub at_counting : ℕ → Bool → Main
at_counting n true = counted n
at_counting n false = stopping

-- `counter++`, and `if ( counter >= 20 ) break;`
abbrev pub after_count : ℕ → Main
after_count n = if leb counter_limit (n + 1) then stopping else counting (n + 1)

abbrev pub at_wait_stop : Bool → Main
at_wait_stop true = wait_stop
at_wait_stop false = done

module _ (env : Env) (generated : Generated) where
  -- The steps of the service. One that does not come to its end, by undefined behaviour or by an
  -- exception, which ends the program, has no step.
  pub data ServiceStep (p : Program) : Program → Type 0 where
    test_start : p.service ≡ start → ServiceStep p (record p { service = at_start p.run_control })
    test_outer :
        p.service ≡ outer_test → ServiceStep p (record p { service = at_outer p.run_control })
    test_inner :
        p.service ≡ inner_test → ServiceStep p (record p { service = at_inner p.run_control })
    initialise :
        (b : Bool) (t : Bootloader) (h : History)
        → p.service ≡ initialising
        → init env p.bootloader p.calls ≡ (next b, t, h)
        → ServiceStep p (record p { service = after_init b; bootloader = t; calls = h })
    mark : p.service ≡ marking → ServiceStep p (record p { service = serving; run_status = true })
    serve :
        (r : Round) (l : Locals) (t : Bootloader) (h : History)
        → p.service ≡ serving
        → round env generated p.locals p.bootloader p.calls ≡ (next (r, l), t, h)
        → ServiceStep p
            (record p { service = after_round r; locals = l; bootloader = t; calls = h })
    clean :
        (b : Bool) (t : Bootloader) (h : History)
        → p.service ≡ cleaning
        → cleanup env p.bootloader p.calls ≡ (next b, t, h)
        → ServiceStep p (record p { service = after_cleanup b; bootloader = t; calls = h })
    break_inner :
        p.service ≡ breaking_inner
        → ServiceStep p (record p { service = cleaning; run_control = false })
    break_outer :
        p.service ≡ breaking_outer
        → ServiceStep p (record p { service = unmarking; run_control = false })
    return_early :
        p.service ≡ returning → ServiceStep p (record p { service = returned; run_control = false })
    unmark :
        p.service ≡ unmarking → ServiceStep p (record p { service = returned; run_status = false })

  pub data MainStep (p : Program) : Program → Type 0 where
    await_running :
        p.main ≡ wait_running → MainStep p (record p { main = at_wait_running p.run_status })
    test_counting :
        (n : ℕ) → p.main ≡ counting n → MainStep p (record p { main = at_counting n p.run_status })
    count : (n : ℕ) → p.main ≡ counted n → MainStep p (record p { main = after_count n })
    stop : p.main ≡ stopping → MainStep p (record p { main = wait_stop; run_control = false })
    await_stop : p.main ≡ wait_stop → MainStep p (record p { main = at_wait_stop p.run_status })

  pub data Step (p q : Program) : Type 0 where
    by_service : ServiceStep p q → Step p q
    by_main : MainStep p q → Step p q

  pub data Steps (p : Program) : Program → Type 0 where
    here : Steps p p
    later : {q r : Program} → Steps p q → Step q r → Steps p r
