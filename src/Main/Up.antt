-- ===== src/Main/Up.antt =====
-- The parts of the bootloader wherever the service is in its loop.
use firmware_x.Prelude.{◌≡◌, ◌∙◌, sym, ap, subst, [], Bool, true, false, arith}
use firmware_x.System.{Env, History, Exit, next}
use firmware_x.Functionfs.Aio.Pointers.{Pointers}
use firmware_x.Bootloader.{Bootloader, init}
use firmware_x.Bootloader.Setup.{bootloader_init-Running}
use firmware_x.Bootloader.Service.{Generated, Locals, Round, round}
use firmware_x.Bootloader.Service.Attend.{Attended, Attending-Preorder}
use firmware_x.Bootloader.Service.Kept.{round-Attending}
use firmware_x.Bootloader.Service.Ready.{Ready-Pointers}
use firmware_x.Main.{
  Program, Service, inner_test, marking, serving, cleaning, breaking_inner, started, ServiceStep,
  MainStep, Step, by_service, by_main, Steps, here, later, test_start, test_outer, test_inner,
  initialise, mark, serve, clean, break_inner, break_outer, return_early, unmark, await_running,
  test_counting, count, stop, await_stop, after_init,
}
use firmware_x.Main.Once.{Once, before_init, is_first, Steps-Once, started-Once}

-- In the inner loop, or at the `cleanup()` behind it.
abbrev pub in_loop : Service → Bool
in_loop inner_test = true
in_loop marking = true
in_loop serving = true
in_loop breaking_inner = true
in_loop cleaning = true
in_loop _ = false

-- `t` and `k` are what a successful `init()` of `b` has made, and then rounds have left.
pub record Up (env : Env) (b t : Bootloader) (k : History) : Type 0 where
  pub made : Bootloader
  pub calls : History
  pub begun : init env b [] ≡ (next true, made, calls)
  pub set : Pointers made.ffs_h
  pub attended : Attended made calls t k

abbrev InLoop : Env → Bootloader → Program → Type 0
InLoop env b p = in_loop p.service ≡ true → Up env b p.bootloader p.calls

module _ (env : Env) (generated : Generated) (b : Bootloader) where
  begun-Up : (t : Bootloader) (h : History) → init env b [] ≡ (next true, t, h) → Up env b t h
  begun-Up t h e =
      let running = bootloader_init-Running env b t [] h e in
      let set = Ready-Pointers env _ t.ffs_h running.h1 running.h2 running.ready in
      record {
        made = t;
        calls = h;
        begun = e;
        set = set;
        attended = Attending-Preorder.reflexive t h set;
      }

  after_init-InLoop :
      (x : Bool) (t : Bootloader) (h : History)
      → init env b [] ≡ (next x, t, h)
      → in_loop (after_init x) ≡ true
      → Up env b t h
  after_init-InLoop true t h e i = begun-Up t h e
  after_init-InLoop false t h e i = absurd (ground arith)

  round-Up :
      (r : Round) (l l' : Locals) (t u : Bootloader) (h k : History)
      → round env generated l t h ≡ (next (r, l'), u, k)
      → Up env b t h
      → Up env b u k
  round-Up r l l' t u h k e up =
      let attended =
        subst (λ (x : Exit (Round × Locals) × Bootloader × History). Attended t h x.1 x.2) e
          (round-Attending env generated l t h up.attended.handler.pointers) in
      record {
        made = up.made;
        calls = up.calls;
        begun = up.begun;
        set = up.set;
        attended =
            Attending-Preorder.transitive up.made t u up.calls h k (λ p. up.attended)
              (λ p. attended) up.set;
      }

  service-InLoop :
      {p q : Program} → ServiceStep env generated p q → Once b p → InLoop env b p → InLoop env b q
  service-InLoop {p} (test_start e) o w i = absurd (ground arith)
  service-InLoop {p} (test_outer e) o w i = absurd (ground arith)
  service-InLoop {p} (test_inner e) o w i = w (ap in_loop e)
  service-InLoop {p} (initialise x t h e r) o w i =
      let (rs, m, pb, pc) = o.fresh (ap before_init e) (o.told (ap is_first e)) in
      let start : init env b [] ≡ init env p.bootloader p.calls =
        λ k. init env (sym pb k) (sym pc k) in
      after_init-InLoop x t h (start ∙ r) i
  service-InLoop {p} (mark e) o w i = w (ap in_loop e)
  service-InLoop {p} (serve r l t h e x) o w i = round-Up r _ l _ t _ h x (w (ap in_loop e))
  service-InLoop {p} (clean x t h e r) o w i = absurd (ground arith)
  service-InLoop {p} (break_inner e) o w i = w (ap in_loop e)
  service-InLoop {p} (break_outer e) o w i = absurd (ground arith)
  service-InLoop {p} (return_early e) o w i = absurd (ground arith)
  service-InLoop {p} (unmark e) o w i = absurd (ground arith)

  main-InLoop : {p q : Program} → MainStep env generated p q → InLoop env b p → InLoop env b q
  main-InLoop (await_running e) w = w
  main-InLoop (test_counting n e) w = w
  main-InLoop (count n e) w = w
  main-InLoop (stop e) w = w
  main-InLoop (await_stop e) w = w

  Step-InLoop :
      {p q : Program} → Step env generated p q → Once b p → InLoop env b p → InLoop env b q
  Step-InLoop (by_service s) o w = service-InLoop s o w
  Step-InLoop (by_main s) o w = main-InLoop s w

  Steps-InLoop : (l : Locals) {p : Program} → Steps env generated (started b l) p → InLoop env b p
  Steps-InLoop l here i = absurd (ground arith)
  Steps-InLoop l (later ss s) i =
      Step-InLoop s (Steps-Once env generated b ss (started-Once env generated b l))
        (Steps-InLoop l ss) i

  -- In every order of the steps: wherever the service is in its inner loop, or about to clean up, a
  -- call of `init()` has returned true, and since then the gadget, the descriptors, the context and the
  -- marks of initialisation are as it has left them, the handler's pointers are set, and no call has
  -- taken anything down.
  pub loop-Up :
      (l : Locals) (p : Program)
      → Steps env generated (started b l) p
      → in_loop p.service ≡ true
      → Up env b p.bootloader p.calls
  loop-Up l p ss i = Steps-InLoop l ss i
