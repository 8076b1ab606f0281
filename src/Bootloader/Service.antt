-- ===== src/Bootloader/Service.antt =====
-- onekey_usb_bootloader_mode.hpp, usb_service_routine: a round of its inner loop. What it only logs is
-- left out, and so are the half second that it sleeps, and `buf_write_host`, which nothing reads. The
-- macro RAC_SIMPLE of libBzhUtils runs the call and logs its result.
pub mod Respond
pub mod Ready
pub mod Attend
pub mod Kept
pub mod Outside
pub mod Safe
pub mod Wire
pub mod Short
use firmware_x.Prelude.{
  ℕ, zero, suc, ◌%◌, ◌^◌, List, [], ◌∷◌, Bool, true, false, not, Outcome, ok, undefined,
  out_of_range, exhausted, length, if◌then◌else◌,
}
use firmware_x.Prelude.Int.{ℤ, pos, negsuc, minus_one}
use firmware_x.System.{Env, M, Exit, next, thrown, History, pure, gets, modify, ◌>>=◌, ◌>>◌}
use firmware_x.System.Monad
use firmware_x.Functionfs.{
  Handler, Event, process_control_event, wait_read_management_ready, is_read_ctrl_ready,
  is_read_eventfd_ready, read_ctrl, read_eventfd,
}
use firmware_x.Functionfs.Aio.{write_host, read_host}
use firmware_x.Protocol.{MessageParsed, MessageComposed}
use firmware_x.Protocol.Parser.{Parser, parse_legacy}
use firmware_x.Protocol.Composer.{Composer, compose_legacy, get_composed}
use firmware_x.Bootloader.{Bootloader, on_ffs}

-- The generated protobuf code: the number of the message `Features`, and the bytes that
-- `SerializeAsString` makes of the one that the routine fills in. The kernel: the type of the event in
-- the bytes of a `usb_functionfs_event`.
pub record Generated : Type 0 where
  pub message_type_features : ℕ
  pub feature_serialized : List ℕ
  pub event_type : List ℕ → Event

-- The local variables that outlive a round.
pub record Locals : Type 0 where
  pub buf_ctrl : List ℕ
  pub buf_read_host : List ℕ
  pub res : ℤ
  pub eventfd_result : List ℕ

-- How a round ends: at the loop's test, out of the loop by `break`, or out of the routine by `return`;
-- the last two with `run_control` set to false.
pub data Round : Type 0 where
  again leave quit : Round

-- A call on the parser or the composer: an exception leaves the routine, which does not catch it. The
-- fuel of the composer's loop does not run out.
abbrev pub from_outcome :
    {A B : Type 0}
    → Bootloader
    → History
    → (A → Bootloader)
    → Outcome (B × A)
    → Exit B × Bootloader × History
from_outcome b h put (ok (r, a)) = (next r, put a, h)
from_outcome b h put undefined = (Monad.undefined, b, h)
from_outcome b h put out_of_range = (thrown, b, h)
from_outcome b h put exhausted = (Monad.undefined, b, h)

module _ (env : Env) (generated : Generated) where
  unfoldable pub parse_request : List ℕ → M Bootloader Bool
  parse_request packet b h =
      from_outcome b h (λ p. record b { parser_h = p }) (parse_legacy b.parser_h packet)

  -- `mpsed`, with the conversions to its 16-bit and 32-bit members.
  abbrev pub response : MessageParsed
  response = record {
    id = generated.message_type_features % 2 ^ 16;
    size = length generated.feature_serialized % 2 ^ 32;
    protobuf_data = generated.feature_serialized;
  }

  unfoldable pub compose_response : M Bootloader Bool
  compose_response b h =
      from_outcome b h (λ c. record b { composer_h = c }) (compose_legacy b.composer_h response)

  -- "put host"; the results of the writes are not looked at.
  unfoldable pub put_host : List MessageComposed → M Bootloader (Unit {0})
  put_host [] = pure tt
  put_host (mcomposed ∷ rest) = do written ← on_ffs (write_host env mcomposed); put_host rest

  -- "process request"; neither result is looked at.
  unfoldable pub respond : List ℕ → M Bootloader (Unit {0})
  respond packet = do
    parsed ← parse_request packet
    composed ← compose_response
    mcomposed_list ← gets (λ b. get_composed b.composer_h)
    put_host mcomposed_list

  unfoldable pub answer_host : Bool → Locals → M Bootloader (Round × Locals)
  answer_host true l = do respond l.buf_read_host; pure (again, l)
  answer_host false l = pure (again, l)

  -- "pull host"
  unfoldable pub pull_host : Bool → Locals → M Bootloader (Round × Locals)
  unfolding answer_host
  pull_host true l = do
    r ← on_ffs (read_host env l.buf_read_host minus_one)
    answer_host (env.rac.goes_on r.0) (record l { buf_read_host = r.1; res = r.2 })
  pull_host false l = pure (quit, l)

  unfoldable pub pull_event : Bool → Locals → M Bootloader (Round × Locals)
  unfolding pull_host
  pull_event true l = do
    r ← on_ffs (read_eventfd env l.eventfd_result)
    pull_host (env.rac.goes_on r.0) (record l { eventfd_result = r.1 })
  pull_event false l = pure (again, l)

  -- "check if we got event", if the function is enabled.
  unfoldable pub check_event : Bool → Locals → M Bootloader (Round × Locals)
  unfolding pull_event
  check_event true l = do ready ← on_ffs (is_read_eventfd_ready env); pull_event ready l
  check_event false l = pure (again, l)

  unfoldable pub process_control : Bool → Locals → M Bootloader (Round × Locals)
  unfolding check_event
  process_control true l = do
    modify
        (λ b. record b { ffs_h = process_control_event (generated.event_type l.buf_ctrl) b.ffs_h })
    enabled ← gets (λ b. b.ffs_h.ffs_enabled)
    check_event enabled l
  process_control false l = pure (leave, l)

  -- "pull control"
  unfoldable pub pull_control : Bool → Locals → M Bootloader (Round × Locals)
  unfolding process_control check_event
  pull_control true l = do
    r ← on_ffs (read_ctrl env l.buf_ctrl)
    process_control (env.rac.goes_on r.0) (record l { buf_ctrl = r.1 })
  pull_control false l = do enabled ← gets (λ b. b.ffs_h.ffs_enabled); check_event enabled l

  unfoldable pub after_wait : ℤ → Locals → M Bootloader (Round × Locals)
  unfolding pull_control
  after_wait (pos zero) l = pure (again, l)
  after_wait (pos (suc n)) l = do ready ← on_ffs (is_read_ctrl_ready env); pull_control ready l
  after_wait (negsuc n) l = pure (leave, l)

  -- A round of the inner loop, behind `run_status = true`.
  unfoldable pub round : Locals → M Bootloader (Round × Locals)
  unfolding after_wait
  round l = do
    timeout ← gets (λ b. b.usb_timeout_ms)
    wait_result ← on_ffs (wait_read_management_ready env timeout)
    after_wait wait_result l
