-- ===== src/Bootloader/Service/Outside.antt =====
-- What a round needs of the outside and of the handler, and what the handler then gives it.
use firmware_x.Prelude.{◌≡◌, ◌<◌, ◌≤◌, ◌^◌, ◌∙◌, ap, sym, ℕ, List, Bool, true, arith, length}
use firmware_x.Prelude.Int.{ℤ, pos, minus_one, to_int32}
use firmware_x.System.{History, Exit, next, Env, plain, Keeps, M, ◌>>=◌}
use firmware_x.System.Fine.{is_next, then_run-is_next}
use firmware_x.Functionfs.{
  Handler, fits_fd_set, wait_read_management_ready, is_read_ctrl_ready, is_read_eventfd_ready,
  read_ctrl, read_eventfd,
}
use firmware_x.Functionfs.Aio.{read_host}
use firmware_x.Functionfs.Aio.Reads.{read_host-result, read_host-size, read_outcome, outcome_size}
use firmware_x.Functionfs.Aio.States.{submit_read, wait_read}
use firmware_x.Functionfs.Aio.Pointers.{Pointers}
use firmware_x.Functionfs.Serving.{Served}
use firmware_x.Bootloader.{Bootloader}
use firmware_x.Bootloader.Service.{Generated}
use firmware_x.Bootloader.Service.Attend.{Attending}

-- The handler's pointers are set, and an `fd_set` has a place for its two descriptors.
pub record Selectable (s : Handler) : Type 0 where
  pub pointers : Pointers s
  pub ctrl_fits : fits_fd_set s.fd_ffs_ep_crtl ≡ true
  pub event_fits : fits_fd_set s.fd_eventfd ≡ true

-- What is needed of the outside and of the generated code: a transfer fails, or has at least the 9 bytes
-- of a header; and the features have from 55 to 2 ^ 32 - 1 bytes.
pub record WholePackets (env : Env) (generated : Generated) : Type 0 where
  pub packets : (h : History) (n : ℕ) → to_int32 (env.answer h).res ≡ pos n → 9 ≤ n
  pub enough : 55 ≤ length generated.feature_serialized
  pub fits : length generated.feature_serialized < 2 ^ 32

pub Served-Selectable :
    (s s' : Handler) (h h' : History) → Served s h s' h' → Selectable s → Selectable s'
Served-Selectable s s' h h' served ok = record {
  pointers = served.pointers;
  ctrl_fits = ap (λ (t : Handler). fits_fd_set t.fd_ffs_ep_crtl) served.frame ∙ ok.ctrl_fits;
  event_fits = ap (λ (t : Handler). fits_fd_set t.fd_eventfd) served.frame ∙ ok.event_fits;
}

abbrev pub Safe : {A : Type 0} → M Bootloader A → Type 0
Safe m = (b : Bootloader) (h : History) → Selectable b.ffs_h → is_next (m b h).0 ≡ true

pub seq-Safe :
    {A B : Type 0} (m : M Bootloader A) (f : A → M Bootloader B)
    → Safe m
    → Keeps Attending m
    → ((a : A) → Safe (f a))
    → Safe (m >>= f)
seq-Safe m f first kept rest b h ok =
    let r = m b h in
    let attended = kept b h ok.pointers in
    then_run-is_next f r (first b h ok)
      (λ a e. rest a r.1 r.2 (Served-Selectable b.ffs_h r.1.ffs_h h r.2 attended.handler ok))

module _ (env : Env) where
  pub wait-Safe :
      (t : ℤ) (s : Handler) (h : History)
      → Selectable s
      → is_next (wait_read_management_ready (plain env) t s h).0 ≡ true
  unfolding wait_read_management_ready
  wait-Safe t s h ok = rw (ok.ctrl_fits, ok.event_fits)

  pub ctrl_ready-Safe :
      (s : Handler) (h : History)
      → Selectable s
      → is_next (is_read_ctrl_ready (plain env) s h).0 ≡ true
  unfolding is_read_ctrl_ready
  ctrl_ready-Safe s h ok = rw ok.ctrl_fits

  pub eventfd_ready-Safe :
      (s : Handler) (h : History)
      → Selectable s
      → is_next (is_read_eventfd_ready (plain env) s h).0 ≡ true
  unfolding is_read_eventfd_ready
  eventfd_ready-Safe s h ok = rw ok.event_fits

  pub read_ctrl-Safe :
      (l : List ℕ) (s : Handler) (h : History) → is_next (read_ctrl (plain env) l s h).0 ≡ true
  unfolding read_ctrl
  read_ctrl-Safe l s h = ground arith

  pub read_eventfd-Safe :
      (l : List ℕ) (s : Handler) (h : History) → is_next (read_eventfd (plain env) l s h).0 ≡ true
  unfolding read_eventfd
  read_eventfd-Safe l s h = ground arith

-- What a read gives: it returns, and what it returns with true is a whole packet.
module _ (env : Env) (generated : Generated) (whole : WholePackets env generated) (buffer : List ℕ)
    (s : Handler) (h : History) (p : Pointers s) where
  pub read-fine : is_next (read_host env buffer minus_one s h).0 ≡ true
  read-fine =
      ap (λ (x : Exit (Bool × List ℕ × ℤ)). is_next x)
        (read_host-result env buffer minus_one s h p.c p.i p.o p.has_ctx p.has_in p.has_out)

  pub read-whole :
      (got : List ℕ) (res : ℤ)
      → (read_host env buffer minus_one s h).0 ≡ next (true, got, res)
      → 9 ≤ length got
  read-whole got res e =
      let run = read_host env buffer minus_one s h in
      let submitted = submit_read env buffer minus_one s h p.c p.i p.o in
      let waited = wait_read env buffer minus_one s h p.c p.i p.o in
      let result =
        read_host-result env buffer minus_one s h p.c p.i p.o p.has_ctx p.has_in p.has_out in
      let outcome : next
            (read_outcome (env.answer submitted) (env.answer waited) s.fd_ffs_ep_out p.i minus_one)
          ≡ next (true, got, res) =
        sym result ∙ e in
      let (res_is, good, data_is) =
        outcome_size (env.answer submitted) (env.answer waited) s.fd_ffs_ep_out p.i minus_one res
          got (cc) in
      let sized : res ≡ pos (length got) =
        read_host-size env buffer got minus_one res s run.1 h run.2 p.c p.i p.o p.has_ctx p.has_in
          p.has_out (λ k. (e k, run.1, run.2)) in
      whole.packets waited (length got) (sym res_is ∙ sized)
