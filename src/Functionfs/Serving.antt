-- ===== src/Functionfs/Serving.antt =====
-- What the operations between `init` and `cleanup` keep, however they end.
use firmware_x.Prelude.{◌≡◌, ◌∙◌, refl, ap, sym, subst, ℕ, List, some, arith}
use firmware_x.Prelude.Int.{ℤ}
use firmware_x.System.{History, Env, plain, Rel, Keeps, Preorder, Reply, Iocb}
use firmware_x.System.Undone.{undone}
use firmware_x.System.Traffic.{transfers}
use firmware_x.Functionfs.Traffic.{
  Pipes, pipes_of, AllOwn, IsOwnBlock, Adds, transfer-AllOwn, write_block-IsOwnBlock,
  read_block-IsOwnBlock,
}
use firmware_x.Functionfs.{
  Handler, Function, Event, bind, unbind, enable, disable, process_control_event,
  wait_read_management_ready, is_read_ctrl_ready, is_read_eventfd_ready, read_ctrl, read_eventfd,
  write_host_, read_host_,
}
use firmware_x.Functionfs.Aio.{write_host, read_host}
use firmware_x.Functionfs.Aio.Transfers.{ready, write_block}
use firmware_x.Functionfs.Aio.Reads.{read_block}
use firmware_x.Functionfs.Aio.Pointers.{Pointers}
use firmware_x.Functionfs.Aio.States.{
  after_transfer, write_host_state, read_host_state, submit_write, wait_write, submit_read,
  wait_read,
}

-- The pointers stay set; only these members may change; and nothing is taken down.
pub record Served (s : Handler) (h : History) (s' : Handler) (h' : History) : Type 0 where
  pub frame : s' ≡ record s {
    error_msg = s'.error_msg;
    ffs_binded = s'.ffs_binded;
    ffs_enabled = s'.ffs_enabled;
    rfds = s'.rfds;
    iocb_in = s'.iocb_in;
    iocb_out = s'.iocb_out;
  }
  pub pointers : Pointers s'
  pub kept : undone h' ≡ undone h
  -- the transfers behind `h` are the handler's
  pub traffic : (p : Pipes) → p ≡ pipes_of s → AllOwn p h → AllOwn p h'

abbrev pub Serving : Rel Handler
Serving s h s' h' = Pointers s → Served s h s' h'

pub Serving-Preorder : Preorder Serving
Serving-Preorder = record {
  reflexive = λ s h p. record { frame = refl; pointers = p; kept = refl; traffic = λ q e all. all };
  transitive = λ s t u h i j p q set.
      let a = p set in
      let b = q a.pointers in
      record {
        frame = ground (arith, a.frame, b.frame);
        pointers = b.pointers;
        kept = b.kept ∙ a.kept;
        traffic = λ q e all. b.traffic q (e ∙ ap pipes_of (sym a.frame)) (a.traffic q e all);
      };
}

-- With the handler's blocks and pointers as they are.
same_pointers :
    (s : Handler) (h : History) (s' : Handler) (h' : History)
    → s' ≡ record s {
      error_msg = s'.error_msg;
      ffs_binded = s'.ffs_binded;
      ffs_enabled = s'.ffs_enabled;
      rfds = s'.rfds;
    }
    → undone h' ≡ undone h
    → transfers h' ≡ transfers h
    → Serving s h s' h'
same_pointers s h s' h' e k w p = record {
  frame = ground (arith, e);
  pointers = record {
    c = p.c;
    i = p.i;
    o = p.o;
    has_ctx = ground (arith, e, p.has_ctx);
    has_in = ground (arith, e, p.has_in);
    has_out = ground (arith, e, p.has_out);
  };
  kept = k;
  traffic = λ q same all. rw w all;
}

event_frame :
    (e : Event) (s : Handler)
    → let t = process_control_event e s in
      t ≡ record s { ffs_binded = t.ffs_binded; ffs_enabled = t.ffs_enabled }
unfolding process_control_event
event_frame bind s = refl
event_frame unbind s = refl
event_frame enable s = refl
event_frame disable s = refl
event_frame _ s = refl

pub event-Serving :
    (e : Event) (s : Handler) (h : History) → Serving s h (process_control_event e s) h
event-Serving e s h = same_pointers s h _ _ (ground (arith, event_frame e s)) refl refl

-- A transfer: the two blocks are set, and at most the message is new.
transfer_frame :
    (f : Function) (r1 r2 : Reply) (s : Handler) (p : Pointers s) (i o : Iocb)
    → let t = after_transfer f r1 r2 (ready s p.c i o) in
      (t ≡ record s {
        error_msg = t.error_msg;
        ffs_binded = t.ffs_binded;
        ffs_enabled = t.ffs_enabled;
        rfds = t.rfds;
        iocb_in = t.iocb_in;
        iocb_out = t.iocb_out;
      })
      × (t.ctx ≡ some p.c)
      × (t.iocb_in ≡ some i)
      × (t.iocb_out ≡ some o)
transfer_frame f r1 r2 s p i o = ground (arith, p.has_ctx)

transfer-Served :
    (f : Function) (r1 r2 : Reply) (s s' : Handler) (h h' : History) (p : Pointers s)
    (i o block : Iocb)
    → s' ≡ after_transfer f r1 r2 (ready s p.c i o)
    → undone h' ≡ undone h
    → IsOwnBlock (pipes_of s) block
    → Adds s h h' p.c block
    → Served s h s' h'
transfer-Served f r1 r2 s s' h h' p i o block e k own adds =
    let (frame, has_ctx, has_in, has_out) = transfer_frame f r1 r2 s p i o in
    subst (λ t. Served s h t h') (sym e)
      (record {
        frame = frame;
        pointers = record {
          c = p.c;
          i = i;
          o = o;
          has_ctx = has_ctx;
          has_in = has_in;
          has_out = has_out;
        };
        kept = k;
        traffic = transfer-AllOwn s h h' p.c block p.has_ctx own adds;
      })

module _ (env : Env) where
  pub wait-Serving : (t : ℤ) → Keeps Serving (wait_read_management_ready (plain env) t)
  unfolding wait_read_management_ready undone transfers
  wait-Serving t s h = same_pointers s h _ _ (ground arith) (ground arith) (ground arith)

  pub ctrl_ready-Serving : Keeps Serving (is_read_ctrl_ready (plain env))
  unfolding is_read_ctrl_ready
  ctrl_ready-Serving s h = same_pointers s h _ _ (ground arith) (ground arith) (ground arith)

  pub eventfd_ready-Serving : Keeps Serving (is_read_eventfd_ready (plain env))
  unfolding is_read_eventfd_ready
  eventfd_ready-Serving s h = same_pointers s h _ _ (ground arith) (ground arith) (ground arith)

  pub read_ctrl-Serving : (b : List ℕ) → Keeps Serving (read_ctrl (plain env) b)
  unfolding read_ctrl undone transfers
  read_ctrl-Serving b s h = same_pointers s h _ _ (ground arith) (ground arith) (ground arith)

  pub read_eventfd-Serving : (b : List ℕ) → Keeps Serving (read_eventfd (plain env) b)
  unfolding read_eventfd undone transfers
  read_eventfd-Serving b s h = same_pointers s h _ _ (ground arith) (ground arith) (ground arith)

  pub write_host-Serving : (b : List ℕ) → Keeps Serving (write_host (plain env) b)
  unfolding undone transfers
  write_host-Serving b s h p =
      let (state, calls) = write_host_state (plain env) b s h p in
      transfer-Served write_host_ (env.answer (submit_write env b s h p.c p.i p.o))
        (env.answer (wait_write env b s h p.c p.i p.o)) s _ h _ p (write_block env s b) p.o
        (write_block env s b) state (ground (arith, calls)) (write_block-IsOwnBlock env s b)
        (ground (arith, calls))

  pub read_host-Serving : (b : List ℕ) (r : ℤ) → Keeps Serving (read_host (plain env) b r)
  unfolding undone transfers
  read_host-Serving b r s h p =
      let (state, calls) = read_host_state (plain env) b r s h p in
      transfer-Served read_host_ (env.answer (submit_read env b r s h p.c p.i p.o))
        (env.answer (wait_read env b r s h p.c p.i p.o)) s _ h _ p p.i (read_block env s)
        (read_block env s) state (ground (arith, calls)) (read_block-IsOwnBlock env s)
        (ground (arith, calls))
