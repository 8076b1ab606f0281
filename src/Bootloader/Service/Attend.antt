-- ===== src/Bootloader/Service/Attend.antt =====
-- What the parts of a round keep: the relation, and the answer to a packet.
use firmware_x.Prelude.{
  ◌≡◌, ◌∙◌, refl, ℕ, List, [], ◌∷◌, Bool, Outcome, ok, undefined, out_of_range, exhausted,
}
use firmware_x.System.{History, Env, plain, Rel, Keeps, Preorder, M, ◌>>=◌, pure, gets, >>=-Keeps}
use firmware_x.Functionfs.{Handler}
use firmware_x.Functionfs.Aio.{write_host}
use firmware_x.Functionfs.Aio.Pointers.{Pointers}
use firmware_x.Functionfs.Serving.{Served, Serving, Serving-Preorder, write_host-Serving}
use firmware_x.Protocol.{MessageComposed}
use firmware_x.Protocol.Parser.{parse_legacy}
use firmware_x.Protocol.Composer.{compose_legacy, get_composed}
use firmware_x.Bootloader.{Bootloader, on_ffs}
use firmware_x.Bootloader.Service.{
  Generated, Locals, Round, from_outcome, parse_request, response, compose_response, put_host,
  respond,
}

-- The gadget and the timeout are as before, and the handler is as `Served` says.
pub record Attended (b : Bootloader) (h : History) (b' : Bootloader) (h' : History) : Type 0 where
  pub handler : Served b.ffs_h h b'.ffs_h h'
  pub gadget : b'.cfs_h ≡ b.cfs_h
  pub timeout : b'.usb_timeout_ms ≡ b.usb_timeout_ms

abbrev pub Attending : Rel Bootloader
Attending b h b' h' = Pointers b.ffs_h → Attended b h b' h'

pub Attending-Preorder : Preorder Attending
Attending-Preorder = record {
  reflexive = λ b h p. record {
    handler = Serving-Preorder.reflexive b.ffs_h h p;
    gadget = refl;
    timeout = refl;
  };
  transitive = λ b c d h i j p q set.
      let first = p set in
      let then_ = q first.handler.pointers in
      record {
        handler =
            Serving-Preorder.transitive b.ffs_h c.ffs_h d.ffs_h h i j (λ _. first.handler)
              (λ _. then_.handler) set;
        gadget = then_.gadget ∙ first.gadget;
        timeout = then_.timeout ∙ first.timeout;
      };
}

pub seq :
    {A B : Type 0} (m : M Bootloader A) (f : A → M Bootloader B)
    → Keeps Attending m
    → ((a : A) → Keeps Attending (f a))
    → Keeps Attending (m >>= f)
seq m f first rest = >>=-Keeps Attending Attending-Preorder f rest m first

pub on_ffs-Attending : {A : Type 0} (m : M Handler A) → Keeps Serving m → Keeps Attending (on_ffs m)
on_ffs-Attending m kept b h p = record { handler = kept b.ffs_h h p; gadget = refl; timeout = refl }

still : {A : Type 0} (a : A) → Keeps {S = Bootloader} Attending (pure a)
still a = Attending-Preorder.reflexive

pub ends :
    (r : Round) (l : Locals) → Keeps Attending (pure {S = Bootloader} {A = Round × Locals} (r, l))
ends r l = Attending-Preorder.reflexive

-- A call on the parser or the composer.
from_outcome-Attending :
    {A B : Type 0} (b : Bootloader) (h : History) (put : A → Bootloader) (o : Outcome (B × A))
    → ((a : A) → Attending b h (put a) h)
    → let r = from_outcome b h put o in Attending b h r.1 r.2
from_outcome-Attending b h put (ok (r, a)) kept = kept a
from_outcome-Attending b h put undefined kept = Attending-Preorder.reflexive b h
from_outcome-Attending b h put out_of_range kept = Attending-Preorder.reflexive b h
from_outcome-Attending b h put exhausted kept = Attending-Preorder.reflexive b h

module _ (env : Env) (generated : Generated) where
  parse-Attending : (packet : List ℕ) → Keeps Attending (parse_request (plain env) generated packet)
  unfolding parse_request
  parse-Attending packet b h =
      from_outcome-Attending b h (λ p. record b { parser_h = p }) (parse_legacy b.parser_h packet)
        (λ a p. record {
          handler = Serving-Preorder.reflexive b.ffs_h h p;
          gadget = refl;
          timeout = refl;
        })

  compose-Attending : Keeps Attending (compose_response (plain env) generated)
  unfolding compose_response
  compose-Attending b h =
      from_outcome-Attending b h (λ c. record b { composer_h = c })
        (compose_legacy b.composer_h (response (plain env) generated))
        (λ a p. record {
          handler = Serving-Preorder.reflexive b.ffs_h h p;
          gadget = refl;
          timeout = refl;
        })

  put_host-Attending :
      (ms : List MessageComposed) → Keeps Attending (put_host (plain env) generated ms)
  unfolding put_host
  put_host-Attending [] = still tt
  put_host-Attending (m ∷ ms) =
      seq (on_ffs (write_host (plain env) m))
        (λ (w : Bool × List ℕ). put_host (plain env) generated ms)
        (on_ffs-Attending (write_host (plain env) m) (write_host-Serving env m))
        (λ w. put_host-Attending ms)

  pub respond-Attending : (packet : List ℕ) → Keeps Attending (respond (plain env) generated packet)
  unfolding respond
  respond-Attending packet =
      let e = plain env in
      let put = λ (ms : List MessageComposed). put_host e generated ms in
      let listed : M Bootloader (List MessageComposed) = gets (λ b. get_composed b.composer_h) in
      let puts : Keeps Attending (listed >>= put) =
        seq listed put Attending-Preorder.reflexive put_host-Attending in
      let composes : Keeps Attending
          (compose_response e generated >>= λ (x : Bool). listed >>= put) =
        seq (compose_response e generated) (λ (x : Bool). listed >>= put) compose-Attending
          (λ x. puts) in
      seq (parse_request e generated packet)
        (λ (x : Bool). compose_response e generated >>= λ (y : Bool). listed >>= put)
        (parse-Attending packet) (λ x. composes)
