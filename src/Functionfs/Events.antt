-- ===== src/Functionfs/Events.antt =====
-- The control events: what a sequence of them leaves in the two flags.
use firmware_x.Prelude.{
  ◌≡◌, refl, ◌∙◌, List, [], ◌∷◌, ◌++◌, Bool, true, false, Option, none, some, All, arith,
}
use firmware_x.Functionfs.{Handler, Event, bind, unbind, enable, disable, process_control_event}

pub process_control_events : List Event → Handler → Handler
process_control_events [] s = s
process_control_events (e ∷ es) s = process_control_events es (process_control_event e s)

-- What an event says of the function: whether it is enabled, and whether it is bound.
abbrev pub says_enabled : Event → Option Bool
says_enabled enable = some true
says_enabled disable = some false
says_enabled _ = none

abbrev pub says_binded : Event → Option Bool
says_binded bind = some true
says_binded unbind = some false
says_binded _ = none

events-append :
    (es fs : List Event) (s : Handler)
    → process_control_events (es ++ fs) s ≡ process_control_events fs (process_control_events es s)
unfolding process_control_events
events-append [] fs s = refl
events-append (e ∷ es) fs s = events-append es fs (process_control_event e s)

event-enabled :
    (e : Event) (b : Bool) (s : Handler)
    → says_enabled e ≡ some b
    → (process_control_event e s).ffs_enabled ≡ b
unfolding process_control_event
event-enabled enable b s h = ground arith
event-enabled disable b s h = ground arith
event-enabled _ b s h = absurd (ground arith)

event-enabled_same :
    (e : Event) (s : Handler)
    → says_enabled e ≡ none
    → (process_control_event e s).ffs_enabled ≡ s.ffs_enabled
unfolding process_control_event
event-enabled_same enable s h = absurd (ground arith)
event-enabled_same disable s h = absurd (ground arith)
event-enabled_same _ s h = refl

event-binded :
    (e : Event) (b : Bool) (s : Handler)
    → says_binded e ≡ some b
    → (process_control_event e s).ffs_binded ≡ b
unfolding process_control_event
event-binded bind b s h = ground arith
event-binded unbind b s h = ground arith
event-binded _ b s h = absurd (ground arith)

event-binded_same :
    (e : Event) (s : Handler)
    → says_binded e ≡ none
    → (process_control_event e s).ffs_binded ≡ s.ffs_binded
unfolding process_control_event
event-binded_same bind s h = absurd (ground arith)
event-binded_same unbind s h = absurd (ground arith)
event-binded_same _ s h = refl

events-enabled_same :
    (es : List Event) (s : Handler)
    → All (λ e. says_enabled e ≡ none) es
    → (process_control_events es s).ffs_enabled ≡ s.ffs_enabled
unfolding process_control_events
events-enabled_same [] s all = refl
events-enabled_same (e ∷ es) s (h, all) =
    rw (events-enabled_same es (process_control_event e s) all) (event-enabled_same e s h)

events-binded_same :
    (es : List Event) (s : Handler)
    → All (λ e. says_binded e ≡ none) es
    → (process_control_events es s).ffs_binded ≡ s.ffs_binded
unfolding process_control_events
events-binded_same [] s all = refl
events-binded_same (e ∷ es) s (h, all) =
    rw (events-binded_same es (process_control_event e s) all) (event-binded_same e s h)

-- After any sequence of control events, from any state, the function is marked as enabled exactly as
-- the last ENABLE or DISABLE in it says: the events before, and events of other kinds behind, are of
-- no matter.
pub last_enable_decides :
    (before after : List Event) (e : Event) (b : Bool) (s : Handler)
    → says_enabled e ≡ some b
    → All (λ x. says_enabled x ≡ none) after
    → (process_control_events (before ++ e ∷ after) s).ffs_enabled ≡ b
unfolding process_control_events
last_enable_decides before after e b s says rest =
    let t = process_control_events before s in
    rw (events-append before (e ∷ after) s)
      (events-enabled_same after (process_control_event e t) rest ∙ event-enabled e b t says)

-- Likewise the function is marked as bound exactly as the last BIND or UNBIND says.
pub last_bind_decides :
    (before after : List Event) (e : Event) (b : Bool) (s : Handler)
    → says_binded e ≡ some b
    → All (λ x. says_binded x ≡ none) after
    → (process_control_events (before ++ e ∷ after) s).ffs_binded ≡ b
unfolding process_control_events
last_bind_decides before after e b s says rest =
    let t = process_control_events before s in
    rw (events-append before (e ∷ after) s)
      (events-binded_same after (process_control_event e t) rest ∙ event-binded e b t says)

-- All that the events say, in order, and the last of it.
abbrev pub said : (Event → Option Bool) → List Event → List Bool
said says [] = []
said says (e ∷ es) = let rest = said says es in elim (says e) [ none ↦ rest | some b ↦ b ∷ rest ]

abbrev pub last_or : Bool → List Bool → Bool
last_or b [] = b
last_or b (x ∷ xs) = last_or x xs

event_flags :
    (e : Event) (s : Handler)
    → process_control_event e s ≡ record s {
      ffs_enabled = last_or s.ffs_enabled (said says_enabled (e ∷ []));
      ffs_binded = last_or s.ffs_binded (said says_binded (e ∷ []));
    }
unfolding process_control_event
event_flags bind s = refl
event_flags unbind s = refl
event_flags enable s = refl
event_flags disable s = refl
event_flags _ s = refl

said-last :
    (says : Event → Option Bool) (e : Event) (es : List Event) (b : Bool)
    → last_or (last_or b (said says (e ∷ []))) (said says es) ≡ last_or b (said says (e ∷ es))
said-last says e es b = ground arith

-- A sequence of control events, from any state, leaves the two flags as the last ENABLE or DISABLE and
-- the last BIND or UNBIND in it say, each independently of the events of the other kinds, or as they
-- were if there is none; it changes nothing else.
pub control_flags_lem :
    (es : List Event) (s : Handler)
    → process_control_events es s ≡ record s {
      ffs_enabled = last_or s.ffs_enabled (said says_enabled es);
      ffs_binded = last_or s.ffs_binded (said says_binded es);
    }
unfolding process_control_events
control_flags_lem [] s = refl
control_flags_lem (e ∷ es) s = rw (
  event_flags e s,
  control_flags_lem es,
  said-last says_enabled e es s.ffs_enabled,
  said-last says_binded e es s.ffs_binded,
)
