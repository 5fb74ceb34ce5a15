-- ===== src/Fabric/Hubs/Settled.antt =====
-- A settled promise stays as it is, and `Promise.all` fulfils only with every promise fulfilled.
use blockchain_tutorial.Prelude.{
  ◌≡◌, ◌≢◌, refl, List, [], ◌∷◌, String, arith, if◌then◌else◌, All, ◌⊎◌, inl, inr,
}
use blockchain_tutorial.Js.{Exception, Outcome, ok, pending}
use blockchain_tutorial.Fabric.{HubEvent, timer, committed, fault, Occurrence}
use blockchain_tutorial.Fabric.Hubs.{
  Slot, waiting, Watch, Listener, react, Promises, step, wait, verdict, verdict_hubs, slot_verdict,
  Verdict, undecided, all_fulfilled, one_rejected, conclude,
}

-- A hub that listens has not settled; one that does not has.
abbrev pub IsConsistent : Watch → Type 0
IsConsistent w = if w.listening then w.result ≡ waiting else w.result ≢ waiting

-- A listener settles the promise whatever the code.
abbrev pub Decides : Listener → Type 0
Decides on_event = (code : String) → on_event code ≢ waiting

pub react-IsConsistent :
    (on_event : Listener) (e : HubEvent) (w : Watch)
    → Decides on_event
    → IsConsistent w
    → IsConsistent (react on_event e w)
unfolding react
react-IsConsistent on_event timer w d h = ground arith
react-IsConsistent on_event (committed code) w d h = ground (arith, d code)
react-IsConsistent on_event (fault e) w d h = ground arith

-- Once the promise of a hub is settled, no later event changes it, where the hub listens only
-- while its promise waits.
react_settled :
    (on_event : Listener) (e : HubEvent) (w : Watch)
    → IsConsistent w
    → w.result ≢ waiting
    → (react on_event e w).result ≡ w.result
unfolding react
react_settled on_event timer w h s = ground arith
react_settled on_event (committed code) w h s = ground arith
react_settled on_event (fault e) w h s = ground arith

abbrev pub IsFulfilled : {A : Type 0} → Slot A → Type 0
IsFulfilled s = slot_verdict s ≡ all_fulfilled

verdict_hubs-IsFulfilled :
    (ws : List Watch) (v : Verdict)
    → verdict_hubs ws v ≡ all_fulfilled
    → All (λ w. IsFulfilled w.result) ws × (v ≡ all_fulfilled)
verdict_hubs-IsFulfilled [] v h = (tt, h)
verdict_hubs-IsFulfilled (w ∷ ws) v h = ground (arith, verdict_hubs-IsFulfilled ws v)

pub conclude-ok :
    (v : Verdict) (p q : Promises) (rest : Outcome Exception Promises)
    → conclude v p rest ≡ ok q
    → ((v ≡ all_fulfilled) × (p ≡ q)) ⊎ (rest ≡ ok q)
conclude-ok undecided p q rest h = inr h
conclude-ok all_fulfilled p q rest h = inl (refl, cc)
conclude-ok (one_rejected e) p q rest h = cc

pub wait-IsFulfilled :
    (on_event : Listener) (os : List Occurrence) (p q : Promises)
    → wait on_event os p ≡ ok q
    → All (λ w. IsFulfilled w.result) q.hubs × IsFulfilled q.order
unfolding wait
wait-IsFulfilled on_event [] p q h = elim (conclude-ok (verdict p) p q pending h) [
  | inl (v, e) ↦ rw (← e) (verdict_hubs-IsFulfilled p.hubs (slot_verdict p.order) v)
  | inr stuck ↦ cc
]
wait-IsFulfilled on_event (o ∷ os) p q h =
    elim (conclude-ok (verdict p) p q (wait on_event os (step on_event o p)) h) [
      | inl (v, e) ↦ rw (← e) (verdict_hubs-IsFulfilled p.hubs (slot_verdict p.order) v)
      | inr later ↦ wait-IsFulfilled on_event os (step on_event o p) q later
    ]
