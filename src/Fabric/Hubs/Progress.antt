-- ===== src/Fabric/Hubs/Progress.antt =====
-- Where each promise is told its end, `Promise.all` settles.
use blockchain_tutorial.Prelude.{
  ℕ, zero, suc, ◌≡◌, ◌≢◌, refl, true, some, List, [], ◌∷◌, String, arith, get_elem?, if◌then◌else◌,
  ◌⊎◌, inl, inr, ◌==◌, map, ap,
}
use mathlib.Core.Option
use mathlib.Core.Path.{subst}
use blockchain_tutorial.Js.{Exception, Outcome, pending}
use blockchain_tutorial.Fabric.{
  HubEvent, timer, committed, fault, Occurrence, at_hub, answered, refused,
}
use blockchain_tutorial.Fabric.Hubs.{
  waiting, Watch, watch, Listener, react, Promises, react_at, step, wait, verdict, verdict_hubs,
  slot_verdict, Verdict, undecided, all_fulfilled, one_rejected, conclude, started,
}
use blockchain_tutorial.Fabric.Hubs.Settled.{Decides}

pub get_elem?-react_at :
    (f : Listener) (j : ℕ) (e : HubEvent) (ws : List Watch) (i : ℕ)
    → get_elem? (react_at f j e ws) i
      ≡ (if i == j then Option.map (react f e) (get_elem? ws i) else get_elem? ws i)
get_elem?-react_at f j e [] i = ground arith
get_elem?-react_at f zero e (w ∷ ws) zero = refl
get_elem?-react_at f zero e (w ∷ ws) (suc i) = ground arith
get_elem?-react_at f (suc j) e (w ∷ ws) zero = ground arith
get_elem?-react_at f (suc j) e (w ∷ ws) (suc i) = ground (arith, get_elem?-react_at f j e ws i)

-- The occurrence tells the end of the promise on hub `i`.
abbrev IsDecision : ℕ → Occurrence → Type 0
IsDecision i (at_hub j timer) = ⊥
IsDecision i (at_hub j (committed _)) = i ≡ j
IsDecision i (at_hub j (fault _)) = i ≡ j
IsDecision i (answered _) = ⊥
IsDecision i (refused _) = ⊥

abbrev IsAnswer : Occurrence → Type 0
IsAnswer (at_hub _ _) = ⊥
IsAnswer (answered _) = Unit
IsAnswer (refused _) = Unit

abbrev pub Decisive : ℕ → List Occurrence → Type 0
Decisive i [] = ⊥
Decisive i (o ∷ os) = IsDecision i o ⊎ Decisive i os

abbrev pub Answered : List Occurrence → Type 0
Answered [] = ⊥
Answered (o ∷ os) = IsAnswer o ⊎ Answered os

abbrev HubReady : List Occurrence → ℕ → Watch → Type 0
HubReady os i w = (w.result ≢ waiting) ⊎ ((w.listening ≡ true) × Decisive i os)

record IsReady (os : List Occurrence) (p : Promises) : Type 0 where
  hubs_ready : (i : ℕ) (w : Watch) → get_elem? p.hubs i ≡ some w → HubReady os i w
  order_ready : (p.order ≢ waiting) ⊎ Answered os

verdict_hubs-decided :
    (ws : List Watch) (v : Verdict)
    → ((i : ℕ) (w : Watch) → get_elem? ws i ≡ some w → w.result ≢ waiting)
    → v ≢ undecided
    → verdict_hubs ws v ≢ undecided
verdict_hubs-decided [] v h n = n
verdict_hubs-decided (w ∷ ws) v h n =
    ground (arith, h 0 w refl, verdict_hubs-decided ws v (λ i. h (suc i)) n)

react-HubReady :
    (f : Listener) (j : ℕ) (e : HubEvent) (os : List Occurrence) (i : ℕ) (w : Watch)
    → Decides f
    → HubReady (at_hub j e ∷ os) i w
    → i ≡ j
    → HubReady os i (react f e w)
unfolding react
react-HubReady f j timer os i w d h e = ground arith
react-HubReady f j (committed c) os i w d h e = ground (arith, d c)
react-HubReady f j (fault x) os i w d h e = ground arith

later-HubReady :
    (o : Occurrence) (os : List Occurrence) (i : ℕ) (w : Watch)
    → (IsDecision i o → ⊥)
    → HubReady (o ∷ os) i w
    → HubReady os i w
later-HubReady o os i w n (inl s) = inl s
later-HubReady o os i w n (inr (l, inl d)) = absurd (n d)
later-HubReady o os i w n (inr (l, inr d)) = inr (l, d)

-- What stands at a place after an event: the hub that reacted, or the hub that was there.
pub react_at_cases :
    (f : Listener) (j : ℕ) (e : HubEvent) (ws : List Watch) (i : ℕ) (w : Watch)
    → get_elem? (react_at f j e ws) i ≡ some w
    → ((w' : Watch) × (get_elem? ws i ≡ some w') × (react f e w' ≡ w) × (i ≡ j))
      ⊎ ((get_elem? ws i ≡ some w) × (i ≢ j))
react_at_cases f j e [] i w h = cc
react_at_cases f zero e (x ∷ ws) zero w h = inl (x, refl, cc, refl)
react_at_cases f zero e (x ∷ ws) (suc i) w h = inr (h, omega arith)
react_at_cases f (suc j) e (x ∷ ws) zero w h = inr (h, omega arith)
react_at_cases f (suc j) e (x ∷ ws) (suc i) w h = elim (react_at_cases f j e ws i w h) [
  | inl (w', g, r, s) ↦ inl (w', g, r, ap suc s)
  | inr (g, n) ↦ inr (g, omega arith)
]

decision_place : (i j : ℕ) (e : HubEvent) → IsDecision i (at_hub j e) → i ≡ j
decision_place i j timer h = absurd h
decision_place i j (committed c) h = h
decision_place i j (fault x) h = h

at_hub-HubReady :
    (f : Listener) (j : ℕ) (e : HubEvent) (os : List Occurrence) (p : Promises)
    → Decides f
    → IsReady (at_hub j e ∷ os) p
    → (i : ℕ) (w : Watch) → get_elem? (react_at f j e p.hubs) i ≡ some w
    → HubReady os i w
at_hub-HubReady f j e os p d r i w h = elim (react_at_cases f j e p.hubs i w h) [
  | inl (w', g, s, same) ↦
      subst (HubReady os i) s (react-HubReady f j e os i w' d (r.hubs_ready i w' g) same)
  | inr (g, other) ↦
      later-HubReady (at_hub j e) os i w (λ x. other (decision_place i j e x)) (r.hubs_ready i w g)
]

step-IsReady :
    (f : Listener) (o : Occurrence) (os : List Occurrence) (p : Promises)
    → Decides f
    → IsReady (o ∷ os) p
    → IsReady os (step f o p)
unfolding step
step-IsReady f (at_hub j e) os p d r = record {
  hubs_ready = at_hub-HubReady f j e os p d r;
  order_ready = ground (arith, r.order_ready);
}
step-IsReady f (answered s) os p d r = record {
  hubs_ready = λ i w g. later-HubReady (answered s) os i w (λ x. x) (r.hubs_ready i w g);
  order_ready = inl (ground arith);
}
step-IsReady f (refused e) os p d r = record {
  hubs_ready = λ i w g. later-HubReady (refused e) os i w (λ x. x) (r.hubs_ready i w g);
  order_ready = inl (ground arith);
}

conclude-ne-pending :
    (v : Verdict) (p : Promises) (rest : Outcome Exception Promises)
    → (v ≡ undecided → rest ≢ pending)
    → conclude v p rest ≢ pending
conclude-ne-pending undecided p rest h = h refl
conclude-ne-pending all_fulfilled p rest h = λ e. cc
conclude-ne-pending (one_rejected x) p rest h = λ e. cc

wait-IsReady :
    (f : Listener) (os : List Occurrence) (p : Promises)
    → Decides f
    → IsReady os p
    → wait f os p ≢ pending
unfolding wait
wait-IsReady f [] p d r = conclude-ne-pending (verdict p) p pending (λ open_still _.
    verdict_hubs-decided p.hubs (slot_verdict p.order) (λ i w g. ground (arith, r.hubs_ready i w g))
      (ground (arith, r.order_ready)) open_still)
wait-IsReady f (o ∷ os) p d r =
    conclude-ne-pending (verdict p) p (wait f os (step f o p))
      (λ _. wait-IsReady f os (step f o p) d (step-IsReady f o os p d r))

started_listens :
    (P : ℕ → Type 0) (addresses : List String) (i : ℕ) (w : Watch)
    → ((k : ℕ) (a : String) → get_elem? addresses k ≡ some a → P k)
    → get_elem? (map watch addresses) i ≡ some w
    → (w.listening ≡ true) × P i
started_listens P [] i w h g = cc
started_listens P (a ∷ rest) zero w h g = (ground arith, h 0 a refl)
started_listens P (a ∷ rest) (suc i) w h g =
    started_listens (λ k. P (suc k)) rest i w (λ k. h (suc k)) g

-- If the listener settles its promise at every code, every hub reports an event or a fault, and
-- the orderer answers or refuses, in whatever order and with timers running out in between, then
-- `Promise.all` settles.
pub wait_settles :
    (f : Listener) (addresses : List String) (os : List Occurrence)
    → Decides f
    → ((k : ℕ) (a : String) → get_elem? addresses k ≡ some a → Decisive k os)
    → Answered os
    → wait f os (started addresses) ≢ pending
wait_settles f addresses os d h a = wait-IsReady f os (started addresses) d (record {
  hubs_ready = λ i w g. inr (started_listens (λ k. Decisive k os) addresses i w h g);
  order_ready = inr a;
})
