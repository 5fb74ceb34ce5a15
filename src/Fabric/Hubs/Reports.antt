-- ===== src/Fabric/Hubs/Reports.antt =====
-- A fulfilled promise of a transaction's hub was told that the transaction is valid.
use blockchain_tutorial.Prelude.{
  ℕ, zero, suc, ◌≡◌, refl, Option, some, List, [], ◌∷◌, String, arith, get_elem?, ◌⊎◌, inl, inr,
  map, ap, ◌∙◌, sym, eq_iff, length, All, ◌<◌,
}
use mathlib.Core.Path.{subst}
use blockchain_tutorial.Js.{ok, pending}
use blockchain_tutorial.Fabric.{
  HubEvent, timer, committed, fault, Occurrence, at_hub, answered, refused,
}
use blockchain_tutorial.Fabric.Hubs.{
  Slot, waiting, fulfilled, rejected, Watch, watch, Listener, tx_listener, react, Promises,
  react_at, step, wait, verdict, settle_order, started,
}
use blockchain_tutorial.Fabric.Hubs.Settled.{IsFulfilled, conclude-ok, wait-IsFulfilled}
use blockchain_tutorial.Fabric.Hubs.Progress.{react_at_cases}

abbrev pub Occurs : Occurrence → List Occurrence → Type 0
Occurs o [] = ⊥
Occurs o (x ∷ xs) = (x ≡ o) ⊎ Occurs o xs

-- The hub reported the transaction as valid.
abbrev pub ReportsValid : ℕ → List Occurrence → Type 0
ReportsValid i = Occurs (at_hub i (committed "VALID"))

abbrev IsExplained : List Occurrence → List Watch → Type 0
IsExplained all ws =
    (i : ℕ) (w : Watch) → get_elem? ws i ≡ some w → IsFulfilled w.result → ReportsValid i all

react-IsFulfilled :
    (kind : String) (e : HubEvent) (w : Watch)
    → IsFulfilled (react (tx_listener kind) e w).result
    → IsFulfilled w.result ⊎ (e ≡ committed "VALID")
unfolding react
react-IsFulfilled kind timer w h = inl (ground arith)
react-IsFulfilled kind (committed code) w h = ground (arith, eq_iff code "VALID")
react-IsFulfilled kind (fault x) w h = inl (ground arith)

react_at-IsExplained :
    (kind : String) (j : ℕ) (e : HubEvent) (ws : List Watch) (all : List Occurrence)
    → Occurs (at_hub j e) all
    → IsExplained all ws
    → IsExplained all (react_at (tx_listener kind) j e ws)
react_at-IsExplained kind j e ws all here h i w g full =
    elim (react_at_cases (tx_listener kind) j e ws i w g) [
      | inl (w', g', s, same) ↦
          elim (react-IsFulfilled kind e w'
            (subst (λ (x : Watch). IsFulfilled x.result) (sym s) full)) [
              | inl before ↦ h i w' g' before
              | inr valid ↦ subst (λ o. Occurs o all) (cc (same, valid)) here
            ]
      | inr (g', other) ↦ h i w g' full
    ]

step-IsExplained :
    (kind : String) (o : Occurrence) (p : Promises) (all : List Occurrence)
    → Occurs o all
    → IsExplained all p.hubs
    → IsExplained all (step (tx_listener kind) o p).hubs
unfolding step
step-IsExplained kind (at_hub j e) p all here h = react_at-IsExplained kind j e p.hubs all here h
step-IsExplained kind (answered s) p all here h = h
step-IsExplained kind (refused x) p all here h = h

wait-IsExplained :
    (kind : String) (os : List Occurrence) (p q : Promises) (all : List Occurrence)
    → ((o : Occurrence) → Occurs o os → Occurs o all)
    → IsExplained all p.hubs
    → wait (tx_listener kind) os p ≡ ok q
    → IsExplained all q.hubs
unfolding wait
wait-IsExplained kind [] p q all sub h e = elim (conclude-ok (verdict p) p q pending e) [
  | inl (v, same) ↦ subst (λ (x : Promises). IsExplained all x.hubs) same h
  | inr stuck ↦ cc
]
wait-IsExplained kind (o ∷ os) p q all sub h e =
    elim (conclude-ok (verdict p) p q (wait (tx_listener kind) os (step (tx_listener kind) o p))
      e) [
        | inl (v, same) ↦ subst (λ (x : Promises). IsExplained all x.hubs) same h
        | inr later ↦
            wait-IsExplained kind os (step (tx_listener kind) o p) q all (λ x m. sub x (inr m))
              (step-IsExplained kind o p all (sub o (inl refl)) h) later
      ]

started-waiting :
    (addresses : List String) (i : ℕ) (w : Watch)
    → get_elem? (map watch addresses) i ≡ some w
    → w.result ≡ waiting
started-waiting [] i w g = cc
started-waiting (a ∷ rest) zero w g = ground arith
started-waiting (a ∷ rest) (suc i) w g = started-waiting rest i w g

length-react_at :
    (f : Listener) (j : ℕ) (e : HubEvent) (ws : List Watch) → length (react_at f j e ws) ≡ length ws
length-react_at f j e [] = refl
length-react_at f zero e (w ∷ ws) = refl
length-react_at f (suc j) e (w ∷ ws) = ap suc (length-react_at f j e ws)

length-step :
    (f : Listener) (o : Occurrence) (p : Promises) → length (step f o p).hubs ≡ length p.hubs
unfolding step
length-step f (at_hub j e) p = length-react_at f j e p.hubs
length-step f (answered s) p = refl
length-step f (refused x) p = refl

length-wait :
    (f : Listener) (os : List Occurrence) (p q : Promises)
    → wait f os p ≡ ok q
    → length q.hubs ≡ length p.hubs
unfolding wait
length-wait f [] p q e = elim (conclude-ok (verdict p) p q pending e) [
  | inl (v, same) ↦ rw (← same)
  | inr stuck ↦ cc
]
length-wait f (o ∷ os) p q e = elim (conclude-ok (verdict p) p q (wait f os (step f o p)) e) [
  | inl (v, same) ↦ rw (← same)
  | inr later ↦ length-wait f os (step f o p) q later ∙ length-step f o p
]

length-watch : (addresses : List String) → length (map watch addresses) ≡ length addresses
length-watch [] = refl
length-watch (a ∷ rest) = ap suc (length-watch rest)

All-get_elem? :
    (ws : List Watch) (i : ℕ)
    → All (λ (w : Watch). IsFulfilled w.result) ws
    → i < length ws
    → (w : Watch) × (get_elem? ws i ≡ some w) × IsFulfilled w.result
All-get_elem? [] i h l = absurd (omega arith)
All-get_elem? (w ∷ ws) zero h l = (w, refl, h.0)
All-get_elem? (w ∷ ws) (suc i) h l = All-get_elem? ws i h.1 (omega arith)

settle_order-fulfilled :
    (old new : Slot (Option String)) (r : Option String)
    → settle_order old new ≡ fulfilled r
    → (old ≡ fulfilled r) ⊎ (new ≡ fulfilled r)
settle_order-fulfilled waiting new r e = inr e
settle_order-fulfilled (fulfilled a) new r e = inl e
settle_order-fulfilled (rejected x) new r e = inl e

abbrev OrderExplained : List Occurrence → Slot (Option String) → Type 0
OrderExplained all s = (r : Option String) → s ≡ fulfilled r → Occurs (answered r) all

step-OrderExplained :
    (f : Listener) (o : Occurrence) (p : Promises) (all : List Occurrence)
    → Occurs o all
    → OrderExplained all p.order
    → OrderExplained all (step f o p).order
unfolding step
step-OrderExplained f (at_hub j ev) p all here h r e = h r e
step-OrderExplained f (answered s) p all here h r e =
    elim (settle_order-fulfilled p.order (fulfilled s) r e) [
      | inl old ↦ h r old
      | inr new ↦ subst (λ x. Occurs (answered x) all) (cc new) here
    ]
step-OrderExplained f (refused x) p all here h r e =
    elim (settle_order-fulfilled p.order (rejected x) r e) [ inl old ↦ h r old | inr new ↦ cc ]

wait-OrderExplained :
    (f : Listener) (os : List Occurrence) (p q : Promises) (all : List Occurrence)
    → ((o : Occurrence) → Occurs o os → Occurs o all)
    → OrderExplained all p.order
    → wait f os p ≡ ok q
    → OrderExplained all q.order
unfolding wait
wait-OrderExplained f [] p q all sub h e = elim (conclude-ok (verdict p) p q pending e) [
  | inl (v, same) ↦ subst (λ (x : Promises). OrderExplained all x.order) same h
  | inr stuck ↦ cc
]
wait-OrderExplained f (o ∷ os) p q all sub h e =
    elim (conclude-ok (verdict p) p q (wait f os (step f o p)) e) [
      | inl (v, same) ↦ subst (λ (x : Promises). OrderExplained all x.order) same h
      | inr later ↦
          wait-OrderExplained f os (step f o p) q all (λ x m. sub x (inr m))
            (step-OrderExplained f o p all (sub o (inl refl)) h) later
    ]

-- If `Promise.all` over the hubs of a transaction and the orderer's answer is fulfilled, then every
-- hub has reported the code VALID, and the answer that it hands on is one that the orderer gave.
pub wait_reports :
    (kind : String) (addresses : List String) (os : List Occurrence) (q : Promises)
    → wait (tx_listener kind) os (started addresses) ≡ ok q
    → ((i : ℕ) → i < length addresses → ReportsValid i os)
      × ((r : Option String) → q.order ≡ fulfilled r → Occurs (answered r) os)
wait_reports kind addresses os q e = (
  λ i l.
      let (w, g, full) =
        All-get_elem? q.hubs i (wait-IsFulfilled (tx_listener kind) os (started addresses) q e).0 (
          omega (
            arith,
            length-wait (tx_listener kind) os (started addresses) q e,
            length-watch addresses,
          )) in
      wait-IsExplained kind os (started addresses) q os (λ o m. m)
        (λ k x at_k full'. ground (arith, started-waiting addresses k x at_k)) e i w g full,
  wait-OrderExplained (tx_listener kind) os (started addresses) q os (λ o m. m) (λ r c. cc) e,
)
