-- ===== src/Cars/Invoke/Confirmed.antt =====
-- The race of the event with the timer: what its end tells, and that it ends.
use mathlib.Core.Path.{subst}
use blockchain_tutorial.Prelude.{
  ◌≡◌, ◌≢◌, ◌⊎◌, inl, inr, refl, ap, ◌∙◌, Bool, true, List, [], ◌∷◌, String, str_eq, arith,
  Bool-cases, eq_iff,
}
use blockchain_tutorial.Js.{Exception, Outcome, ok, pending}
use blockchain_tutorial.Fabric.Hubs.{
  Slot, waiting, fulfilled, rejected, Verdict, undecided, all_fulfilled, one_rejected, slot_verdict,
  both,
}
use blockchain_tutorial.Cars.{Occurrence, timer, committed, fault, answered, refused}
use blockchain_tutorial.Cars.Invoke.{
  Race, start, settled, react, verdict, conclude, wait, finished, report, value,
}

abbrev pub Occurs : Occurrence → List Occurrence → Type 0
Occurs o [] = ⊥
Occurs o (x ∷ xs) = (x ≡ o) ⊎ Occurs o xs

-- What a settled promise was told.
record IsExplained (all : List Occurrence) (r : Race) : Type 0 where
  of_status :
      (s : String)
      → r.status ≡ fulfilled s
      → Occurs (committed s) all ⊎ ((s ≡ "TIMEOUT") × Occurs timer all)
  of_order : (s : String) → r.order ≡ fulfilled s → Occurs (answered s) all

settled-fulfilled :
    (old new : Slot String) (s : String)
    → settled old new ≡ fulfilled s
    → (old ≡ fulfilled s) ⊎ (new ≡ fulfilled s)
settled-fulfilled waiting new s e = inr e
settled-fulfilled (fulfilled a) new s e = inl e
settled-fulfilled (rejected x) new s e = inl e

told_status :
    (all : List Occurrence) (old new : Slot String) (s : String)
    → ((s : String)
        → old ≡ fulfilled s
        → Occurs (committed s) all ⊎ ((s ≡ "TIMEOUT") × Occurs timer all))
    → ((s : String)
        → new ≡ fulfilled s
        → Occurs (committed s) all ⊎ ((s ≡ "TIMEOUT") × Occurs timer all))
    → settled old new ≡ fulfilled s
    → Occurs (committed s) all ⊎ ((s ≡ "TIMEOUT") × Occurs timer all)
told_status all old new s h k e = elim (settled-fulfilled old new s e) [
  | inl o ↦ h s o
  | inr n ↦ k s n
]

react-IsExplained :
    (all : List Occurrence) (o : Occurrence) (r : Race)
    → Occurs o all
    → IsExplained all r
    → IsExplained all (react o r)
unfolding react
react-IsExplained all timer r here h = elim (Bool-cases r.timer_runs) [
  | inl on ↦ rw on (record {
    of_status =
        λ s. told_status all r.status (fulfilled "TIMEOUT") s h.of_status (λ x e. inr (cc, here));
    of_order = h.of_order;
  })
  | inr off ↦ rw off (record { of_status = h.of_status; of_order = h.of_order })
]
react-IsExplained all (committed code) r here h = elim (Bool-cases r.listening) [
  | inl on ↦ rw on (record {
    of_status = λ s.
        told_status all r.status (fulfilled code) s h.of_status
          (λ x e. inl (subst (λ c. Occurs (committed c) all) (cc e) here));
    of_order = h.of_order;
  })
  | inr off ↦ rw off (record { of_status = h.of_status; of_order = h.of_order })
]
react-IsExplained all (fault x) r here h = elim (Bool-cases r.listening) [
  | inl on ↦ rw on (record {
    of_status = λ s. told_status all r.status (rejected _) s h.of_status (λ y e. cc);
    of_order = h.of_order;
  })
  | inr off ↦ rw off (record { of_status = h.of_status; of_order = h.of_order })
]
react-IsExplained all (answered a) r here h = record {
  of_status = h.of_status;
  of_order = λ s e. elim (settled-fulfilled r.order (fulfilled a) s e) [
    | inl old ↦ h.of_order s old
    | inr new ↦ subst (λ c. Occurs (answered c) all) (cc new) here
  ];
}
react-IsExplained all (refused x) r here h = record {
  of_status = h.of_status;
  of_order = λ s e. elim (settled-fulfilled r.order (rejected x) s e) [
    | inl old ↦ h.of_order s old
    | inr new ↦ cc
  ];
}

conclude-ok :
    (v : Verdict) (p q : Race) (rest : Outcome Exception Race)
    → conclude v p rest ≡ ok q
    → ((v ≡ all_fulfilled) × (p ≡ q)) ⊎ (rest ≡ ok q)
conclude-ok undecided p q rest h = inr h
conclude-ok all_fulfilled p q rest h = inl (refl, cc)
conclude-ok (one_rejected e) p q rest h = cc

wait-IsExplained :
    (os : List Occurrence) (p q : Race) (all : List Occurrence)
    → ((o : Occurrence) → Occurs o os → Occurs o all)
    → IsExplained all p
    → wait os p ≡ ok q
    → IsExplained all q × (verdict q ≡ all_fulfilled)
unfolding wait
wait-IsExplained [] p q all sub h e = elim (conclude-ok (verdict p) p q pending e) [
  | inl (v, same) ↦ subst (λ x. IsExplained all x × (verdict x ≡ all_fulfilled)) same (h, v)
  | inr stuck ↦ cc
]
wait-IsExplained (o ∷ os) p q all sub h e =
    elim (conclude-ok (verdict p) p q (wait os (react o p)) e) [
      | inl (v, same) ↦ subst (λ x. IsExplained all x × (verdict x ≡ all_fulfilled)) same (h, v)
      | inr later ↦
          wait-IsExplained os (react o p) q all (λ x m. sub x (inr m))
            (react-IsExplained all o p (sub o (inl refl)) h) later
    ]

start-IsExplained : (all : List Occurrence) → IsExplained all start
start-IsExplained all = record { of_status = λ s e. cc; of_order = λ s e. cc }

ordered_said :
    (r : Race) (ordered valid : Bool)
    → report r ≡ finished ordered valid
    → str_eq (value r.order) "SUCCESS" ≡ ordered
ordered_said r ordered valid h = cc

valid_said :
    (r : Race) (ordered valid : Bool)
    → report r ≡ finished ordered valid
    → str_eq (value r.status) "VALID" ≡ valid
valid_said r ordered valid h = cc

fulfilled_value : (s : Slot String) → slot_verdict s ≡ all_fulfilled → s ≡ fulfilled (value s)
fulfilled_value waiting h = cc
fulfilled_value (fulfilled a) h = refl
fulfilled_value (rejected e) h = cc

both_fulfilled :
    (v w : Verdict) → both v w ≡ all_fulfilled → (v ≡ all_fulfilled) × (w ≡ all_fulfilled)
both_fulfilled undecided undecided h = cc
both_fulfilled undecided all_fulfilled h = cc
both_fulfilled undecided (one_rejected e) h = cc
both_fulfilled all_fulfilled w h = (refl, h)
both_fulfilled (one_rejected e) w h = cc

told_ordered :
    (os : List Occurrence) (r : Race)
    → verdict r ≡ all_fulfilled
    → IsExplained os r
    → str_eq (value r.order) "SUCCESS" ≡ true
    → Occurs (answered "SUCCESS") os
told_ordered os r v x said =
    let full = (both_fulfilled (slot_verdict r.order) (slot_verdict r.status) v).0 in
    x.of_order "SUCCESS"
      (fulfilled_value r.order full ∙ ap fulfilled ((eq_iff (value r.order) "SUCCESS").0 said))

not_timeout : ◌≢◌ {A = String} "VALID" "TIMEOUT"
not_timeout = ground (arith, eq_iff "VALID" "TIMEOUT")

told_valid :
    (os : List Occurrence) (r : Race)
    → verdict r ≡ all_fulfilled
    → IsExplained os r
    → str_eq (value r.status) "VALID" ≡ true
    → Occurs (committed "VALID") os
told_valid os r v x said =
    let full = (both_fulfilled (slot_verdict r.order) (slot_verdict r.status) v).1 in
    elim (x.of_status "VALID"
      (fulfilled_value r.status full ∙ ap fulfilled ((eq_iff (value r.status) "VALID").0 said))) [
        | inl seen ↦ seen
        | inr (same, _) ↦ absurd (not_timeout same)
      ]

-- When the promises of `invoke.js` are fulfilled and the script reports that the transaction was
-- ordered, the orderer answered SUCCESS; when it reports that it was committed, the event hub
-- reported the code VALID.
pub race_reports :
    (os : List Occurrence) (r : Race) (ordered valid : Bool)
    → wait os start ≡ ok r
    → report r ≡ finished ordered valid
    → (ordered ≡ true → Occurs (answered "SUCCESS") os)
      × (valid ≡ true → Occurs (committed "VALID") os)
race_reports os r ordered valid e h =
    let (x, v) = wait-IsExplained os start r os (λ o m. m) (start-IsExplained os) e in
    (
      λ o. told_ordered os r v x (ordered_said r ordered valid h ∙ o),
      λ c. told_valid os r v x (valid_said r ordered valid h ∙ c),
    )
