-- ===== src/Fabric/Submission/Ordered.antt =====
-- What has happened when the code after a good proposal leaves no error message.
use Prim.Native.String.{◌++◌}
use text.Mathlib.TextLemmas.{append-eq-nil_iff}
use blockchain_tutorial.Prelude.{
  ℕ, ◌<◌, ◌≡◌, ◌≢◌, inl, inr, refl, sym, ap, true, false, Option, none, some, List, [], ◌∷◌, String,
  arith, All, eq_iff, length, Bool-cases,
}
use blockchain_tutorial.Js.{Exception, Outcome, ok, ◌>>=◌, is_truthy}
use blockchain_tutorial.Js.Trace.{continue-ok}
use blockchain_tutorial.Fabric.{
  ProposalResponse, Occurrence, answered, Call, get_hubs, send_transaction, await_all, Sdk, Action,
}
use blockchain_tutorial.Fabric.Endorsement.{all_good, responses, log_first, IsGood, all_good-All}
use blockchain_tutorial.Fabric.Hubs.{
  Slot, waiting, fulfilled, rejected, Watch, tx_listener, wait, started,
}
use blockchain_tutorial.Fabric.Hubs.Reports.{Occurs, ReportsValid, wait_reports}
use blockchain_tutorial.Fabric.Submission.{
  review, log_result, order_error, order_status, order, after_proposal,
}

-- The responses were all good, the transaction went to the orderer with them after the hubs were
-- set up, every hub has reported it as valid, and the orderer has answered SUCCESS. `t` is what was
-- asked before the hubs, `t'` what has been asked in the end.
pub record IsOrdered (sdk : Sdk) (tx : String) (rs : List ProposalResponse) (t t' : List Call)
    : Type 0 where
  pub addresses : List String
  pub occurrences : List Occurrence
  pub asked : t' ≡ await_all ∷ send_transaction tx rs ∷ get_hubs ∷ t
  pub hubs : sdk.answer t get_hubs ≡ ok addresses
  pub events : sdk.answer (send_transaction tx rs ∷ get_hubs ∷ t) await_all ≡ ok occurrences
  pub good : All IsGood rs
  pub valid : (i : ℕ) → i < length addresses → ReportsValid i occurrences
  pub success : Occurs (answered (some "SUCCESS")) occurrences

pub prefix-ne-empty : (p s : String) → p ≢ "" → p ++ s ≢ ""
prefix-ne-empty p s h e = h (append-eq-nil_iff.0 e).0

pub is_truthy-text : (s : String) → s ≢ "" → is_truthy (some s) ≡ true
is_truthy-text s h = ground (arith, eq_iff s "")

order_prefix-ne : ◌≢◌ {A = String} "Failed to order the transaction. Error code: " ""
order_prefix-ne = ground (arith, eq_iff "Failed to order the transaction. Error code: " "")

pub order_error-falsy : (s : Option String) → is_truthy (order_error s) ≡ false → s ≡ some "SUCCESS"
order_error-falsy none h = cc (
    is_truthy-text _
      (prefix-ne-empty "Failed to order the transaction. Error code: " "undefined" order_prefix-ne))
order_error-falsy (some s) h = ground (
  arith,
  eq_iff s "SUCCESS",
  is_truthy-text _
      (prefix-ne-empty "Failed to order the transaction. Error code: " s order_prefix-ne),
)

log_result-ok :
    (s : Slot (Option String)) (t : List Call) (f : Unit → Action (Option String))
    {r : Outcome Exception (Option String) × List Call} {m : Option String}
    → (log_result s >>= f) t ≡ r
    → r.0 ≡ ok m
    → f tt t ≡ r
log_result-ok waiting t f h e = cc
log_result-ok (fulfilled none) t f h e = cc
log_result-ok (fulfilled (some x)) t f h e = h
log_result-ok (rejected x) t f h e = cc

review-ok :
    (m x : Option String) (ws : List Watch) (t t' : List Call)
    → review m ws t ≡ (ok x, t')
    → (m ≡ x) × (t ≡ t')
unfolding review
review-ok m x [] t t' h = (cc, cc)
review-ok m x (w ∷ ws) t t' h =
    review-ok m x ws t t' (log_result-ok w.result t (λ _. review m ws) h refl)

order_status-some :
    (s : Slot (Option String)) (r : String) → order_status s ≡ some r → s ≡ fulfilled (some r)
order_status-some waiting r h = cc
order_status-some (fulfilled s) r h = ap fulfilled h
order_status-some (rejected e) r h = cc

log_first-ok :
    (found : Option (List ProposalResponse)) (t : List Call) (f : Unit → Action (Option String))
    {r : Outcome Exception (Option String) × List Call} {m : Option String}
    → (log_first found >>= f) t ≡ r
    → r.0 ≡ ok m
    → f tt t ≡ r
log_first-ok none t f h e = cc
log_first-ok (some []) t f h e = cc
log_first-ok (some (p ∷ rs)) t f h e = elim (Bool-cases p.endorsed) [
  | inl fine ↦ rw fine at h
  | inr bad ↦ let h' = rw bad at h in cc
]

failed_message :
    (m : Option String)
    → some "Failed to send Proposal and receive all good ProposalResponse" ≡ m
    → is_truthy m ≡ false
    → ⊥
failed_message m e h =
    ground (arith, eq_iff "Failed to send Proposal and receive all good ProposalResponse" "")

module _ (sdk : Sdk) (kind tx : String) where
  order-ok :
      (found : Option (List ProposalResponse)) (m : Option String) (t t' : List Call)
      → All IsGood (responses found)
      → order sdk kind tx found t ≡ (ok m, t')
      → is_truthy m ≡ false
      → IsOrdered sdk tx (responses found) t t'
  unfolding order
  order-ok found m t t' good h falsy =
      let rs = responses found in
      let h0 = log_first-ok found t _ h refl in
      let (addresses, ea, h1) = continue-ok (sdk.answer t get_hubs) (get_hubs ∷ t) _ h0 refl in
      let (_, es, h2) =
        continue-ok (sdk.answer (get_hubs ∷ t) (send_transaction tx rs)) _ _ h1 refl in
      let (os, eo, h3) =
        continue-ok (sdk.answer (send_transaction tx rs ∷ get_hubs ∷ t) await_all) _ _ h2 refl in
      let (q, ew, h4) = continue-ok (wait (tx_listener kind) os (started addresses)) _ _ h3 refl in
      let (no_error, same) = review-ok (order_error (order_status q.order)) m q.hubs _ t' h4 in
      let (valid, from_orderer) = wait_reports kind addresses os q ew in
      record {
        addresses = addresses;
        occurrences = os;
        asked = sym same;
        hubs = ea;
        events = eo;
        good = good;
        valid = valid;
        success =
            from_orderer (some "SUCCESS")
              (order_status-some q.order "SUCCESS" (order_error-falsy _ (rw no_error falsy)));
      }

  pub after_proposal-ok :
      (found : Option (List ProposalResponse)) (m : Option String) (t t' : List Call)
      → after_proposal sdk kind tx found t ≡ (ok m, t')
      → is_truthy m ≡ false
      → IsOrdered sdk tx (responses found) t t'
  unfolding after_proposal
  after_proposal-ok found m t t' h falsy = elim (Bool-cases (all_good found)) [
    | inl good ↦ order-ok found m t t' (all_good-All found good) (rw good at h) falsy
    | inr bad ↦ let h' = rw bad at h in absurd (failed_message m (cc h') falsy)
  ]
