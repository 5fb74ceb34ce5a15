-- ===== src/Fabric/Submission/Confirmed.antt =====
-- What has happened when a submission reports success.
use mathlib.Core.Path.{subst}
use blockchain_tutorial.Prelude.{
  ◌≡◌, ◌⊎◌, inl, inr, refl, ap, ◌∙◌, false, Option, some, List, [], ◌∷◌, String, arith, eq_iff,
  Bool-cases,
}
use blockchain_tutorial.Js.{
  Exception, error, type_error, thrown, to_text, Outcome, ok, throw, pending, settle, catch, ◌>>◌,
  is_truthy,
}
use blockchain_tutorial.Js.Trace.{continue-ok}
use blockchain_tutorial.Fabric.{
  ProposalResponse, Call, Proposal, send_proposal, new_transaction, Sdk, Action,
}
use blockchain_tutorial.Fabric.Client.{open_channel}
use blockchain_tutorial.Fabric.Endorsement.{responses}
use blockchain_tutorial.Fabric.Submission.{
  proposal, submit, with_id, no_id, answer_invoke, try_invoke, invoke_chaincode, recorded,
  after_proposal,
}
use blockchain_tutorial.Fabric.Submission.Ordered.{
  IsOrdered, prefix-ne-empty, is_truthy-text, after_proposal-ok,
}

pub thrown_empty : (e : Exception) → is_truthy (some (to_text e)) ≡ false → e ≡ thrown ""
unfolding to_text
thrown_empty (error m) h =
    cc (is_truthy-text _ (prefix-ne-empty "Error: " m (ground (arith, eq_iff "Error: " ""))))
thrown_empty (type_error m) h =
    cc
      (is_truthy-text _ (prefix-ne-empty "TypeError: " m (ground (arith, eq_iff "TypeError: " ""))))
thrown_empty (thrown s) h = ground (arith, eq_iff s "")

pub recorded_cases :
    (sdk : Sdk) (tx : String) (o : Outcome Exception (Option String)) (u t' : List Call)
    (message x : Option String)
    → recorded sdk tx (λ _. (o, u)) [] ≡ (ok (message, x), t')
    → is_truthy message ≡ false
    → (((o ≡ ok message) × (u ≡ t')) ⊎ (o ≡ throw (thrown ""))) × (x ≡ some tx)
recorded_cases sdk tx (ok m) u t' message x h falsy = (inl (cc, cc), cc)
recorded_cases sdk tx (throw e) u t' message x h falsy =
    let shown_error : message ≡ some (to_text e) = cc in
    (inr (ap throw (thrown_empty e (rw shown_error at falsy))), cc)
recorded_cases sdk tx pending u t' message x h falsy = cc

-- What the answer tells of the try block.
answer_invoke-ok :
    (sdk : Sdk) (r : Option String × Option String) (tx : String) (t t' : List Call)
    → answer_invoke sdk r t ≡ (ok (some tx), t')
    → (is_truthy r.0 ≡ false) × (r.1 ≡ some tx) × (t ≡ t')
answer_invoke-ok sdk (message, x) tx t t' h = elim (Bool-cases (is_truthy message)) [
  | inl truthy ↦ let h' = rw truthy at h in cc
  | inr falsy ↦ let h' = rw falsy at h in (falsy, cc, cc)
]

settle-ok :
    {A : Type 0} (o : Outcome Exception A) (u : List Call) (h : Exception → Action A)
    {r : Outcome Exception A × List Call}
    → settle o u h ≡ r
    → ((o, u) ≡ r) ⊎ ((e : Exception) × (v : List Call) × (h e v ≡ r))
settle-ok (ok a) u h e = inl e
settle-ok (throw x) u h e = inr (x, u, e)
settle-ok pending u h e = inl e

catch-ok :
    {A : Type 0} (m : Action A) (h : Exception → Action A) (t : List Call)
    {r : Outcome Exception A × List Call}
    → catch m h t ≡ r
    → (m t ≡ r) ⊎ ((e : Exception) × (u : List Call) × (h e u ≡ r))
catch-ok m h t e = settle-ok (m t).0 (m t).1 h e

-- The proposal was sent and answered, and the transaction was ordered and committed.
pub record IsConfirmed (sdk : Sdk) (p : Proposal) (t' : List Call) : Type 0 where
  pub before : List Call
  pub found : Option (List ProposalResponse)
  pub proposed : sdk.answer before (send_proposal p) ≡ ok found
  pub ordered : IsOrdered sdk p.tx_id (responses found) (send_proposal p ∷ before) t'

submit-ok :
    (sdk : Sdk) (p : Proposal) (m : Option String) (t t' : List Call)
    → submit sdk p t ≡ (ok m, t')
    → is_truthy m ≡ false
    → IsConfirmed sdk p t'
submit-ok sdk p m t t' h falsy =
    let (found, ea, h1) =
      continue-ok (sdk.answer t (send_proposal p)) (send_proposal p ∷ t)
        (after_proposal sdk "invoke chaincode" p.tx_id) h refl in
    record {
      before = t;
      found = found;
      proposed = ea;
      ordered =
          after_proposal-ok sdk "invoke chaincode" p.tx_id found m (send_proposal p ∷ t) t' h1
            falsy;
    }

-- The proposal is confirmed, or what followed it threw a value with an empty text, which the
-- variable `error_message` cannot tell from none.
abbrev pub ConfirmedOrEmpty : Sdk → Proposal → List Call → Type 0
ConfirmedOrEmpty sdk p t' =
    IsConfirmed sdk p t' ⊎ ((u : List Call) × ((submit sdk p u).0 ≡ throw (thrown "")))

recorded-Confirmed :
    (sdk : Sdk) (p : Proposal) (message : Option String) (u t' : List Call)
    → (((submit sdk p u).0 ≡ ok message) × ((submit sdk p u).1 ≡ t'))
      ⊎ ((submit sdk p u).0 ≡ throw (thrown ""))
    → is_truthy message ≡ false
    → ConfirmedOrEmpty sdk p t'
recorded-Confirmed sdk p message u t' (inl (e, same)) falsy =
    inl (submit-ok sdk p message u t' (λ i. (e i, same i)) falsy)
recorded-Confirmed sdk p message u t' (inr e) falsy = inr (u, e)

module _ (sdk : Sdk) (peers : Option (List String)) (channel chaincode fcn : String)
    (args : List String) (username org : Option String) where
  abbrev asked_for : String → Proposal
  asked_for tx = proposal sdk peers channel chaincode fcn args tx

  try_invoke-ok :
      (tx : String) (message : Option String) (t t' : List Call)
      → try_invoke sdk peers channel chaincode fcn args username org t ≡ (ok (message, some tx), t')
      → is_truthy message ≡ false
      → ConfirmedOrEmpty sdk (asked_for tx) t'
  unfolding try_invoke
  try_invoke-ok tx message t t' h falsy =
      elim (catch-ok
        (open_channel sdk org username (some channel)
          >> with_id sdk peers channel chaincode fcn args)
        (no_id sdk) t h) [
          | inr (e, u, no_id_known) ↦ cc
          | inl went ↦
              let o = open_channel sdk org username (some channel) t in
              let (_, _, h1) =
                continue-ok o.0 o.1 (λ _. with_id sdk peers channel chaincode fcn args) went refl in
              let u = new_transaction false ∷ o.1 in
              let (tx', _, h2) =
                continue-ok (sdk.answer o.1 (new_transaction false)) u
                  (λ tx'. recorded sdk tx' (submit sdk (asked_for tx'))) h1 refl in
              let m = submit sdk (asked_for tx') u in
              let (how, same_id) = recorded_cases sdk tx' m.0 m.1 t' message (some tx) h2 falsy in
              let same : tx' ≡ tx = cc same_id in
              subst (λ x. ConfirmedOrEmpty sdk (asked_for x) t') same
                (recorded-Confirmed sdk (asked_for tx') message u t' how falsy)
        ]

  -- When `invokeChaincode` returns a transaction's id, the proposal with that id was answered by
  -- good responses alone, the transaction went to the orderer with them, the orderer answered
  -- SUCCESS and every event hub reported the commit as VALID; or else the code after the id threw
  -- a value whose text is empty.
  pub invoke_confirmed :
      (tx : String) (t t' : List Call)
      → invoke_chaincode sdk peers channel chaincode fcn args username org t ≡ (ok (some tx), t')
      → ConfirmedOrEmpty sdk (asked_for tx) t'
  unfolding invoke_chaincode
  invoke_confirmed tx t t' h =
      let r = try_invoke sdk peers channel chaincode fcn args username org t in
      let (a, ea, h1) = continue-ok r.0 r.1 (answer_invoke sdk) h refl in
      let (falsy, same_id, same) = answer_invoke-ok sdk a tx r.1 t' h1 in
      let p : r.0 ≡ ok (a.0, some tx) = ea ∙ ap (λ x. ok (a.0, x)) same_id in
      try_invoke-ok tx a.0 t t' (λ i. (p i, same i)) falsy
