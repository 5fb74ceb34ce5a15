-- ===== src/Fabric/Submission/Instantiated.antt =====
-- What has happened when an instantiation reports success.
use blockchain_tutorial.Prelude.{
  ◌≡◌, ◌⊎◌, inl, inr, refl, ap, Bool-cases, true, false, Option, some, List, ◌∷◌, String,
}
use blockchain_tutorial.Js.{
  Exception, thrown, to_text, Outcome, ok, throw, pending, settle, ◌>>◌, ◌>>=◌, is_truthy,
}
use blockchain_tutorial.Js.Trace.{continue-ok}
use blockchain_tutorial.Fabric.{
  ProposalResponse, Instantiation, Call, send_instantiate, new_transaction, Sdk, Action, call,
}
use blockchain_tutorial.Fabric.Client.{open_channel}
use blockchain_tutorial.Fabric.Endorsement.{responses}
use blockchain_tutorial.Fabric.Submission.{
  instantiation, no_id, recorded, after_proposal, try_instantiate, answer_instantiate,
  instantiate_chaincode,
}
use blockchain_tutorial.Fabric.Submission.Ordered.{IsOrdered, after_proposal-ok}
use blockchain_tutorial.Fabric.Submission.Confirmed.{thrown_empty, recorded_cases}

-- The proposal to instantiate was sent and answered, and the transaction ordered and committed.
pub record IsInstantiated (sdk : Sdk) (r : Instantiation) (t' : List Call) : Type 0 where
  pub before : List Call
  pub found : Option (List ProposalResponse)
  pub proposed : sdk.answer before (send_instantiate r) ≡ ok found
  pub ordered : IsOrdered sdk r.tx_id (responses found) (send_instantiate r ∷ before) t'

abbrev pub submit_instantiation : Sdk → Instantiation → Action (Option String)
submit_instantiation sdk r = do
  found ← call sdk (send_instantiate r)
  after_proposal sdk "chaincode instantiate" r.tx_id found

submit_instantiation-ok :
    (sdk : Sdk) (r : Instantiation) (m : Option String) (t t' : List Call)
    → submit_instantiation sdk r t ≡ (ok m, t')
    → is_truthy m ≡ false
    → IsInstantiated sdk r t'
submit_instantiation-ok sdk r m t t' h falsy =
    let (found, ea, h1) =
      continue-ok (sdk.answer t (send_instantiate r)) (send_instantiate r ∷ t)
        (after_proposal sdk "chaincode instantiate" r.tx_id) h refl in
    record {
      before = t;
      found = found;
      proposed = ea;
      ordered =
          after_proposal-ok sdk "chaincode instantiate" r.tx_id found m (send_instantiate r ∷ t) t'
            h1 falsy;
    }

-- The message and the id that are known after the attempt.
abbrev Known : Type 0
Known = Option String × Option String

no_id_cases :
    (sdk : Sdk) (o : Outcome Exception Known) (u t' : List Call) (message x : Option String)
    → settle o u (no_id sdk) ≡ (ok (message, x), t')
    → is_truthy message ≡ false
    → (◌≡◌ {A = Outcome Exception Known × List Call} (o, u) (ok (message, x), t'))
      ⊎ (o ≡ throw (thrown ""))
no_id_cases sdk (ok k) u t' message x h falsy = inl h
no_id_cases sdk (throw e) u t' message x h falsy =
    let shown_error : message ≡ some (to_text e) = cc in
    inr (ap throw (thrown_empty e (rw shown_error at falsy)))
no_id_cases sdk pending u t' message x h falsy = cc

answer_instantiate-ok :
    (sdk : Sdk) (org : Option String) (channel : String) (r : Known) (s : String) (t t' : List Call)
    → answer_instantiate sdk org channel r t ≡ (ok s, t')
    → (is_truthy r.0 ≡ false) × (t ≡ t')
answer_instantiate-ok sdk org channel (message, x) s t t' h =
    elim (Bool-cases (is_truthy message)) [
      | inl truthy ↦ let h' = rw truthy at h in cc
      | inr falsy ↦ let h' = rw falsy at h in (falsy, cc)
    ]

module _ (sdk : Sdk) (peers : Option (List String)) (channel chaincode version : String)
    (function_name type : Option String) (args : List String) (username org : Option String) where
  abbrev asked_for : String → Instantiation
  asked_for tx = instantiation sdk peers chaincode version function_name type args tx

  abbrev attempt : Action Known
  attempt =
      open_channel sdk org username (some channel)
      >> (call sdk (new_transaction true) >>= λ tx.
          recorded sdk tx (submit_instantiation sdk (asked_for tx)))

  -- The attempt, or what followed the transaction's id, threw a value with an empty text.
  abbrev pub EmptyThrown : List Call → Type 0
  EmptyThrown t =
      ((attempt t).0 ≡ throw (thrown ""))
      ⊎ ((tx : String) × (u : List Call) × ((submit_instantiation sdk (asked_for tx) u).0
            ≡ throw (thrown "")))

  attempt-ok :
      (message x : Option String) (t t' : List Call)
      → attempt t ≡ (ok (message, x), t')
      → is_truthy message ≡ false
      → ((tx : String) × IsInstantiated sdk (asked_for tx) t') ⊎ EmptyThrown t
  attempt-ok message x t t' h falsy =
      let o = open_channel sdk org username (some channel) t in
      let (_, _, h1) = continue-ok o.0 o.1 _ h refl in
      let u = new_transaction true ∷ o.1 in
      let (tx, _, h2) =
        continue-ok (sdk.answer o.1 (new_transaction true)) u
          (λ tx. recorded sdk tx (submit_instantiation sdk (asked_for tx))) h1 refl in
      let m = submit_instantiation sdk (asked_for tx) u in
      elim (recorded_cases sdk tx m.0 m.1 t' message x h2 falsy).0 [
        | inl (e, same) ↦
            inl (
              tx,
              submit_instantiation-ok sdk (asked_for tx) message u t' (λ i. (e i, same i)) falsy,
            )
        | inr empty ↦ inr (inr (tx, u, empty))
      ]

  -- When `instantiateChaincode` reports success, its proposal was answered by good responses
  -- alone, the transaction went to the orderer with them, the orderer answered SUCCESS and every
  -- event hub reported the commit as VALID; or else a value whose text is empty was thrown.
  pub instantiate_confirmed :
      (s : String) (t t' : List Call)
      → instantiate_chaincode sdk peers channel chaincode version function_name type args username
          org t
        ≡ (ok s, t')
      → ((tx : String) × IsInstantiated sdk (asked_for tx) t') ⊎ EmptyThrown t
  unfolding instantiate_chaincode try_instantiate
  instantiate_confirmed s t t' h =
      let r =
        try_instantiate sdk peers channel chaincode version function_name type args username org
          t in
      let (k, ek, h1) = continue-ok r.0 r.1 (answer_instantiate sdk org channel) h refl in
      let (falsy, same) = answer_instantiate-ok sdk org channel k s r.1 t' h1 in
      elim (no_id_cases sdk (attempt t).0 (attempt t).1 t' k.0 k.1 (λ i. (ek i, same i)) falsy) [
        | inl went ↦ attempt-ok k.0 k.1 t t' went falsy
        | inr empty ↦ inr (inl empty)
      ]
