-- ===== src/Cars/Invoke/Submitted.antt =====
-- What has happened when invoke.js prints that the transaction was ordered and committed.
use blockchain_tutorial.Prelude.{
  ℕ, Bool, ◌≡◌, ◌∙◌, refl, ap, true, Bool-cases, inl, inr, ◌==◌, arith, Option, none, some, List,
  [], ◌∷◌, String,
}
use blockchain_tutorial.Js.{Exception, Outcome, ok, throw, pending, settle, continue, pure, to_text}
use blockchain_tutorial.Js.Trace.{continue-ok}
use blockchain_tutorial.Cars.{
  Occurrence, answered, committed, Call, open_store, get_user_context, new_transaction,
  send_proposal, send_transaction, await_all, Sdk, member,
}
use blockchain_tutorial.Cars.Users.{need_enrolled}
use blockchain_tutorial.Cars.Invoke.{
  start, wait, Report, finished, failed, report, first_good, try_invoke, invoke,
}
use blockchain_tutorial.Cars.Invoke.Confirmed.{Occurs, race_reports}

-- The peer answered the proposal with status 200 first, the transaction was sent with its
-- responses, the orderer answered SUCCESS, and the event hub reported VALID.
pub record IsSubmitted (sdk : Sdk) : Type 0 where
  pub before : List Call
  pub tx : String
  pub others : List (Option ℕ)
  pub occurrences : List Occurrence
  pub proposed : sdk.answer before (send_proposal tx) ≡ ok (some (some 200 ∷ others))
  pub sent :
      sdk.answer (send_proposal tx ∷ before) (send_transaction tx (some 200 ∷ others)) ≡ ok tt
  pub awaited :
      sdk.answer (send_transaction tx (some 200 ∷ others) ∷ send_proposal tx ∷ before) await_all
      ≡ ok occurrences
  pub ordered : Occurs (answered "SUCCESS") occurrences
  pub valid : Occurs (committed "VALID") occurrences

-- What goes on after the test of the responses.
first_good-ok :
    (o : Option (List (Option ℕ))) (t : List Call)
    (f : List (Option ℕ) → List Call → Outcome Exception Report × List Call)
    (r : Outcome Exception Report × List Call) (b : Report)
    → continue (first_good o t).0 (first_good o t).1 f ≡ r
    → r.0 ≡ ok b
    → (others : List (Option ℕ)) × (o ≡ some (some 200 ∷ others)) × (f (some 200 ∷ others) t ≡ r)
first_good-ok none t f r b h e = cc
first_good-ok (some []) t f r b h e = cc
first_good-ok (some (none ∷ others)) t f r b h e = cc
first_good-ok (some (some s ∷ others)) t f r b h e = elim (Bool-cases (s == 200)) [
  | inl good ↦
      let same : s ≡ 200 = ground arith in
      let h' = rw same at h in (others, ap (λ x. some (some x ∷ others)) same, h')
  | inr bad ↦ let h' = rw bad at h in cc
]

caught_finished :
    (o : Outcome Exception Report) (t : List Call) (x y : Bool)
    → (settle o t (λ e u. (ok (failed (to_text e)), u))).0 ≡ ok (finished x y)
    → o ≡ ok (finished x y)
caught_finished (ok r) t x y h = h
caught_finished (throw e) t x y h = cc
caught_finished pending t x y h = cc

report_value : {a b : Report} → ◌≡◌ {A = Outcome Exception Report} (ok a) (ok b) → a ≡ b
report_value h = cc

-- The end of the chain.
reported :
    (os : List Occurrence) (t : List Call) (r : Outcome Exception Report × List Call)
    → continue (wait os start) t (λ race. pure (report race)) ≡ r
    → r.0 ≡ ok (finished true true)
    → Occurs (answered "SUCCESS") os × Occurs (committed "VALID") os
reported os t r h e =
    let (race, ended, h1) = continue-ok (wait os start) t (λ race. pure (report race)) h e in
    let said = race_reports os race true true ended (report_value (ap (λ x. x.0) h1 ∙ e)) in
    (said.0 refl, said.1 refl)

module _ (sdk : Sdk) where
  try_invoke-ok : (t : List Call) → (try_invoke sdk t).0 ≡ ok (finished true true) → IsSubmitted sdk
  unfolding try_invoke
  try_invoke-ok t h =
      let (_, _, h1) = continue-ok (sdk.answer t open_store) (open_store ∷ t) _ refl h in
      let t1 = open_store ∷ t in
      let (found, _, h2) =
        continue-ok (sdk.answer t1 (get_user_context member)) (get_user_context member ∷ t1) _ h1
          h in
      let n =
        need_enrolled sdk "获取用户zuoyuan失败.... 运行registerUser.js" found
          (get_user_context member ∷ t1) in
      let (_, _, h3) = continue-ok n.0 n.1 _ h2 h in
      let (tx, _, h4) =
        continue-ok (sdk.answer n.1 new_transaction) (new_transaction ∷ n.1) _ h3 h in
      let t2 = new_transaction ∷ n.1 in
      let t3 = send_proposal tx ∷ t2 in
      let (responses, proposed, h5) = continue-ok (sdk.answer t2 (send_proposal tx)) t3 _ h4 h in
      let (others, first, h6) = first_good-ok responses t3 _ _ (finished true true) h5 h in
      let sending = send_transaction tx (some 200 ∷ others) in
      let (_, sent, h7) = continue-ok (sdk.answer t3 sending) (sending ∷ t3) _ h6 h in
      let t4 = sending ∷ t3 in
      let (occurrences, awaited, h8) =
        continue-ok (sdk.answer t4 await_all) (await_all ∷ t4) _ h7 h in
      let said = reported occurrences (await_all ∷ t4) _ h8 h in
      record {
        before = t2;
        tx = tx;
        others = others;
        occurrences = occurrences;
        proposed = proposed ∙ ap ok first;
        sent = sent;
        awaited = awaited;
        ordered = said.0;
        valid = said.1;
      }

  -- When `invoke.js` prints that its transaction was ordered and committed, the proposal was
  -- answered with the status 200 by the first response, the transaction was sent with the
  -- responses, the orderer answered SUCCESS, and the event hub reported the code VALID.
  pub invoke-IsSubmitted :
      (t : List Call) → (invoke sdk t).0 ≡ ok (finished true true) → IsSubmitted sdk
  unfolding invoke
  invoke-IsSubmitted t h =
      let r = try_invoke sdk t in try_invoke-ok t (caught_finished r.0 r.1 true true h)
