-- ===== src/Chaincode/Dispatch.antt =====
-- What the other methods do, and which method a proposal runs.
use blockchain_tutorial.Prelude.{
  ◌≡◌, ◌≢◌, ◌⊎◌, inl, inr, Option-cases, refl, true, none, some, List, [], ◌∷◌, arith,
}
use blockchain_tutorial.Js.{settle, ok, pending, Outcome, throw}
use blockchain_tutorial.Js.Number.{Text, Number, nan, int, parse_int}
use blockchain_tutorial.Chaincode.{
  Stub, Fault, Response, success, failure_of, Write, put_state, delete_state, init, move, delete,
  find_method, call_method, invoke, is_number_type,
}
use blockchain_tutorial.Chaincode.Ledger.{Ledger, after, Serves, text_eq_iff}

number_type : (n : Number) → is_number_type n ≡ true
number_type nan = refl
number_type (int a) = refl

-- Whatever the stub answers, and however the call ends, a transfer writes no key but its first
-- two parameters.
move_frame :
    (stub : Stub) (db : Ledger) (a b x k : Text)
    → k ≢ a
    → k ≢ b
    → after (move stub (a ∷ b ∷ x ∷ []) []).1 db k ≡ db k
unfolding move
move_frame stub db [] b x k ka kb = refl
move_frame stub db (c ∷ a) [] x k ka kb = refl
move_frame stub db (c ∷ a) (c' ∷ b) x k ka kb =
    ground (arith, text_eq_iff (c ∷ a) k, text_eq_iff (c' ∷ b) k)

module _ (stub : Stub) (db : Ledger) (peer : Serves stub db) where
  init_writes :
      (a u b v : Text)
      → init stub (a ∷ u ∷ b ∷ v ∷ []) [] ≡ (ok success, put_state b v ∷ put_state a u ∷ [])
  unfolding init
  init_writes a u b v = ground (
    arith,
    peer.writes (put_state a u),
    peer.writes (put_state b v),
    number_type (parse_int u),
    number_type (parse_int v),
  )

  -- At a peer that serves the ledger, `Init` with two different holders stores the two values as
  -- they are given, and refuses no text: one that is no number is stored too.
  init_stores :
      (a u b v : Text)
      → a ≢ b
      → let (r, ws) = init stub (a ∷ u ∷ b ∷ v ∷ []) [] in
        (r ≡ ok success)
        × (after ws db a ≡ some u)
        × (after ws db b ≡ some v)
        × ((k : Text) → k ≢ a → k ≢ b → after ws db k ≡ db k)
  init_stores a u b v ne = rw (init_writes a u b v) (
    refl,
    ground (arith, text_eq_iff b a, text_eq_iff a a),
    ground (arith, text_eq_iff b b),
    λ k ka kb. ground (arith, text_eq_iff b k, text_eq_iff a k),
  )

  -- At a peer that serves the ledger, a deleted holder has no value, and other keys stay.
  delete_removes :
      (a : Text)
      → let (r, ws) = delete stub (a ∷ []) [] in
        (r ≡ ok tt) × (after ws db a ≡ none) × ((k : Text) → k ≢ a → after ws db k ≡ db k)
  unfolding delete
  delete_removes a =
      rw (peer.writes (delete_state a))
        (refl, ground (arith, text_eq_iff a a), λ k ka. ground (arith, text_eq_iff a k))

  -- At a peer that serves the ledger, a transfer that does not succeed has written nothing,
  -- whatever its parameters.
  pub move_atomic : (ps : List Text) → ((move stub ps []).0 ≡ ok tt) ⊎ ((move stub ps []).1 ≡ [])
  unfolding move
  move_atomic [] = inr refl
  move_atomic (a ∷ []) = inr refl
  move_atomic (a ∷ b ∷ []) = inr refl
  move_atomic ([] ∷ b ∷ x ∷ []) = inr refl
  move_atomic ((c ∷ a) ∷ [] ∷ x ∷ []) = inr refl
  move_atomic ((c ∷ a) ∷ (c' ∷ b) ∷ x ∷ []) = grind (arith, peer.writes)
  move_atomic (a ∷ b ∷ x ∷ y ∷ ps) = inr refl

catch_all :
    (m : Outcome Fault Response × List Write) (h : Fault → Response) (e : Fault)
    → (settle m.0 m.1 (λ e' t. (ok (h e'), t))).0 ≢ throw e
catch_all (ok r, t) h e p = cc
catch_all (throw e', t) h e p = cc
catch_all (pending, t) h e p = cc

-- `Invoke` rejects nothing: whatever is asked and whatever the stub answers, the call ends with a
-- response or waits for the stub.
invoke_responds :
    (stub : Stub) (fcn : Text) (ps : List Text) (e : Fault) → (invoke stub fcn ps []).0 ≢ throw e
unfolding invoke
invoke_responds stub fcn ps e = elim (Option-cases (find_method fcn)) [
  | inl unknown ↦ rw unknown (λ p. cc)
  | inr (m, known) ↦ rw known (catch_all (call_method stub m ps []) failure_of e)
]
