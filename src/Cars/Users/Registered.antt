-- ===== src/Cars/Users/Registered.antt =====
-- What has happened when a user is registered, and when the administrator is enrolled.
use blockchain_tutorial.Prelude.{
  ◌≡◌, inl, inr, refl, true, Option, List, ◌∷◌, String, arith, Bool-cases,
}
use blockchain_tutorial.Js.{Exception, Outcome, ok, throw, pending, settle, to_text}
use blockchain_tutorial.Js.Trace.{continue-ok}
use blockchain_tutorial.Cars.{
  User, Sdk, Call, open_store, get_user_context, enroll, register, create_user, set_user_context,
  is_enrolled, member,
}
use blockchain_tutorial.Cars.Users.{
  Report, ready, failed, mentions_authorization, need_enrolled, try_register, register_user,
}

-- The administrator is in the store and enrolled; the authority gave a secret for the user, then
-- an enrollment for that secret; and the user made of it was stored.
pub record IsRegistered (sdk : Sdk) : Type 0 where
  pub before : List Call
  pub admin : Option User
  pub secret : String
  pub enrollment : String
  pub user : User
  pub found : sdk.answer before (get_user_context "admin") ≡ ok admin
  pub admin_enrolled : is_enrolled admin ≡ true
  pub registered : sdk.answer (get_user_context "admin" ∷ before) (register member) ≡ ok secret
  pub enrolled :
      sdk.answer (register member ∷ get_user_context "admin" ∷ before) (enroll member secret)
      ≡ ok enrollment
  pub created :
      sdk.answer
        (enroll member secret ∷ register member ∷ get_user_context "admin" ∷ before)
        (create_user member enrollment)
      ≡ ok user
  pub stored :
      sdk.answer
        (create_user member enrollment
          ∷ enroll member secret
          ∷ register member
          ∷ get_user_context "admin"
          ∷ before)
        (set_user_context user)
      ≡ ok tt

need_enrolled-ok :
    (sdk : Sdk) (message : String) (found : Option User) (t : List Call) (a : Unit)
    → (need_enrolled sdk message found t).0 ≡ ok a
    → (is_enrolled found ≡ true) × ((need_enrolled sdk message found t).1 ≡ t)
need_enrolled-ok sdk message found t a h = ground (arith, Bool-cases (is_enrolled found))

caught_ready :
    (o : Outcome Exception Report) (t u : List Call)
    → settle o t (λ e v. (ok (failed (to_text e) (mentions_authorization (to_text e))), v))
      ≡ (ok ready, u)
    → o ≡ ok ready
caught_ready (ok r) t u h = cc
caught_ready (throw e) t u h = cc
caught_ready pending t u h = cc

module _ (sdk : Sdk) where
  try_register-ok : (t u : List Call) → try_register sdk t ≡ (ok ready, u) → IsRegistered sdk
  unfolding try_register
  try_register-ok t u h =
      let t0 = open_store ∷ t in
      let (_, _, h1) = continue-ok (sdk.answer t open_store) t0 _ h refl in
      let t1 = get_user_context "admin" ∷ t0 in
      let (admin, found, h2) =
        continue-ok (sdk.answer t0 (get_user_context "admin")) t1 _ h1 refl in
      elim (Bool-cases (is_enrolled admin)) [
        | inr lacking ↦ let h3 = rw lacking at h2 in cc
        | inl there ↦
            let h3 = rw there at h2 in
            let t2 = register member ∷ t1 in
            let (secret, registered, h4) =
              continue-ok (sdk.answer t1 (register member)) t2 _ h3 refl in
            let t3 = enroll member secret ∷ t2 in
            let (enrollment, enrolled, h5) =
              continue-ok (sdk.answer t2 (enroll member secret)) t3 _ h4 refl in
            let t4 = create_user member enrollment ∷ t3 in
            let (user, created, h6) =
              continue-ok (sdk.answer t3 (create_user member enrollment)) t4 _ h5 refl in
            let (_, stored, h7) =
              continue-ok (sdk.answer t4 (set_user_context user)) (set_user_context user ∷ t4) _ h6
                refl in
            record {
              before = t0;
              admin = admin;
              secret = secret;
              enrollment = enrollment;
              user = user;
              found = found;
              admin_enrolled = there;
              registered = registered;
              enrolled = enrolled;
              created = created;
              stored = stored;
            }
      ]

  -- When `registerUser.js` ends with its message of success, the administrator was enrolled, and
  -- the user was registered, enrolled with the secret that the registration gave, and stored.
  pub register_confirmed :
      (t u : List Call) → register_user sdk t ≡ (ok ready, u) → IsRegistered sdk
  unfolding register_user
  register_confirmed t u h =
      let r = try_register sdk t in try_register-ok t r.1 (λ i. (caught_ready r.0 r.1 u h i, r.1))
