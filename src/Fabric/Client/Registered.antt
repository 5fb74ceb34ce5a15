-- ===== src/Fabric/Client/Registered.antt =====
-- What has happened when getRegisteredUser reports a user as enrolled.
use blockchain_tutorial.Prelude.{
  ◌≡◌, ◌⊎◌, inl, inr, refl, ap, ◌∙◌, true, Option, none, some, List, ◌∷◌, String, Bool-cases,
  if◌then◌else◌,
}
use Prim.Native.String.{◌++◌}
use blockchain_tutorial.Js.{
  Exception, Outcome, ok, throw, pending, settle, pure, to_text, ◌>>=◌, ◌>>◌,
}
use blockchain_tutorial.Js.Trace.{continue-ok}
use blockchain_tutorial.Fabric.{
  User, Call, get_user_context, set_user_context, get_authority, register, Sdk, Action, call,
}
use blockchain_tutorial.Fabric.Client.{
  Registration, registered, failed, is_enrolled, first_admin, enroll, report, get_client_for_org,
  get_registered_user,
}

-- The user was found in the store, enrolled; or the authority registered it and the user made
-- with the secret of the registration was stored.
abbrev pub WasEnrolled : Sdk → String → String → Type 0
WasEnrolled sdk username org =
    ((t : List Call) × (found : Option User) × (sdk.answer t (get_user_context username) ≡ ok found)
      × (is_enrolled found ≡ true))
    ⊎ ((t u : List Call) × (secret : String) × (user : User) × (sdk.answer t (register username org)
          ≡ ok secret)
        × (sdk.answer u (set_user_context username secret) ≡ ok (some user)))

settle-registered :
    (o : Outcome Exception Registration) (t : List Call) (secret : Option String) (text : String)
    → (settle o t (λ e u. (ok (failed ("failed " ++ to_text e)), u))).0
      ≡ ok (registered secret text)
    → o ≡ ok (registered secret text)
settle-registered (ok r) t secret text h = h
settle-registered (throw e) t secret text h = cc
settle-registered pending t secret text h = cc

report-some :
    (sdk : Sdk) (username : String) (u : Option User) (t : List Call) (r : Registration)
    → (report sdk username true u t).0 ≡ ok r
    → (user : User) × (u ≡ some user)
report-some sdk username none t r h = cc
report-some sdk username (some user) t r h = (user, refl)

module _ (sdk : Sdk) (username org : String) where
  enroll-ok :
      (t : List Call) (user : User)
      → (enroll sdk username org t).0 ≡ ok (some user)
      → WasEnrolled sdk username org
  unfolding enroll
  enroll-ok t user h =
      let o = first_admin sdk sdk.admins t in
      let (admin, _, h1) = continue-ok o.0 o.1 _ refl h in
      let t1 = set_user_context admin.0 admin.1 ∷ o.1 in
      let (_, _, h2) = continue-ok (sdk.answer o.1 (set_user_context admin.0 admin.1)) t1 _ h1 h in
      let (_, _, h3) = continue-ok (sdk.answer t1 get_authority) (get_authority ∷ t1) _ h2 h in
      let t2 = get_authority ∷ t1 in
      let (secret, gave, h4) =
        continue-ok (sdk.answer t2 (register username org)) (register username org ∷ t2) _ h3 h in
      let t3 = register username org ∷ t2 in inr (t2, t3, secret, user, gave, ap (λ x. x.0) h4 ∙ h)

  abbrev user_of : Option User → Action (Option User)
  user_of found = if is_enrolled found then pure found else enroll sdk username org

  user_of-ok :
      (before t : List Call) (found : Option User) (user : User)
      → sdk.answer before (get_user_context username) ≡ ok found
      → (user_of found t).0 ≡ ok (some user)
      → WasEnrolled sdk username org
  user_of-ok before t found user asked h = elim (Bool-cases (is_enrolled found)) [
    | inl there ↦ inl (before, found, asked, there)
    | inr missing ↦ enroll-ok t user (rw missing at h)
  ]

  -- When `getRegisteredUser` reports that the user is enrolled, the SDK had the user enrolled in
  -- its store, or else the authority registered it and the user made with the secret that the
  -- registration gave was stored.
  pub registration_succeeds :
      (secret : Option String) (text : String) (t : List Call)
      → (get_registered_user sdk username org true t).0 ≡ ok (registered secret text)
      → WasEnrolled sdk username org
  unfolding get_registered_user
  registration_succeeds secret text t h =
      let attempt : Action Registration =
        get_client_for_org sdk (some org) none
        >> (call sdk (get_user_context username) >>= λ found.
            user_of found >>= report sdk username true) in
      let e = settle-registered (attempt t).0 (attempt t).1 secret text h in
      let o = get_client_for_org sdk (some org) none t in
      let (_, _, h1) =
        continue-ok o.0 o.1
          (λ _. call sdk (get_user_context username) >>= λ found.
            user_of found >>= report sdk username true)
          refl e in
      let t1 = get_user_context username ∷ o.1 in
      let (found, asked, h2) =
        continue-ok (sdk.answer o.1 (get_user_context username)) t1
          (λ found. user_of found >>= report sdk username true) h1 e in
      let q = user_of found t1 in
      let (u, made, h3) = continue-ok q.0 q.1 (report sdk username true) h2 e in
      let (user, same) =
        report-some sdk username u q.1 (registered secret text) (ap (λ x. x.0) h3 ∙ e) in
      user_of-ok o.1 t1 found user asked (made ∙ ap ok same)
