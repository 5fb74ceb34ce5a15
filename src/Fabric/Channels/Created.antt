-- ===== src/Fabric/Channels/Created.antt =====
-- What has happened when a channel is created, and what its errors are.
use blockchain_tutorial.Prelude.{
  ◌≡◌, inl, inr, refl, ap, sym, ◌∙◌, true, Option, none, some, List, ◌∷◌, String, arith, Bool-cases,
  eq_iff, if◌then◌else◌,
}
use Prim.Native.String.{◌++◌}
use blockchain_tutorial.Js.{
  Exception, error, Outcome, ok, throw, pending, settle, pure, raise, to_text, ◌>>=◌, ◌>>◌,
}
use blockchain_tutorial.Js.Trace.{continue-ok}
use blockchain_tutorial.Fabric.{
  ConfigRequest, Call, read_file, extract_config, sign_config, new_transaction,
  create_channel as ask_create, Sdk, Action, call,
}
use blockchain_tutorial.Fabric.Client.{get_client_for_org}
use blockchain_tutorial.Fabric.Channels.{is_success, config_request, create_channel}

success_text : (status : Option String) → is_success status ≡ true → status ≡ some "SUCCESS"
success_text none h = cc
success_text (some s) h = ground (arith, eq_iff s "SUCCESS")

-- A request for the channel that the SDK was asked to create, and its answer.
abbrev pub WasCreated : Sdk → String → Type 0
WasCreated sdk channel =
    (r : ConfigRequest) × (u : List Call) × (r.name ≡ channel)
    × (sdk.answer u (ask_create r) ≡ ok (some "SUCCESS"))

abbrev told : String → Option String → Action String
told channel status =
    if is_success status
    then pure ("Channel '" ++ channel ++ "' created Successfully")
    else raise (error ("Failed to create the channel '" ++ channel ++ "'"))

told-ok :
    (channel : String) (status : Option String) (t : List Call) (s : String)
    → (told channel status t).0 ≡ ok s
    → is_success status ≡ true
told-ok channel status t s h = elim (Bool-cases (is_success status)) [
  | inl success ↦ success
  | inr other ↦ let h' = rw other at h in cc
]

same_value : {a b : ConfigRequest} → ◌≡◌ {A = Outcome Exception ConfigRequest} (ok a) (ok b) → a ≡ b
same_value h = cc

config_request-name :
    (sdk : Sdk) (channel path : String) (t : List Call) (r : ConfigRequest)
    → (config_request sdk channel path t).0 ≡ ok r
    → r.name ≡ channel
unfolding config_request
config_request-name sdk channel path t r h =
    let (envelope, _, h1) =
      continue-ok (sdk.answer t (read_file path)) (read_file path ∷ t) _ refl h in
    let t1 = read_file path ∷ t in
    let (config, _, h2) =
      continue-ok (sdk.answer t1 (extract_config envelope)) (extract_config envelope ∷ t1) _ h1 h in
    let t2 = extract_config envelope ∷ t1 in
    let (signature, _, h3) =
      continue-ok (sdk.answer t2 (sign_config config)) (sign_config config ∷ t2) _ h2 h in
    let t3 = sign_config config ∷ t2 in
    let (tx, _, h4) =
      continue-ok (sdk.answer t3 (new_transaction true)) (new_transaction true ∷ t3) _ h3 h in
    sym (ap (λ (x : ConfigRequest). x.name) (same_value (ap (λ x. x.0) h4 ∙ h)))

settle-error :
    (o : Outcome Exception String) (t : List Call)
    → ((e : Exception)
        → ((settle o t
              (λ e' u. (throw (error ("Failed to initialize the channel: " ++ to_text e')), u))).0
            ≡ throw e)
        → (m : String) × (e ≡ error ("Failed to initialize the channel: " ++ m)))
      × ((s : String)
          → (settle o t
              (λ e' u. (throw (error ("Failed to initialize the channel: " ++ to_text e')), u))).0
            ≡ ok s
          → o ≡ ok s)
settle-error (ok a) t = (λ e h. cc, λ s h. h)
settle-error (throw x) t = (λ e h. (to_text x, cc), λ s h. cc)
settle-error pending t = (λ e h. cc, λ s h. cc)

module _ (sdk : Sdk) (channel path : String) (username org : Option String) where
  attempt-ok :
      (s : String) (t : List Call)
      → ((get_client_for_org sdk org none
            >> (config_request sdk channel path >>= λ r. call sdk (ask_create r) >>= told channel))
          t).0
        ≡ ok s
      → WasCreated sdk channel
  attempt-ok s t h =
      let o = get_client_for_org sdk org none t in
      let (_, _, h1) =
        continue-ok o.0 o.1
          (λ _. config_request sdk channel path >>= λ r. call sdk (ask_create r) >>= told channel)
          refl h in
      let q = config_request sdk channel path o.1 in
      let (r, made, h2) =
        continue-ok q.0 q.1 (λ r. call sdk (ask_create r) >>= told channel) h1 h in
      let (status, asked, h3) =
        continue-ok (sdk.answer q.1 (ask_create r)) (ask_create r ∷ q.1) (told channel) h2 h in
      let said = told-ok channel status (ask_create r ∷ q.1) s (ap (λ x. x.0) h3 ∙ h) in
      (
        r,
        q.1,
        config_request-name sdk channel path o.1 r made,
        asked ∙ ap ok (success_text status said),
      )

  -- When `createChannel` succeeds, the SDK was asked to create the channel of that name and
  -- answered with the status SUCCESS; and every error that it throws is of the declared form.
  pub create_succeeds :
      (t : List Call)
      → ((s : String)
          → (create_channel sdk channel path username org t).0 ≡ ok s
          → WasCreated sdk channel)
        × ((e : Exception)
            → (create_channel sdk channel path username org t).0 ≡ throw e
            → (m : String) × (e ≡ error ("Failed to initialize the channel: " ++ m)))
  unfolding create_channel
  create_succeeds t =
      let attempt : Action String =
        (get_client_for_org sdk org none
          >> (config_request sdk channel path >>= λ r. call sdk (ask_create r) >>= told channel)) in
      let caught = settle-error (attempt t).0 (attempt t).1 in
      (λ s h. attempt-ok s t (caught.1 s h), caught.0)
