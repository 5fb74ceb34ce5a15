-- ===== src/Fabric/Channels/Outcomes.antt =====
-- What the channel operations report, on every branch.
use Prim.Native.String.{◌++◌}
use mathlib.Core.Bool.{false≢true}
use blockchain_tutorial.Prelude.{
  ◌≡◌, ◌≢◌, ◌⊎◌, ◌↔◌, inl, inr, refl, ap, sym, ◌∙◌, true, false, Option, none, some, List, [], ◌∷◌,
  String, arith, All, eq_iff, Bool-cases,
}
use blockchain_tutorial.Js.{
  Exception, error, type_error, thrown, to_text, Outcome, ok, throw, pending, pure, is_truthy,
}
use blockchain_tutorial.Js.Trace.{continue-ok}
use blockchain_tutorial.Fabric.{
  ProposalResponse, Package, Call, install, join_channel as ask_join, new_transaction,
  get_genesis_block, Sdk,
}
use blockchain_tutorial.Fabric.Client.{get_client_for_org, open_channel}
use blockchain_tutorial.Fabric.Endorsement.{is_good, check_installed, IsGood}
use blockchain_tutorial.Fabric.Submission.Ordered.{prefix-ne-empty, is_truthy-text}
use blockchain_tutorial.Fabric.Submission.Confirmed.{thrown_empty}
use blockchain_tutorial.Fabric.Channels.{
  join_error, try_join, join_channel, try_install, install_chaincode, to_message, answer,
}

-- The loop over the peers' results.
abbrev join_prefix : String
join_prefix = "Failed to join peer to the channel "

join_message : (channel : String) → is_truthy (some (join_prefix ++ channel)) ≡ true
join_message channel =
    is_truthy-text _ (prefix-ne-empty join_prefix channel (ground (arith, eq_iff join_prefix "")))

join_error_stays :
    (channel : String) (m : Option String) (rs : List ProposalResponse)
    → is_truthy m ≡ true
    → is_truthy (join_error channel m rs) ≡ true
unfolding join_error
join_error_stays channel m [] h = h
join_error_stays channel m (r ∷ rs) h = elim (Bool-cases (is_good r)) [
  | inl good ↦ rw good (join_error_stays channel m rs h)
  | inr bad ↦
      rw bad (join_error_stays channel (some (join_prefix ++ channel)) rs (join_message channel))
]

join_error-sound :
    (channel : String) (rs : List ProposalResponse)
    → is_truthy (join_error channel none rs) ≡ false
    → All IsGood rs
unfolding join_error
join_error-sound channel [] h = tt
join_error-sound channel (r ∷ rs) h = elim (Bool-cases (is_good r)) [
  | inl good ↦ (good, join_error-sound channel rs (rw good at h))
  | inr bad ↦
      let h' = rw bad at h in
      absurd (
        false≢true (
          sym h'
          ∙ join_error_stays channel (some (join_prefix ++ channel)) rs (join_message channel)))
]

join_error-none :
    (channel : String) (rs : List ProposalResponse)
    → All IsGood rs
    → join_error channel none rs ≡ none
unfolding join_error
join_error-none channel [] h = refl
join_error-none channel (r ∷ rs) h = rw h.0 (join_error-none channel rs h.1)

-- `joinChannel` finds no error message exactly when every peer answered with status 200; an empty
-- list of answers counts as success.
join_error_iff :
    (channel : String) (rs : List ProposalResponse)
    → (is_truthy (join_error channel none rs) ≡ false) ↔ All IsGood rs
join_error_iff channel rs =
    (join_error-sound channel rs, λ h. ap is_truthy (join_error-none channel rs h))

-- A bad response among those to an installation.
abbrev pub HasBad : List ProposalResponse → Type 0
HasBad [] = ⊥
HasBad (r ∷ rs) = (is_good r ≡ false) ⊎ HasBad rs

check_installed-bad :
    (rs : List ProposalResponse) (t : List Call)
    → HasBad rs
    → check_installed rs t ≡ (throw (type_error "proposalResponses.toJSON is not a function"), t)
unfolding check_installed
check_installed-bad [] t h = absurd h
check_installed-bad (r ∷ rs) t (inl bad) = rw bad
check_installed-bad (r ∷ rs) t (inr later) = elim (Bool-cases (is_good r)) [
  | inl good ↦ rw good (check_installed-bad rs t later)
  | inr bad ↦ rw bad
]

type_error-ne : ◌≢◌ {A = String} "TypeError: proposalResponses.toJSON is not a function" ""
type_error-ne = ground (arith, eq_iff "TypeError: proposalResponses.toJSON is not a function" "")

module _ (sdk : Sdk) (bundle : Package) (username org : Option String) (t : List Call) where
  -- When the client is set up and the SDK answers the installation with a response that is bad,
  -- the error that `installChaincode` throws is of its own log call, and not the declared one.
  pub install_bad_response :
      (path : String) (u : List Call) (rs : List ProposalResponse)
      → sdk.setting "CC_SRC_PATH" ≡ some path
      → get_client_for_org sdk org username t ≡ (ok tt, u)
      → sdk.answer u (install bundle) ≡ ok (some rs)
      → HasBad rs
      → (install_chaincode sdk bundle username org t).0
        ≡ throw (
            error (
              "Failed to install due to:"
              ++ ("TypeError: " ++ "proposalResponses.toJSON is not a function")))
  unfolding install_chaincode try_install to_text
  install_bad_response path u rs es ec ea bad = ground (
    arith,
    check_installed-bad rs (install bundle ∷ u) bad,
    is_truthy-text "TypeError: proposalResponses.toJSON is not a function" (type_error-ne),
  )

answer-ok :
    (success prefix : String) (m : Option String) (t t' : List Call) {s : String}
    → answer success prefix m t ≡ (ok s, t')
    → is_truthy m ≡ false
answer-ok success prefix m t t' h = elim (Bool-cases (is_truthy m)) [
  | inl truthy ↦ let h' = rw truthy at h in cc
  | inr falsy ↦ falsy
]

caught-ok :
    (o : Outcome Exception (Option String)) (u t' : List Call) (m : Option String)
    → to_message (λ _. (o, u)) [] ≡ (ok m, t')
    → is_truthy m ≡ false
    → (o ≡ ok m) ⊎ (o ≡ throw (thrown ""))
caught-ok (ok x) u t' m h falsy = inl cc
caught-ok (throw e) u t' m h falsy =
    let shown_error : m ≡ some (to_text e) = cc in
    inr (ap throw (thrown_empty e (rw shown_error at falsy)))
caught-ok pending u t' m h falsy = cc

pure-ok :
    {m m' : Option String} (t t' : List Call)
    → ◌≡◌ {A = Outcome Exception (Option String) × List Call} (ok m, t) (ok m', t')
    → m ≡ m'
pure-ok t t' h = cc

module _ (sdk : Sdk) (channel : String) (peers : List String) (username org : Option String) where
  -- The SDK was asked to join the peers, and each of its answers is good.
  abbrev pub AllJoined : Type 0
  AllJoined =
      (tx block : String) × (u : List Call) × (rs : List ProposalResponse) × (sdk.answer u
          (ask_join peers tx block)
        ≡ ok rs)
      × All IsGood rs

  try_join-ok :
      (m : Option String) (t u : List Call)
      → try_join sdk channel peers username org t ≡ (ok m, u)
      → is_truthy m ≡ false
      → AllJoined
  unfolding try_join
  try_join-ok m t u h falsy =
      let o = open_channel sdk org username (some channel) t in
      let (a, ea, h2) = continue-ok o.0 o.1 _ h refl in
      let t1 = new_transaction true ∷ o.1 in
      let (tx, etx, h3) = continue-ok (sdk.answer o.1 (new_transaction true)) t1 _ h2 refl in
      let t2 = get_genesis_block tx ∷ t1 in
      let (block, eb, h4) = continue-ok (sdk.answer t1 (get_genesis_block tx)) t2 _ h3 refl in
      let t3 = new_transaction true ∷ t2 in
      let (tx', etx', h5) = continue-ok (sdk.answer t2 (new_transaction true)) t3 _ h4 refl in
      let asked = ask_join peers tx' block in
      let (rs, er, h6) =
        continue-ok (sdk.answer t3 asked) (asked ∷ t3) (λ rs. pure (join_error channel none rs)) h5
          refl in
      let same = pure-ok (asked ∷ t3) u h6 in
      (tx', block, t3, rs, er, (join_error_iff channel rs).0 (ap is_truthy same ∙ falsy))

  -- When `joinChannel` reports success, the SDK was asked to join the given peers, and each of
  -- its answers has the status 200; or else the attempt threw a value whose text is empty.
  pub join_succeeds :
      (s : String) (t t' : List Call)
      → join_channel sdk channel peers username org t ≡ (ok s, t')
      → AllJoined ⊎ ((try_join sdk channel peers username org t).0 ≡ throw (thrown ""))
  unfolding join_channel
  join_succeeds s t t' h =
      let r = try_join sdk channel peers username org t in
      let c = to_message (try_join sdk channel peers username org) t in
      let (m, em, h1) =
        continue-ok c.0 c.1 (answer _ "Failed to join all peers to channel. cause:") h refl in
      let falsy = answer-ok _ _ m c.1 t' h1 in
      elim (caught-ok r.0 r.1 c.1 m (λ i. (em i, c.1)) falsy) [
        | inr empty ↦ inr empty
        | inl e ↦ inl (try_join-ok m t r.1 (λ i. (e i, r.1)) falsy)
      ]
