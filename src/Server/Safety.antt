-- ===== src/Server/Safety.antt =====
-- What a request can make the SDK be asked.
use blockchain_tutorial.Prelude.{
  ◌≡◌, ◌∙◌, sym, refl, true, false, Option, none, some, List, [], ◌∷◌, String, All, Bool-cases, inl,
  inr, str_eq, if◌then◌else◌,
}
use blockchain_tutorial.Js.{pure, ◌>>=◌, is_truthy}
use blockchain_tutorial.Js.Trace.{Keeps, Keeps-pure, Keeps-bind, Keeps-lift}
use blockchain_tutorial.Fabric.{Call, send_instantiate, Sdk, Action}
use blockchain_tutorial.Fabric.Client.{
  Registration, registered, failed, nothing, get_registered_user,
}
use blockchain_tutorial.Fabric.Calls.{IsQuiet}
use blockchain_tutorial.Fabric.Submission.Rules.{instantiate_chaincode-Keeps}
use blockchain_tutorial.Fabric.Submission.Safety.{
  IsEndorsed, invoke_chaincode-Endorsed, instantiate_chaincode-Endorsed, OnlyEndorsed,
  quiet-IsEndorsed,
}
use blockchain_tutorial.Fabric.Channels.Rules.{
  create_channel-Keeps, join_channel-Keeps, update_anchor_peers-Keeps, install_chaincode-Keeps,
  get_registered_user-Keeps,
}
use blockchain_tutorial.Fabric.Queries.Rules.{
  query_chaincode-Keeps, get_block_by_number-Keeps, get_transaction_by_id-Keeps,
  get_block_by_hash-Keeps, get_chain_info-Keeps, get_installed_chaincodes-Keeps, get_channels-Keeps,
}
use blockchain_tutorial.Server.{
  Identity, Platform, HttpReply, missing_field, done, need, need_peers, need_args, Request,
  post_users, post_channels, post_peers, post_anchor_peers, post_chaincodes, post_instantiate,
  post_invoke, get_chaincode, get_block, get_transaction, get_block_hash, get_channel,
  get_instantiated, get_installed, get_channels,
}
use blockchain_tutorial.Server.Endpoints.{handle, user_reply}

module _ (P : Call → Type 0) where
  -- What follows a check may use that the field is there.
  Keeps-filled :
      (o : Option String) (field : String) (k : String → Action HttpReply)
      → ((v : String) → o ≡ some v → str_eq v "" ≡ false → Keeps (All P) (k v))
      → Keeps (All P) (need o field k)
  Keeps-filled none field k h = Keeps-pure (missing_field field)
  Keeps-filled (some v) field k h = elim (Bool-cases (str_eq v "")) [
    | inl empty ↦ rw empty (Keeps-pure (missing_field field))
    | inr filled ↦ rw filled (h v refl filled)
  ]

  Keeps-need :
      (o : Option String) (field : String) (k : String → Action HttpReply)
      → ((v : String) → Keeps (All P) (k v))
      → Keeps (All P) (need o field k)
  Keeps-need o field k h = Keeps-filled o field k (λ v _ _. h v)

  Keeps-need_peers :
      (o : Option (List String)) (k : List String → Action HttpReply)
      → ((ps : List String) → Keeps (All P) (k ps))
      → Keeps (All P) (need_peers o k)
  Keeps-need_peers none k h = Keeps-pure _
  Keeps-need_peers (some []) k h = Keeps-pure _
  Keeps-need_peers (some (p ∷ ps)) k h = h (p ∷ ps)

  Keeps-need_args :
      (o : Option (List String)) (k : List String → Action HttpReply)
      → ((ps : List String) → Keeps (All P) (k ps))
      → Keeps (All P) (need_args o k)
  Keeps-need_args none k h = Keeps-pure _
  Keeps-need_args (some ps) k h = h ps

  Keeps-reply :
      {A : Type 0} (m : Action A) (f : A → HttpReply)
      → Keeps (All P) m
      → Keeps (All P) (m >>= λ a. pure (f a))
  Keeps-reply m f h = Keeps-bind m _ h (λ a. Keeps-pure (f a))

  user_reply-Keeps :
      (pf : Platform) (sdk : Sdk) (username org : String) (r : Registration)
      → Keeps (All P) (user_reply pf sdk username org r)
  user_reply-Keeps pf sdk username org (registered secret message) = Keeps-pure _
  user_reply-Keeps pf sdk username org (failed message) = Keeps-pure _
  user_reply-Keeps pf sdk username org nothing = Keeps-pure _

ruleset field_rules = (Keeps-need, Keeps-need_peers, Keeps-need_args, Keeps-reply)

module _ (pf : Platform) (sdk : Sdk) where
  handle-Keeps : (who : Identity) (q : Request) → Keeps OnlyEndorsed (handle pf sdk who q)
  unfolding handle
  handle-Keeps who (post_users username org) = Keeps-need IsEndorsed username "'username'" _ λ u.
      Keeps-need IsEndorsed org "'orgName'" _ λ o.
        Keeps-bind (get_registered_user sdk u o true) _
          (get_registered_user-Keeps sdk IsEndorsed quiet-IsEndorsed u o true)
          (user_reply-Keeps IsEndorsed pf sdk u o)
  handle-Keeps who (post_channels channel path) =
      search (field_rules, create_channel-Keeps sdk IsEndorsed quiet-IsEndorsed) depth 12
  handle-Keeps who (post_peers channel peers) =
      search (field_rules, join_channel-Keeps sdk IsEndorsed quiet-IsEndorsed) depth 12
  handle-Keeps who (post_anchor_peers channel path) =
      search (field_rules, update_anchor_peers-Keeps sdk IsEndorsed quiet-IsEndorsed) depth 12
  handle-Keeps who (post_chaincodes peers name path version type) =
      search (field_rules, install_chaincode-Keeps sdk IsEndorsed quiet-IsEndorsed, tt) depth 14
  handle-Keeps who (post_instantiate channel peers name version type fcn args) =
      search (field_rules, instantiate_chaincode-Endorsed) depth 14
  handle-Keeps who (post_invoke channel name peers fcn args) =
      search (field_rules, invoke_chaincode-Endorsed) depth 14
  handle-Keeps who (get_chaincode channel name args fcn peer) =
      search
        (field_rules, Keeps-bind, Keeps-lift, query_chaincode-Keeps sdk IsEndorsed quiet-IsEndorsed)
        depth 14
  handle-Keeps who (get_block channel id peer) =
      search (field_rules, get_block_by_number-Keeps sdk IsEndorsed quiet-IsEndorsed, tt) depth 12
  handle-Keeps who (get_transaction channel id peer) =
      search (field_rules, get_transaction_by_id-Keeps sdk IsEndorsed quiet-IsEndorsed) depth 12
  handle-Keeps who (get_block_hash channel hash peer) =
      search (field_rules, get_block_by_hash-Keeps sdk IsEndorsed quiet-IsEndorsed) depth 12
  handle-Keeps who (get_channel channel peer) =
      search (field_rules, get_chain_info-Keeps sdk IsEndorsed quiet-IsEndorsed) depth 12
  handle-Keeps who (get_instantiated channel peer) =
      search (field_rules, get_installed_chaincodes-Keeps sdk IsEndorsed quiet-IsEndorsed) depth 12
  handle-Keeps who (get_installed peer) =
      search (field_rules, get_installed_chaincodes-Keeps sdk IsEndorsed quiet-IsEndorsed) depth 12
  handle-Keeps who (get_channels peer) =
      search (field_rules, get_channels-Keeps sdk IsEndorsed quiet-IsEndorsed) depth 12

  -- Whatever is requested, by whomever, and whatever the SDK answers, every transaction of a
  -- chaincode that the handler sends to the orderer by `sendTransaction` goes with the answers of
  -- endorsers, at least one and all with the status 200, where this held for the calls before. The
  -- configuration transactions by which channels are created and updated are not among them: they
  -- are signed, not endorsed.
  pub handle-OnlyEndorsed :
      (who : Identity) (q : Request) (t : List Call)
      → OnlyEndorsed t
      → OnlyEndorsed (handle pf sdk who q t).1
  handle-OnlyEndorsed who q = (handle-Keeps who q).at

-- A proposal to instantiate calls the function `type`, and names the chaincode's type `fcn`.
abbrev pub IsSwapped : Option String → Option String → Call → Type 0
IsSwapped type fcn (send_instantiate r) = (r.fcn ≡ type) × (r.chaincode_type ≡ fcn)
IsSwapped type fcn _ = Unit

quiet-IsSwapped : (type fcn : Option String) (c : Call) → IsQuiet c → IsSwapped type fcn c
quiet-IsSwapped type fcn (send_instantiate r) h = absurd h
quiet-IsSwapped type fcn _ h = tt

some_truthy :
    (ty : String) → str_eq ty "" ≡ false → (if is_truthy (some ty) then some ty else none) ≡ some ty
some_truthy ty h = rw h refl

module _ (pf : Platform) (sdk : Sdk) where
  -- In every proposal that the endpoint for instantiation sends, the function to call is the
  -- chaincode's type of the request, and the chaincode's type is the function of the request;
  -- the calls before are taken to be so as well.
  pub instantiate_swaps :
      (who : Identity) (channel : String) (peers : Option (List String))
      (name version type fcn : Option String) (args : Option (List String)) (t : List Call)
      → All (IsSwapped type fcn) t
      → All
          (IsSwapped type fcn)
          (handle pf sdk who (post_instantiate channel peers name version type fcn args) t).1
  unfolding handle
  instantiate_swaps who channel peers name version type fcn args t h =
      let P = IsSwapped type fcn in
      (Keeps-need P name "'chaincodeName'" _ λ n. Keeps-need P version "'chaincodeVersion'" _ λ v.
          Keeps-need P (some channel) "'channelName'" _ λ c.
            Keeps-filled P type "'chaincodeType'" _ λ ty e filled. Keeps-need_args P args _ λ xs.
              Keeps-reply P _ done (
                instantiate_chaincode-Keeps sdk P (quiet-IsSwapped type fcn) (λ tx rs g ne. tt)
                  peers c n xs who.username who.orgname v (some ty) fcn
                  (λ tx. (some_truthy ty filled ∙ sym e, refl)))).at
        t h
