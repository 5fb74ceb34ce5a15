-- ===== src/Server/Validation.antt =====
-- The checks of a request's fields, and what a handler passes on.
use blockchain_tutorial.Prelude.{
  ◌≡◌, ◌≢◌, Bool-cases, inl, inr, refl, true, Option, none, some, List, [], ◌∷◌, String, str_eq,
}
use blockchain_tutorial.Js.{Outcome, Exception, ok, throw, pending, pure, lift, ◌>>=◌}
use blockchain_tutorial.Js.Trace.{continue-ok}
use blockchain_tutorial.Fabric.{Call, Sdk, Action}
use blockchain_tutorial.Fabric.Client.{
  Registration, registered, failed, nothing, get_registered_user,
}
use blockchain_tutorial.Fabric.Queries.{Reply}
use blockchain_tutorial.Server.{
  Identity, Platform, HttpReply, missing_field, done, transaction, queried, need, need_peers,
  need_args, Request, post_users, post_channels, post_peers, post_anchor_peers, post_chaincodes,
  post_instantiate, post_invoke, get_chaincode, get_block, get_transaction, get_block_hash,
  get_channel, get_instantiated, get_installed, get_channels,
}
use blockchain_tutorial.Server.Endpoints.{handle, user_reply}

-- Where the reply is that a field is missing, nothing was asked of the SDK.
record IsIdle (m : Action HttpReply) : Type 0 where
  idle : (field : String) (t t' : List Call) → m t ≡ (ok (missing_field field), t') → t' ≡ t

IsIdle-pure : (r : HttpReply) → IsIdle (pure r)
IsIdle-pure r = record { idle = λ field t t' h. cc }

need-IsIdle :
    (o : Option String) (field : String) (k : String → Action HttpReply)
    → ((v : String) → IsIdle (k v))
    → IsIdle (need o field k)
need-IsIdle none field k h = IsIdle-pure _
need-IsIdle (some v) field k h = elim (Bool-cases (str_eq v "")) [
  | inl empty ↦ rw empty (IsIdle-pure (missing_field field))
  | inr filled ↦ rw filled (h v)
]

need_peers-IsIdle :
    (o : Option (List String)) (k : List String → Action HttpReply)
    → ((ps : List String) → IsIdle (k ps))
    → IsIdle (need_peers o k)
need_peers-IsIdle none k h = IsIdle-pure _
need_peers-IsIdle (some []) k h = IsIdle-pure _
need_peers-IsIdle (some (p ∷ ps)) k h = h (p ∷ ps)

need_args-IsIdle :
    (o : Option (List String)) (k : List String → Action HttpReply)
    → ((ps : List String) → IsIdle (k ps))
    → IsIdle (need_args o k)
need_args-IsIdle none k h = IsIdle-pure _
need_args-IsIdle (some ps) k h = h ps

-- A reply that is made of a result is never of a missing field.
bind-IsIdle :
    {A : Type 0} (m : Action A) (f : A → Action HttpReply)
    → ((a : A) (field : String) (t t' : List Call) → f a t ≢ (ok (missing_field field), t'))
    → IsIdle (m >>= f)
bind-IsIdle m f h = record {
  idle = λ field t t' e.
      let (a, _, h1) = continue-ok (m t).0 (m t).1 f e refl in absurd (h a field (m t).1 t' h1);
}

done-IsIdle : (m : Action String) → IsIdle (m >>= λ a. pure (done a))
done-IsIdle m = bind-IsIdle m _ (λ a field t t' h. cc)

queried-IsIdle : (m : Action Reply) → IsIdle (m >>= λ a. pure (queried a))
queried-IsIdle m = bind-IsIdle m _ (λ a field t t' h. cc)

transaction-IsIdle : (m : Action (Option String)) → IsIdle (m >>= λ a. pure (transaction a))
transaction-IsIdle m = bind-IsIdle m _ (λ a field t t' h. cc)

user_reply-other :
    (pf : Platform) (sdk : Sdk) (username org : String) (r : Registration) (field : String)
    (t t' : List Call)
    → user_reply pf sdk username org r t ≢ (ok (missing_field field), t')
user_reply-other pf sdk username org (registered secret message) field t t' h = cc
user_reply-other pf sdk username org (failed message) field t t' h = cc
user_reply-other pf sdk username org nothing field t t' h = cc

user_reply-IsIdle :
    (pf : Platform) (sdk : Sdk) (username org : String) (m : Action Registration)
    → IsIdle (m >>= λ r. user_reply pf sdk username org r)
user_reply-IsIdle pf sdk username org m = bind-IsIdle m _ (user_reply-other pf sdk username org)

-- A pure step before the request.
lift-IsIdle :
    {A : Type 0} (o : Outcome Exception A) (f : A → Action HttpReply)
    → ((a : A) → IsIdle (f a))
    → IsIdle (lift o >>= f)
lift-IsIdle (ok a) f h = h a
lift-IsIdle (throw e) f h = record { idle = λ field t t' x. cc }
lift-IsIdle pending f h = record { idle = λ field t t' x. cc }

ruleset idle_rules = (
  need-IsIdle, need_peers-IsIdle, need_args-IsIdle, done-IsIdle, queried-IsIdle, transaction-IsIdle,
  lift-IsIdle,
)

module _ (pf : Platform) (sdk : Sdk) where
  handle-IsIdle : (who : Identity) (q : Request) → IsIdle (handle pf sdk who q)
  unfolding handle
  handle-IsIdle who (post_users username org) =
      need-IsIdle username _ _ λ u.
        need-IsIdle org _ _ λ o. user_reply-IsIdle pf sdk u o (get_registered_user sdk u o true)
  handle-IsIdle who (post_channels channel path) = search idle_rules depth 12
  handle-IsIdle who (post_peers channel peers) = search idle_rules depth 12
  handle-IsIdle who (post_anchor_peers channel path) = search idle_rules depth 12
  handle-IsIdle who (post_chaincodes peers name path version type) = search idle_rules depth 14
  handle-IsIdle who (post_instantiate channel peers name version type fcn args) =
      search idle_rules depth 14
  handle-IsIdle who (post_invoke channel name peers fcn args) = search idle_rules depth 14
  handle-IsIdle who (get_chaincode channel name args fcn peer) = search idle_rules depth 14
  handle-IsIdle who (get_block channel id peer) = search idle_rules depth 12
  handle-IsIdle who (get_transaction channel id peer) = search idle_rules depth 12
  handle-IsIdle who (get_block_hash channel hash peer) = search idle_rules depth 12
  handle-IsIdle who (get_channel channel peer) = search idle_rules depth 12
  handle-IsIdle who (get_instantiated channel peer) = search idle_rules depth 12
  handle-IsIdle who (get_installed peer) = search idle_rules depth 12
  handle-IsIdle who (get_channels peer) = search idle_rules depth 12

  -- At every endpoint, a reply that a field is missing is sent before anything is asked of the
  -- SDK.
  pub missing_field_asks_nothing :
      (who : Identity) (q : Request) (field : String) (t t' : List Call)
      → handle pf sdk who q t ≡ (ok (missing_field field), t')
      → t' ≡ t
  missing_field_asks_nothing who q = (handle-IsIdle who q).idle
