-- ===== src/Server.antt =====
-- balance-transfer/app.js: the check of the token, and what the REST endpoints take and send.
-- The web token library and `JSON.parse` are parameters. A handler that throws sends no reply:
-- the promise of an `async` handler is dropped by the router.
pub mod Endpoints
pub mod Access
pub mod Validation
pub mod Safety
mod Tests
use Prim.Native.Char.{Char, code}
use text.Mathlib.Text.{find?}
use blockchain_tutorial.Prelude.{
  ℕ, Bool, true, false, not, ◌&&◌, Option, none, some, List, [], ◌∷◌, String, str_eq, ◌==◌,
  if◌then◌else◌,
}
use blockchain_tutorial.Js.{Exception, Outcome, pure, lift, ◌>>=◌, ◌>>◌}
use blockchain_tutorial.Fabric.{Sdk, Action}
use blockchain_tutorial.Fabric.Client.{
  Registration, registered, failed, nothing, get_registered_user,
}
use blockchain_tutorial.Fabric.Submission.{invoke_chaincode, instantiate_chaincode}
use blockchain_tutorial.Fabric.Channels.{
  create_channel, join_channel, update_anchor_peers, install_chaincode,
}
use blockchain_tutorial.Fabric.Queries
use blockchain_tutorial.Fabric.Queries.{Reply}

-- `req.username` and `req.orgname`
pub record Identity : Type 0 where
  pub username : Option String
  pub orgname : Option String

abbrev pub anonymous : Identity
anonymous = record { username = none; orgname = none }

-- `jsonwebtoken` with the secret of the application (the same for `express-jwt`), and `JSON.parse`
-- of a text that holds a list of texts.
pub record Platform : Type 0 where
  pub verify : Option String → Option Identity
  pub sign : String → String → String
  pub parse_json : String → Outcome Exception (List String)

pub data Admission : Type 0 where
  admitted : Identity → Admission
  -- the error of `express-jwt`
  unauthorized : Admission
  -- the reply that the token was not authenticated
  not_authenticated : Admission

-- `req.originalUrl.indexOf('/users') >= 0`
abbrev pub mentions_users : String → Bool
mentions_users url = elim (find? url "/users") [ none ↦ false | some _ ↦ true ]

abbrev authenticated : Option Identity → Admission
authenticated none = not_authenticated
authenticated (some i) = admitted i

abbrev pub is_present : Option Identity → Bool
is_present none = false
is_present (some _) = true

-- The two middlewares that see the token: `express-jwt` on every path but `/users`, then the
-- application's own.
pub authenticate : Platform → String → String → Option String → Admission
authenticate pf path url token =
    if not (str_eq path "/users") && not (is_present (pf.verify token))
    then unauthorized
    else if mentions_users url
    then admitted anonymous
    else authenticated (pf.verify token)

-- What an endpoint sends; `missing_field` is `getErrorMessage`.
pub data HttpReply : Type 0 where
  missing_field : String → HttpReply
  enrolled : Option String → String → String → HttpReply
  not_enrolled : Option String → HttpReply
  done : String → HttpReply
  transaction : Option String → HttpReply
  queried : Reply → HttpReply

-- A check `if (!field) { res.json(getErrorMessage(…)); return; }`, and what follows it.
abbrev pub need : Option String → String → (String → Action HttpReply) → Action HttpReply
need none field k = pure (missing_field field)
need (some v) field k = if str_eq v "" then pure (missing_field field) else k v

-- `!peers || peers.length == 0`
abbrev pub need_peers : Option (List String) → (List String → Action HttpReply) → Action HttpReply
need_peers none k = pure (missing_field "'peers'")
need_peers (some []) k = pure (missing_field "'peers'")
need_peers (some (p ∷ ps)) k = k (p ∷ ps)

-- `!args`; an empty array is true
abbrev pub need_args : Option (List String) → (List String → Action HttpReply) → Action HttpReply
need_args none k = pure (missing_field "'args'")
need_args (some as') k = k as'

-- A request at an endpoint: its path's parameters, then the fields of its body or query.
pub data Request : Type 0 where
  post_users : Option String → Option String → Request
  post_channels : Option String → Option String → Request
  post_peers : String → Option (List String) → Request
  post_anchor_peers : String → Option String → Request
  post_chaincodes :
      Option (List String) → Option String → Option String → Option String → Option String → Request
  post_instantiate :
      String
      → Option (List String)
      → Option String
      → Option String
      → Option String
      → Option String
      → Option (List String)
      → Request
  post_invoke :
      String → String → Option (List String) → Option String → Option (List String) → Request
  get_chaincode : String → String → Option String → Option String → Option String → Request
  get_block get_transaction : String → String → Option String → Request
  get_block_hash : String → Option String → Option String → Request
  get_channel get_instantiated : String → Option String → Request
  get_installed get_channels : Option String → Request
