-- ===== src/Server/Endpoints.antt =====
-- The handlers of the REST endpoints in balance-transfer/app.js.
use Prim.Native.Char.{code}
use blockchain_tutorial.Prelude.{true, false, Option, none, some, List, String, ◌==◌, if◌then◌else◌}
use blockchain_tutorial.Js.{pure, lift, ◌>>=◌}
use blockchain_tutorial.Fabric.{Sdk, Action}
use blockchain_tutorial.Fabric.Client.{
  Registration, registered, failed, nothing, get_registered_user,
}
use blockchain_tutorial.Fabric.Submission.{invoke_chaincode, instantiate_chaincode}
use blockchain_tutorial.Fabric.Channels.{
  create_channel, join_channel, update_anchor_peers, install_chaincode,
}
use blockchain_tutorial.Fabric.Queries
use blockchain_tutorial.Fabric.Queries.{Reply}
use blockchain_tutorial.Server.{
  Identity, Platform, HttpReply, enrolled, not_enrolled, done, transaction, queried, need,
  need_peers, need_args, Request, post_users, post_channels, post_peers, post_anchor_peers,
  post_chaincodes, post_instantiate, post_invoke, get_chaincode, get_block, get_transaction,
  get_block_hash, get_channel, get_instantiated, get_installed, get_channels,
}

-- `args.replace(/'/g, '"')`
unfoldable pub replace_quotes : String → String
replace_quotes String.[] = String.[]
replace_quotes (String.◌∷◌ c s) =
    let rest = replace_quotes s in if code c == 39 then String.◌∷◌ "\"" rest else String.◌∷◌ c rest

module _ (pf : Platform) (sdk : Sdk) where
  abbrev pub user_reply : String → String → Registration → Action HttpReply
  user_reply username org (registered secret message) =
      pure (enrolled secret message (pf.sign username org))
  user_reply username org (failed message) = pure (not_enrolled (some message))
  user_reply username org nothing = pure (not_enrolled none)

  abbrev pub reply_done : Action String → Action HttpReply
  reply_done m = do message ← m; pure (done message)

  abbrev pub reply_query : Action Reply → Action HttpReply
  reply_query m = do r ← m; pure (queried r)

  -- `POST /users`
  abbrev pub on_users : Option String → Option String → Action HttpReply
  on_users username org =
      need username "'username'"
        λ u. need org "'orgName'" λ o. do r ← get_registered_user sdk u o true; user_reply u o r

  -- `POST /channels`
  abbrev pub on_channels : Identity → Option String → Option String → Action HttpReply
  on_channels who channel path = need channel "'channelName'" λ c.
      need path "'channelConfigPath'"
        λ p. reply_done (create_channel sdk c p who.username who.orgname)

  -- `POST /channels/:channelName/peers`
  abbrev pub on_peers : Identity → String → Option (List String) → Action HttpReply
  on_peers who channel peers =
      need (some channel) "'channelName'"
        λ c. need_peers peers λ ps. reply_done (join_channel sdk c ps who.username who.orgname)

  -- `POST /channels/:channelName/anchorpeers`
  abbrev pub on_anchor_peers : Identity → String → Option String → Action HttpReply
  on_anchor_peers who channel path = need (some channel) "'channelName'" λ c.
      need path "'configUpdatePath'"
        λ p. reply_done (update_anchor_peers sdk c p who.username who.orgname)

  -- `POST /chaincodes`
  abbrev pub on_chaincodes :
      Identity
      → Option (List String)
      → Option String
      → Option String
      → Option String
      → Option String
      → Action HttpReply
  on_chaincodes who peers name path version type = need_peers peers λ ps.
      need name "'chaincodeName'" λ n. need path "'chaincodePath'" λ p.
        need version "'chaincodeVersion'" λ v. need type "'chaincodeType'" λ ty. reply_done (
          install_chaincode sdk
            (record {
              targets = ps;
              chaincode_id = n;
              chaincode_path = p;
              chaincode_version = v;
              chaincode_type = ty;
            })
            who.username who.orgname)

  -- `POST /channels/:channelName/chaincodes`; the arguments stand in the order in which the
  -- handler passes them
  abbrev pub on_instantiate :
      Identity
      → String
      → Option (List String)
      → Option String
      → Option String
      → Option String
      → Option String
      → Option (List String)
      → Action HttpReply
  on_instantiate who channel peers name version type fcn args = need name "'chaincodeName'" λ n.
      need version "'chaincodeVersion'" λ v. need (some channel) "'channelName'" λ c.
        need type "'chaincodeType'" λ ty. need_args args λ xs.
          reply_done
            (instantiate_chaincode sdk peers c n v (some ty) fcn xs who.username who.orgname)

  -- `POST /channels/:channelName/chaincodes/:chaincodeName`
  abbrev pub on_invoke :
      Identity
      → String
      → String
      → Option (List String)
      → Option String
      → Option (List String)
      → Action HttpReply
  on_invoke who channel name peers fcn args = need (some name) "'chaincodeName'" λ n.
      need (some channel) "'channelName'" λ c. need fcn "'fcn'" λ f. need_args args λ xs. do
        tx ← invoke_chaincode sdk peers c n f xs who.username who.orgname
        pure (transaction tx)

  -- `GET /channels/:channelName/chaincodes/:chaincodeName`
  abbrev pub on_query :
      Identity → String → String → Option String → Option String → Option String → Action HttpReply
  on_query who channel name args fcn peer = need (some name) "'chaincodeName'" λ n.
      need (some channel) "'channelName'" λ c. need fcn "'fcn'" λ f. need args "'args'" λ a. do
        xs ← lift (pf.parse_json (replace_quotes a))
        reply_query (Queries.query_chaincode sdk peer c n xs f who.username who.orgname)

  -- The handler of each endpoint; those of the other queries are written out.
  unfoldable pub handle : Identity → Request → Action HttpReply
  unfolding replace_quotes
  handle who (post_users username org) = on_users username org
  handle who (post_channels channel path) = on_channels who channel path
  handle who (post_peers channel peers) = on_peers who channel peers
  handle who (post_anchor_peers channel path) = on_anchor_peers who channel path
  handle who (post_chaincodes peers name path version type) =
      on_chaincodes who peers name path version type
  handle who (post_instantiate channel peers name version type fcn args) =
      on_instantiate who channel peers name version type fcn args
  handle who (post_invoke channel name peers fcn args) = on_invoke who channel name peers fcn args
  handle who (get_chaincode channel name args fcn peer) = on_query who channel name args fcn peer
  handle who (get_block channel id peer) =
      need (some id) "'blockId'"
        λ b. reply_query (Queries.get_block_by_number sdk peer channel b who.username who.orgname)
  handle who (get_transaction channel id peer) =
      need (some id) "'trxnId'"
        λ x. reply_query (Queries.get_transaction_by_id sdk peer channel x who.username who.orgname)
  handle who (get_block_hash channel hash peer) =
      need hash "'hash'"
        λ h. reply_query (Queries.get_block_by_hash sdk peer channel h who.username who.orgname)
  handle who (get_channel channel peer) =
      reply_query (Queries.get_chain_info sdk peer channel who.username who.orgname)
  handle who (get_instantiated channel peer) =
      reply_query
        (Queries.get_installed_chaincodes sdk peer (some channel) false who.username who.orgname)
  handle who (get_installed peer) =
      reply_query (Queries.get_installed_chaincodes sdk peer none true who.username who.orgname)
  handle who (get_channels peer) =
      need peer "'peer'"
        λ p. reply_query (Queries.get_channels sdk (some p) who.username who.orgname)
