-- ===== src/Fabric/Channels.antt =====
-- balance-transfer/app/create-channel.js, join-channel.js, update-anchor-peers.js and
-- install-chaincode.js.
pub mod Outcomes
pub mod Rules
pub mod Created
use blockchain_tutorial.Prelude.{
  Bool, true, false, not, Option, none, some, List, [], ◌∷◌, String, str_eq, if◌then◌else◌,
}
use Prim.Native.String.{◌++◌}
use blockchain_tutorial.Js.{
  error, type_error, to_text, pure, raise, lift, catch, ◌>>=◌, ◌>>◌, is_truthy,
}
use blockchain_tutorial.Fabric.{
  ProposalResponse, Sdk, Action, call, new_transaction, get_genesis_block, join_channel as ask_join,
  install, get_hubs, update_channel, create_channel as ask_create, read_file, extract_config,
  sign_config, await_all, ConfigRequest, Package,
}
use blockchain_tutorial.Fabric.Client.{shown, get_client_for_org, open_channel}
use blockchain_tutorial.Fabric.Endorsement.{is_good, all_good, responses, check_installed}
use blockchain_tutorial.Fabric.Hubs.{block_listener, wait, started}
use blockchain_tutorial.Fabric.Submission.{order_status}

-- `response && response.status === 'SUCCESS'`
abbrev pub is_success : Option String → Bool
is_success none = false
is_success (some s) = str_eq s "SUCCESS"

-- `error_message = error.toString()`
abbrev pub to_message : Action (Option String) → Action (Option String)
to_message m = catch m (λ e. pure (some (to_text e)))

-- The end of each operation: a text on success, or else a new error.
abbrev pub answer : String → String → Option String → Action String
answer success prefix message =
    if not (is_truthy message) then pure success else raise (error (prefix ++ shown message))

-- The loop over the peers' results: the message of the last failure stays.
unfoldable pub join_error : String → Option String → List ProposalResponse → Option String
join_error channel message [] = message
join_error channel message (r ∷ rs) =
    join_error channel
      (if is_good r then message else some ("Failed to join peer to the channel " ++ channel)) rs

module _ (sdk : Sdk) where
  -- The signed request that changes a channel's configuration.
  unfoldable pub config_request : String → String → Action ConfigRequest
  config_request channel path = do
    envelope ← call sdk (read_file path)
    config ← call sdk (extract_config envelope)
    signature ← call sdk (sign_config config)
    tx ← call sdk (new_transaction true)
    pure (record { config = config; signatures = signature ∷ []; name = channel; tx_id = tx })

  -- `createChannel`; the user's name is not used
  unfoldable pub create_channel : String → String → Option String → Option String → Action String
  create_channel channel path username org =
      catch
        (do
          get_client_for_org sdk org none
          request ← config_request channel path
          status ← call sdk (ask_create request)
          if is_success status
              then pure ("Channel '" ++ channel ++ "' created Successfully")
              else raise (error ("Failed to create the channel '" ++ channel ++ "'")))
        (λ e. raise (error ("Failed to initialize the channel: " ++ to_text e)))

  -- `joinChannel`; the promise that waits ten seconds always settles
  unfoldable pub try_join :
      String → List String → Option String → Option String → Action (Option String)
  try_join channel peers username org = do
    open_channel sdk org username (some channel)
    tx ← call sdk (new_transaction true)
    block ← call sdk (get_genesis_block tx)
    tx' ← call sdk (new_transaction true)
    results ← call sdk (ask_join peers tx' block)
    pure (join_error channel none results)

  unfoldable pub join_channel : String → List String → Option String → Option String → Action String
  unfolding try_join
  join_channel channel peers username org = do
    message ← to_message (try_join channel peers username org)
    answer
        ("Successfully joined peers in organization " ++ shown org ++ " to the channel:" ++ channel)
        "Failed to join all peers to channel. cause:" message

  -- `updateAnchorPeers`
  unfoldable pub try_update :
      String → String → Option String → Option String → Action (Option String)
  try_update channel path username org = do
    open_channel sdk org username (some channel)
    request ← config_request channel path
    addresses ← call sdk get_hubs
    call sdk (update_channel request)
    occurrences ← call sdk await_all
    results ← lift (wait block_listener occurrences (started addresses))
    pure (
        if is_success (order_status results.order)
        then none
        else some ("Failed to update anchor peers to the channel " ++ channel))

  unfoldable pub update_anchor_peers :
      String → String → Option String → Option String → Action String
  unfolding try_update
  update_anchor_peers channel path username org = do
    message ← to_message (try_update channel path username org)
    answer
        ("Successfully update anchor peers in organization "
          ++ shown org
          ++ " to the channel '"
          ++ channel
          ++ "'")
        "Failed to update anchor peers. cause:" message

  -- `setupChaincodeDeploy`: `path.join` throws where the setting is missing
  abbrev setup_deploy : Option String → Action Unit
  setup_deploy none = raise (type_error "Path must be a string. Received undefined")
  setup_deploy (some _) = pure tt

  -- `installChaincode`
  unfoldable pub try_install : Package → Option String → Option String → Action (Option String)
  try_install bundle username org = do
    get_client_for_org sdk org username
    found ← call sdk (install bundle)
    check_installed (responses found)
    pure (
        if all_good found
        then none
        else some
            "Failed to send install Proposal or receive valid response. Response null or status is not 200")

  unfoldable pub install_chaincode : Package → Option String → Option String → Action String
  unfolding try_install
  install_chaincode bundle username org = do
    setup_deploy (sdk.setting "CC_SRC_PATH")
    message ← to_message (try_install bundle username org)
    answer "Successfully installed chaincode" "Failed to install due to:" message
