-- ===== src/Fabric/Queries.antt =====
-- balance-transfer/app/query.js: every function answers its errors by their text.
pub mod Peers
pub mod Rules
use blockchain_tutorial.Prelude.{
  Bool, true, false, Option, none, some, List, [], ◌∷◌, String, map, if◌then◌else◌,
}
use Prim.Native.String.{◌++◌}
use blockchain_tutorial.Js.{type_error, to_text, pure, raise, catch, ◌>>=◌, ◌>>◌}
use blockchain_tutorial.Js.Decimal.{radix_of}
use blockchain_tutorial.Js.Number.{codes, parse_int_radix}
use blockchain_tutorial.Fabric.{
  ChaincodeInfo, Sdk, Action, call, query_chaincode as ask_chaincode, query_block,
  query_transaction, query_block_by_hash, query_info, query_installed, query_instantiated,
  query_channels,
}
use blockchain_tutorial.Fabric.Client.{shown, get_client_for_org, open_channel}

-- What a query returns: a text of the application, the SDK's object, or a list of texts.
pub data Reply : Type 0 where
  text : String → Reply
  payload : String → Reply
  details : List String → Reply
  channels : List String → Reply

-- `catch (error) { return error.toString() }`
abbrev pub text_of_error : Action Reply → Action Reply
text_of_error m = catch m (λ e. pure (text (to_text e)))

abbrev first_arg : List String → String
first_arg [] = "undefined"
first_arg (a ∷ _) = a

abbrev pub report : List String → Option (List String) → Action Reply
report args none = pure (text "response_payloads is null")
report args (some []) = raise (type_error "Cannot read property 'toString' of undefined")
report args (some (p ∷ _)) = pure (text (first_arg args ++ " now has " ++ p ++ " after the move"))

abbrev pub found : Option String → Action Reply
found none = pure (text "response_payload is null")
found (some p) = pure (payload p)

abbrev described : ChaincodeInfo → String
described c = "name: " ++ c.name ++ ", version: " ++ c.version ++ ", path: " ++ c.path

abbrev pub listed : Option (List ChaincodeInfo) → Action Reply
listed none = pure (text "response is null")
listed (some cs) = pure (details (map described cs))

abbrev pub named : Option (List String) → Action Reply
named none = pure (text "response_payloads is null")
named (some ids) = pure (channels ids)

module _ (sdk : Sdk) where
  unfoldable pub query_chaincode :
      Option String
      → String
      → String
      → List String
      → String
      → Option String
      → Option String
      → Action Reply
  unfolding open_channel
  query_chaincode peer channel chaincode args fcn username org = text_of_error (do
    open_channel sdk org username (some channel)
    payloads ← call sdk (ask_chaincode peer chaincode (some fcn) args)
    report args payloads)

  -- `channel.queryBlock(parseInt(blockNumber, peer))`: the peer is the radix
  unfoldable pub get_block_by_number :
      Option String → String → String → Option String → Option String → Action Reply
  unfolding open_channel
  get_block_by_number peer channel number username org = text_of_error (do
    open_channel sdk org username (some channel)
    block ← call sdk (query_block (parse_int_radix (radix_of peer) (codes number)))
    found block)

  unfoldable pub get_transaction_by_id :
      Option String → String → String → Option String → Option String → Action Reply
  unfolding open_channel
  get_transaction_by_id peer channel id username org = text_of_error (do
    open_channel sdk org username (some channel)
    transaction ← call sdk (query_transaction id peer)
    found transaction)

  unfoldable pub get_block_by_hash :
      Option String → String → String → Option String → Option String → Action Reply
  unfolding open_channel
  get_block_by_hash peer channel hash username org = text_of_error (do
    open_channel sdk org username (some channel)
    block ← call sdk (query_block_by_hash hash peer)
    found block)

  unfoldable pub get_chain_info :
      Option String → String → Option String → Option String → Action Reply
  unfolding open_channel
  get_chain_info peer channel username org = text_of_error (do
    open_channel sdk org username (some channel)
    info ← call sdk (query_info peer)
    found info)

  -- `true` is the type 'installed'; the channel is used for any other
  unfoldable pub get_installed_chaincodes :
      Option String → Option String → Bool → Option String → Option String → Action Reply
  unfolding get_client_for_org open_channel
  get_installed_chaincodes peer channel installed username org = text_of_error (
      if installed
      then (do
        get_client_for_org sdk org username
        response ← call sdk (query_installed peer)
        listed response)
      else (do
        open_channel sdk org username channel
        response ← call sdk (query_instantiated peer)
        listed response))

  unfoldable pub get_channels : Option String → Option String → Option String → Action Reply
  unfolding get_client_for_org
  get_channels peer username org = text_of_error (do
    get_client_for_org sdk org username
    response ← call sdk (query_channels peer)
    named response)
