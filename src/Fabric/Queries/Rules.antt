-- ===== src/Fabric/Queries/Rules.antt =====
-- Predicates on the recorded calls that the queries keep.
use blockchain_tutorial.Prelude.{Bool, true, false, Option, none, some, List, [], ◌∷◌, String, All}
use blockchain_tutorial.Js.{pure, to_text, ◌>>=◌, ◌>>◌}
use blockchain_tutorial.Js.Trace.{Keeps, Keeps-catch, Keeps-bind, Keeps-pure, keeps_rules}
use blockchain_tutorial.Js.Decimal.{radix_of}
use blockchain_tutorial.Js.Number.{codes, parse_int_radix}
use blockchain_tutorial.Fabric.{
  ChaincodeInfo, Call, Answer, query_chaincode as ask_chaincode, query_block, query_transaction,
  query_block_by_hash, query_info, query_installed, query_instantiated, query_channels, Sdk, Action,
  call,
}
use blockchain_tutorial.Fabric.Calls.{
  IsQuiet, call-Keeps, get_client_for_org-Keeps, open_channel-Keeps,
}
use blockchain_tutorial.Fabric.Client.{open_channel, get_client_for_org}
use blockchain_tutorial.Fabric.Queries.{
  Reply, text, found, listed, report, named, text_of_error, query_chaincode, get_block_by_number,
  get_transaction_by_id, get_block_by_hash, get_chain_info, get_installed_chaincodes, get_channels,
}

module _ (P : Call → Type 0) where
  found-Keeps : (o : Option String) → Keeps (All P) (found o)
  found-Keeps none = search keeps_rules
  found-Keeps (some p) = search keeps_rules

  report-Keeps : (args : List String) (o : Option (List String)) → Keeps (All P) (report args o)
  report-Keeps args none = search keeps_rules
  report-Keeps args (some []) = search keeps_rules
  report-Keeps args (some (p ∷ ps)) = search keeps_rules

  listed-Keeps : (o : Option (List ChaincodeInfo)) → Keeps (All P) (listed o)
  listed-Keeps none = search keeps_rules
  listed-Keeps (some cs) = search keeps_rules

  named-Keeps : (o : Option (List String)) → Keeps (All P) (named o)
  named-Keeps none = search keeps_rules
  named-Keeps (some ids) = search keeps_rules

module _ (sdk : Sdk) (P : Call → Type 0) where
  -- A query: the client or the channel is opened, the SDK is asked, and its answer is shown.
  asked-Keeps :
      (opening : Action Unit) (c : Call) (f : Answer c → Action Reply)
      → Keeps (All P) opening
      → P c
      → ((a : Answer c) → Keeps (All P) (f a))
      → Keeps (All P) (text_of_error (opening >> (call sdk c >>= f)))
  asked-Keeps opening c f ho hc hf =
      Keeps-catch (opening >> (call sdk c >>= f)) (λ e. pure (text (to_text e)))
        (Keeps-bind opening (λ _. call sdk c >>= f) ho
          λ _. Keeps-bind (call sdk c) f (call-Keeps sdk P c hc) hf)
        (λ e. Keeps-pure _)

module _ (sdk : Sdk) (P : Call → Type 0) (quiet : (c : Call) → IsQuiet c → P c)
    (peer username org : Option String) where
  on_channel-Keeps :
      (channel : Option String) (c : Call) (f : Answer c → Action Reply)
      → P c
      → ((a : Answer c) → Keeps (All P) (f a))
      → Keeps (All P) (text_of_error (open_channel sdk org username channel >> (call sdk c >>= f)))
  on_channel-Keeps channel c f =
      asked-Keeps sdk P (open_channel sdk org username channel) c f
        (open_channel-Keeps sdk P quiet org username channel)

  on_client-Keeps :
      (c : Call) (f : Answer c → Action Reply)
      → P c
      → ((a : Answer c) → Keeps (All P) (f a))
      → Keeps (All P) (text_of_error (get_client_for_org sdk org username >> (call sdk c >>= f)))
  on_client-Keeps c f =
      asked-Keeps sdk P (get_client_for_org sdk org username) c f
        (get_client_for_org-Keeps sdk P quiet org username)

  pub query_chaincode-Keeps :
      (channel chaincode : String) (args : List String) (fcn : String)
      → Keeps (All P) (query_chaincode sdk peer channel chaincode args fcn username org)
  unfolding query_chaincode
  query_chaincode-Keeps channel chaincode args fcn =
      on_channel-Keeps (some channel) (ask_chaincode peer chaincode (some fcn) args) (report args)
        (quiet (ask_chaincode peer chaincode (some fcn) args) tt) (report-Keeps P args)

  pub get_block_by_number-Keeps :
      (channel number : String)
      → P (query_block (parse_int_radix (radix_of peer) (codes number)))
      → Keeps (All P) (get_block_by_number sdk peer channel number username org)
  unfolding get_block_by_number
  get_block_by_number-Keeps channel number h =
      on_channel-Keeps (some channel) (query_block (parse_int_radix (radix_of peer) (codes number)))
        found h (found-Keeps P)

  pub get_transaction_by_id-Keeps :
      (channel id : String) → Keeps (All P) (get_transaction_by_id sdk peer channel id username org)
  unfolding get_transaction_by_id
  get_transaction_by_id-Keeps channel id =
      on_channel-Keeps (some channel) (query_transaction id peer) found
        (quiet (query_transaction id peer) tt) (found-Keeps P)

  pub get_block_by_hash-Keeps :
      (channel hash : String) → Keeps (All P) (get_block_by_hash sdk peer channel hash username org)
  unfolding get_block_by_hash
  get_block_by_hash-Keeps channel hash =
      on_channel-Keeps (some channel) (query_block_by_hash hash peer) found
        (quiet (query_block_by_hash hash peer) tt) (found-Keeps P)

  pub get_chain_info-Keeps :
      (channel : String) → Keeps (All P) (get_chain_info sdk peer channel username org)
  unfolding get_chain_info
  get_chain_info-Keeps channel =
      on_channel-Keeps (some channel) (query_info peer) found (quiet (query_info peer) tt)
        (found-Keeps P)

  pub get_installed_chaincodes-Keeps :
      (channel : Option String) (installed : Bool)
      → Keeps (All P) (get_installed_chaincodes sdk peer channel installed username org)
  unfolding get_installed_chaincodes
  get_installed_chaincodes-Keeps channel true =
      on_client-Keeps (query_installed peer) listed (quiet (query_installed peer) tt)
        (listed-Keeps P)
  get_installed_chaincodes-Keeps channel false =
      on_channel-Keeps channel (query_instantiated peer) listed (quiet (query_instantiated peer) tt)
        (listed-Keeps P)

  pub get_channels-Keeps : Keeps (All P) (get_channels sdk peer username org)
  unfolding get_channels
  get_channels-Keeps =
      on_client-Keeps (query_channels peer) named (quiet (query_channels peer) tt) (named-Keeps P)
