-- ===== src/Fabric/Submission.antt =====
-- balance-transfer/app/invoke-transaction.js and instantiate-chaincode.js: a proposal is endorsed,
-- the transaction is ordered, and the event hubs report its commit.
pub mod Rules
pub mod Safety
pub mod Ordered
pub mod Confirmed
pub mod Instantiated
use blockchain_tutorial.Prelude.{
  Bool, true, false, not, Option, none, some, List, [], ◌∷◌, String, str_eq, if◌then◌else◌,
}
use Prim.Native.String.{◌++◌}
use blockchain_tutorial.Js.{
  Exception, error, type_error, to_text, pure, raise, lift, catch, ◌>>=◌, ◌>>◌, is_truthy,
}
use blockchain_tutorial.Fabric.{
  ProposalResponse, Proposal, Instantiation, Sdk, Action, call, new_transaction, send_proposal,
  send_instantiate, get_hubs, send_transaction, await_all,
}
use blockchain_tutorial.Fabric.Client.{shown, open_channel}
use blockchain_tutorial.Fabric.Endorsement.{all_good, responses, log_first}
use blockchain_tutorial.Fabric.Hubs.{
  Slot, waiting, fulfilled, rejected, Watch, Promises, tx_listener, wait, started,
}

-- The status in the orderer's answer, the last of the results.
abbrev pub order_status : Slot (Option String) → Option String
order_status waiting = none
order_status (fulfilled s) = s
order_status (rejected _) = none

-- `response.status === 'SUCCESS'`, or else the error message
abbrev pub order_error : Option String → Option String
order_error none = some ("Failed to order the transaction. Error code: " ++ "undefined")
order_error (some s) =
    if str_eq s "SUCCESS" then none else some ("Failed to order the transaction. Error code: " ++ s)

-- A result of a hub: a text is logged; of `undefined` the call `toString()` throws.
abbrev pub log_result : Slot (Option String) → Action Unit
log_result (fulfilled (some _)) = pure tt
log_result (fulfilled none) = raise (type_error "Cannot read property 'toString' of undefined")
log_result waiting = raise (type_error "Cannot read property 'toString' of undefined")
log_result (rejected _) = raise (type_error "Cannot read property 'toString' of undefined")

-- The loop over the hubs' results.
unfoldable pub review : Option String → List Watch → Action (Option String)
review message [] = pure message
review message (w ∷ ws) = do log_result w.result; review message ws

module _ (sdk : Sdk) where
  -- The case in which all responses are good.
  unfoldable pub order : String → String → Option (List ProposalResponse) → Action (Option String)
  unfolding wait review
  order kind tx found = do
    log_first found
    addresses ← call sdk get_hubs
    call sdk (send_transaction tx (responses found))
    occurrences ← call sdk await_all
    results ← lift (wait (tx_listener kind) occurrences (started addresses))
    review (order_error (order_status results.order)) results.hubs

  -- What follows the proposal's results, to the value of `error_message`.
  unfoldable pub after_proposal :
      String → String → Option (List ProposalResponse) → Action (Option String)
  unfolding order
  after_proposal kind tx found =
      if all_good found
      then order kind tx found
      else pure (some "Failed to send Proposal and receive all good ProposalResponse")

  -- `error_message = error.toString()`, beside the transaction's id as far as it is known
  abbrev pub recorded : String → Action (Option String) → Action (Option String × Option String)
  recorded tx m =
      catch (do message ← m; pure (message, some tx)) (λ e. pure (some (to_text e), some tx))

  -- The proposal of `invokeChaincode`, and what follows the transaction's id.
  abbrev pub proposal :
      Option (List String) → String → String → String → List String → String → Proposal
  proposal peers channel chaincode fcn args tx = record {
    targets = peers;
    chaincode_id = chaincode;
    fcn = some fcn;
    args = args;
    chain_id = channel;
    tx_id = tx;
  }

  abbrev pub submit : Proposal → Action (Option String)
  submit p = do found ← call sdk (send_proposal p); after_proposal "invoke chaincode" p.tx_id found

  abbrev pub with_id :
      Option (List String)
      → String
      → String
      → String
      → List String
      → Action (Option String × Option String)
  with_id peers channel chaincode fcn args = do
    tx ← call sdk (new_transaction false)
    recorded tx (submit (proposal peers channel chaincode fcn args tx))

  abbrev pub no_id : Exception → Action (Option String × Option String)
  no_id e = pure (some (to_text e), none)

  -- The `try` block of `invokeChaincode`.
  unfoldable pub try_invoke :
      Option (List String)
      → String
      → String
      → String
      → List String
      → Option String
      → Option String
      → Action (Option String × Option String)
  unfolding open_channel after_proposal
  try_invoke peers channel chaincode fcn args username org =
      catch
        (open_channel sdk org username (some channel) >> with_id peers channel chaincode fcn args)
        no_id

  -- The transaction's id, or the error.
  abbrev pub answer_invoke : Option String × Option String → Action (Option String)
  answer_invoke (message, tx) =
      if not (is_truthy message)
      then pure tx
      else raise (error ("Failed to invoke chaincode. cause:" ++ shown message))

  -- `invokeChaincode`
  unfoldable pub invoke_chaincode :
      Option (List String)
      → String
      → String
      → String
      → List String
      → Option String
      → Option String
      → Action (Option String)
  unfolding try_invoke
  invoke_chaincode peers channel chaincode fcn args username org = do
    r ← try_invoke peers channel chaincode fcn args username org
    answer_invoke r

  -- The request of `instantiateChaincode`; `fcn` is set where the function's name is not empty.
  abbrev pub instantiation :
      Option (List String)
      → String
      → String
      → Option String
      → Option String
      → List String
      → String
      → Instantiation
  instantiation peers chaincode version function_name chaincode_type args tx = record {
    targets = peers;
    chaincode_id = chaincode;
    chaincode_type = chaincode_type;
    chaincode_version = version;
    fcn = if is_truthy function_name then function_name else none;
    args = args;
    tx_id = tx;
  }

  -- The `try` block of `instantiateChaincode`.
  unfoldable pub try_instantiate :
      Option (List String)
      → String
      → String
      → String
      → Option String
      → Option String
      → List String
      → Option String
      → Option String
      → Action (Option String × Option String)
  unfolding open_channel after_proposal
  try_instantiate peers channel chaincode version function_name chaincode_type args username org =
      catch
        (do
          open_channel sdk org username (some channel)
          tx ← call sdk (new_transaction true)
          recorded tx (do
            found ← call sdk (
                send_instantiate
                  (instantiation peers chaincode version function_name chaincode_type args tx))
            after_proposal "chaincode instantiate" tx found))
        no_id

  abbrev pub answer_instantiate :
      Option String → String → Option String × Option String → Action String
  answer_instantiate org channel (message, tx) =
      if not (is_truthy message)
      then pure (
          "Successfully instantiate chaincode in organization "
          ++ shown org
          ++ " to the channel '"
          ++ channel
          ++ "'")
      else raise (error ("Failed to instantiate. cause:" ++ shown message))

  -- `instantiateChaincode`, in the order of its parameters
  unfoldable pub instantiate_chaincode :
      Option (List String)
      → String
      → String
      → String
      → Option String
      → Option String
      → List String
      → Option String
      → Option String
      → Action String
  unfolding try_instantiate
  instantiate_chaincode peers channel chaincode version function_name chaincode_type args username
        org =
      do
        r ←
            try_instantiate peers channel chaincode version function_name chaincode_type args
              username org
        answer_instantiate org channel r
