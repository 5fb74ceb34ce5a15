-- ===== src/Fabric/Submission/Safety.antt =====
-- No transaction goes to the orderer without the peers' endorsement.
use blockchain_tutorial.Prelude.{◌≢◌, Option, List, [], String, All}
use blockchain_tutorial.Js.Trace.{Keeps}
use blockchain_tutorial.Fabric.{Call, send_transaction, Sdk}
use blockchain_tutorial.Fabric.Calls.{IsQuiet}
use blockchain_tutorial.Fabric.Endorsement.{IsGood}
use blockchain_tutorial.Fabric.Submission.{invoke_chaincode, instantiate_chaincode}
use blockchain_tutorial.Fabric.Submission.Rules.{
  invoke_chaincode-Keeps, instantiate_chaincode-Keeps,
}

-- A transaction for the orderer carries at least one response, and each has the status 200.
abbrev pub IsEndorsed : Call → Type 0
IsEndorsed (send_transaction _ rs) = All IsGood rs × (rs ≢ [])
IsEndorsed _ = Unit

abbrev pub OnlyEndorsed : List Call → Type 0
OnlyEndorsed = All IsEndorsed

pub quiet-IsEndorsed : (c : Call) → IsQuiet c → IsEndorsed c
quiet-IsEndorsed (send_transaction tx rs) h = absurd h
quiet-IsEndorsed _ h = tt

module _ (sdk : Sdk) (peers : Option (List String)) (channel chaincode : String)
    (args : List String) (username org : Option String) where
  pub invoke_chaincode-Endorsed :
      (fcn : String)
      → Keeps OnlyEndorsed (invoke_chaincode sdk peers channel chaincode fcn args username org)
  invoke_chaincode-Endorsed fcn =
      invoke_chaincode-Keeps sdk IsEndorsed quiet-IsEndorsed (λ tx rs g n. (g, n)) peers channel
        chaincode args username org fcn (λ p. tt)

  pub instantiate_chaincode-Endorsed :
      (version : String) (function_name type : Option String)
      → Keeps OnlyEndorsed (
          instantiate_chaincode sdk peers channel chaincode version function_name type args username
            org)
  instantiate_chaincode-Endorsed version function_name type =
      instantiate_chaincode-Keeps sdk IsEndorsed quiet-IsEndorsed (λ tx rs g n. (g, n)) peers
        channel chaincode args username org version function_name type (λ tx. tt)

  -- Whatever the SDK answers and however the calls end, neither `invokeChaincode` nor
  -- `instantiateChaincode` hands the orderer a transaction but one with responses of endorsers, at
  -- least one, all of status 200, where the calls before had none either.
  pub submissions-OnlyEndorsed :
      (fcn version : String) (function_name type : Option String) (t : List Call)
      → OnlyEndorsed t
      → OnlyEndorsed (invoke_chaincode sdk peers channel chaincode fcn args username org t).1
        × OnlyEndorsed
            (instantiate_chaincode sdk peers channel chaincode version function_name type args
              username org t).1
  submissions-OnlyEndorsed fcn version function_name type t h = (
    (invoke_chaincode-Endorsed fcn).at t h,
    (instantiate_chaincode-Endorsed version function_name type).at t h,
  )
