-- ===== src/Fabric/Submission/Rules.antt =====
-- Predicates on the recorded calls that the submissions keep: those that hold of a transaction
-- with good responses, of the proposal that is sent, and of the calls that submit nothing.
use blockchain_tutorial.Prelude.{◌≢◌, Option, none, some, List, [], ◌∷◌, String, All}
use blockchain_tutorial.Js.{lift}
use blockchain_tutorial.Js.Trace.{Keeps, Keeps-if, Keeps-bind, Keeps-pure, Keeps-lift, keeps_rules}
use blockchain_tutorial.Fabric.{
  ProposalResponse, Proposal, Call, get_hubs, await_all, send_transaction, send_proposal,
  send_instantiate, Sdk, call,
}
use blockchain_tutorial.Fabric.Calls.{
  IsQuiet, call-Keeps, quiet-Keeps, open_channel-Keeps, log_first-Keeps, review-Keeps,
}
use blockchain_tutorial.Fabric.Endorsement.{all_good, responses, log_first, IsGood, all_good-All}
use blockchain_tutorial.Fabric.Hubs.{wait, tx_listener, started}
use blockchain_tutorial.Fabric.Submission.{
  order, after_proposal, try_invoke, answer_invoke, invoke_chaincode, instantiation,
  try_instantiate, answer_instantiate, instantiate_chaincode,
}

module _ (sdk : Sdk) (P : Call → Type 0) (quiet : (c : Call) → IsQuiet c → P c)
    (sends : (tx : String) (rs : List ProposalResponse)
      → All IsGood rs
      → rs ≢ []
      → P (send_transaction tx rs)) where
  order-Keeps :
      (kind tx : String) (found : Option (List ProposalResponse))
      → All IsGood (responses found)
      → Keeps (All P) (order sdk kind tx found)
  unfolding order
  order-Keeps kind tx none h = search keeps_rules
  order-Keeps kind tx (some []) h = search keeps_rules
  order-Keeps kind tx (some (r ∷ rs)) h =
      let send = call-Keeps sdk P (send_transaction tx (r ∷ rs)) (sends tx (r ∷ rs) h (λ e. cc)) in
      Keeps-bind (log_first (some (r ∷ rs))) _ (log_first-Keeps sdk P quiet (some (r ∷ rs))) λ _.
        Keeps-bind (call sdk get_hubs) _ (quiet-Keeps sdk P quiet get_hubs tt) λ a.
          Keeps-bind (call sdk (send_transaction tx (r ∷ rs))) _ send λ _.
            Keeps-bind (call sdk await_all) _ (quiet-Keeps sdk P quiet await_all tt) λ os.
              Keeps-bind (lift (wait (tx_listener kind) os (started a))) _ (Keeps-lift _)
                λ q. review-Keeps sdk P quiet _ q.hubs

  pub after_proposal-Keeps :
      (kind tx : String) (found : Option (List ProposalResponse))
      → Keeps (All P) (after_proposal sdk kind tx found)
  unfolding after_proposal
  after_proposal-Keeps kind tx found =
      Keeps-if (all_good found) _ _ (λ good. order-Keeps kind tx found (all_good-All found good))
        (λ _. Keeps-pure _)

  answer_invoke-Keeps : (r : Option String × Option String) → Keeps (All P) (answer_invoke sdk r)
  answer_invoke-Keeps (message, tx) = search keeps_rules

  answer_instantiate-Keeps :
      (org : Option String) (channel : String) (r : Option String × Option String)
      → Keeps (All P) (answer_instantiate sdk org channel r)
  answer_instantiate-Keeps org channel (message, tx) = search keeps_rules

  module _ (peers : Option (List String)) (channel chaincode : String) (args : List String)
      (username org : Option String) where
    try_invoke-Keeps :
        (fcn : String)
        → ((p : Proposal) → P (send_proposal p))
        → Keeps (All P) (try_invoke sdk peers channel chaincode fcn args username org)
    unfolding try_invoke
    try_invoke-Keeps fcn h =
        search
          (
            keeps_rules,
            quiet-Keeps sdk P quiet,
            open_channel-Keeps sdk P quiet,
            after_proposal-Keeps,
            call-Keeps sdk P,
            h,
          )
          depth 14

    pub invoke_chaincode-Keeps :
        (fcn : String)
        → ((p : Proposal) → P (send_proposal p))
        → Keeps (All P) (invoke_chaincode sdk peers channel chaincode fcn args username org)
    unfolding invoke_chaincode
    invoke_chaincode-Keeps fcn h =
        Keeps-bind (try_invoke sdk peers channel chaincode fcn args username org) _
          (try_invoke-Keeps fcn h) answer_invoke-Keeps

    module _ (version : String) (function_name type : Option String)
        (h : (tx : String)
          → P (
              send_instantiate
                (instantiation sdk peers chaincode version function_name type args tx))) where
      try_instantiate-Keeps :
          Keeps (All P) (
            try_instantiate sdk peers channel chaincode version function_name type args username
              org)
      unfolding try_instantiate
      try_instantiate-Keeps =
          search
            (
              keeps_rules,
              quiet-Keeps sdk P quiet,
              open_channel-Keeps sdk P quiet,
              after_proposal-Keeps,
              call-Keeps sdk P,
              h,
            )
            depth 14

      pub instantiate_chaincode-Keeps : Keeps (All P) (
          instantiate_chaincode sdk peers channel chaincode version function_name type args username
            org)
      unfolding instantiate_chaincode
      instantiate_chaincode-Keeps =
          Keeps-bind
            (try_instantiate sdk peers channel chaincode version function_name type args username
              org)
            _ try_instantiate-Keeps (answer_instantiate-Keeps org channel)
