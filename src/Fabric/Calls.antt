-- ===== src/Fabric/Calls.antt =====
-- Predicates on the recorded calls that hold of every call but the submissions of a proposal or a
-- transaction and the query of a block: what the shared parts of the operations keep.
use blockchain_tutorial.Prelude.{Option, none, some, List, [], ◌∷◌, String, All}
use blockchain_tutorial.Js.Trace.{Keeps, keeps_rules, Keeps-bind}
use blockchain_tutorial.Fabric.{
  User, Call, send_proposal, send_instantiate, install, send_transaction, query_block,
  get_user_context, Sdk, call, ProposalResponse,
}
use blockchain_tutorial.Fabric.Client.{check_user, check_username, get_client_for_org, open_channel}
use blockchain_tutorial.Fabric.Endorsement.{log_first}
use blockchain_tutorial.Fabric.Hubs.{Slot, waiting, fulfilled, rejected, Watch}
use blockchain_tutorial.Fabric.Submission.{log_result, review}

abbrev pub IsQuiet : Call → Type 0
IsQuiet (send_proposal _) = ⊥
IsQuiet (send_instantiate _) = ⊥
IsQuiet (install _) = ⊥
IsQuiet (send_transaction _ _) = ⊥
IsQuiet (query_block _) = ⊥
IsQuiet _ = Unit

pub call-Keeps : (sdk : Sdk) (P : Call → Type 0) (c : Call) → P c → Keeps (All P) (call sdk c)
call-Keeps sdk P c h = record { at = λ t p. (h, p) }

module _ (sdk : Sdk) (P : Call → Type 0) (quiet : (c : Call) → IsQuiet c → P c) where
  pub quiet-Keeps : (c : Call) → IsQuiet c → Keeps (All P) (call sdk c)
  quiet-Keeps c h = call-Keeps sdk P c (quiet c h)

  check_user-Keeps : (name : String) (u : Option User) → Keeps (All P) (check_user name u)
  check_user-Keeps name none = search keeps_rules
  check_user-Keeps name (some u) = search keeps_rules

  check_username-Keeps : (name : Option String) → Keeps (All P) (check_username sdk name)
  check_username-Keeps none = search keeps_rules
  check_username-Keeps (some name) =
      search (keeps_rules, quiet-Keeps (get_user_context name) tt, check_user-Keeps)

  pub get_client_for_org-Keeps :
      (org username : Option String) → Keeps (All P) (get_client_for_org sdk org username)
  unfolding get_client_for_org
  get_client_for_org-Keeps org username =
      search (keeps_rules, quiet-Keeps, tt, check_username-Keeps) depth 12

  pub open_channel-Keeps :
      (org username channel : Option String) → Keeps (All P) (open_channel sdk org username channel)
  unfolding open_channel
  open_channel-Keeps org username channel =
      search (keeps_rules, quiet-Keeps, tt, check_username-Keeps) depth 12

  pub log_first-Keeps : (found : Option (List ProposalResponse)) → Keeps (All P) (log_first found)
  log_first-Keeps none = search keeps_rules
  log_first-Keeps (some []) = search keeps_rules
  log_first-Keeps (some (r ∷ rs)) = search keeps_rules

  log_result-Keeps : (s : Slot (Option String)) → Keeps (All P) (log_result s)
  log_result-Keeps waiting = search keeps_rules
  log_result-Keeps (fulfilled none) = search keeps_rules
  log_result-Keeps (fulfilled (some s)) = search keeps_rules
  log_result-Keeps (rejected e) = search keeps_rules

  pub review-Keeps : (message : Option String) (ws : List Watch) → Keeps (All P) (review message ws)
  unfolding review
  review-Keeps message [] = search keeps_rules
  review-Keeps message (w ∷ ws) =
      Keeps-bind (log_result w.result) _ (log_result-Keeps w.result) (λ _. review-Keeps message ws)
