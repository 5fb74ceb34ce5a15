-- ===== src/Fabric/Channels/Rules.antt =====
-- Predicates on the recorded calls that the operations on channels and on users keep.
use blockchain_tutorial.Prelude.{Bool, Option, none, some, List, [], ◌∷◌, String, All}
use blockchain_tutorial.Js.Trace.{Keeps, keeps_rules}
use blockchain_tutorial.Fabric.{ProposalResponse, Package, User, Call, install, Sdk}
use blockchain_tutorial.Fabric.Client.{get_registered_user, enroll, first_admin, report}
use blockchain_tutorial.Fabric.Calls.{
  IsQuiet, call-Keeps, quiet-Keeps, get_client_for_org-Keeps, open_channel-Keeps,
}
use blockchain_tutorial.Fabric.Endorsement.{check_installed}
use blockchain_tutorial.Fabric.Channels.{
  answer, config_request, create_channel, try_join, join_channel, try_update, update_anchor_peers,
  setup_deploy, try_install, install_chaincode,
}

module _ (sdk : Sdk) (P : Call → Type 0) (quiet : (c : Call) → IsQuiet c → P c) where
  config_request-Keeps : (channel path : String) → Keeps (All P) (config_request sdk channel path)
  unfolding config_request
  config_request-Keeps channel path = search (keeps_rules, quiet-Keeps sdk P quiet, tt) depth 12

  answer-Keeps :
      (success prefix : String) (m : Option String) → Keeps (All P) (answer success prefix m)
  answer-Keeps success prefix m = search keeps_rules

  pub create_channel-Keeps :
      (channel path : String) (username org : Option String)
      → Keeps (All P) (create_channel sdk channel path username org)
  unfolding create_channel
  create_channel-Keeps channel path username org =
      search
        (
          keeps_rules,
          quiet-Keeps sdk P quiet,
          get_client_for_org-Keeps sdk P quiet,
          config_request-Keeps,
        )
        depth 14

  pub join_channel-Keeps :
      (channel : String) (peers : List String) (username org : Option String)
      → Keeps (All P) (join_channel sdk channel peers username org)
  unfolding join_channel try_join
  join_channel-Keeps channel peers username org =
      search (keeps_rules, quiet-Keeps sdk P quiet, open_channel-Keeps sdk P quiet, answer-Keeps)
        depth 16

  pub update_anchor_peers-Keeps :
      (channel path : String) (username org : Option String)
      → Keeps (All P) (update_anchor_peers sdk channel path username org)
  unfolding update_anchor_peers try_update
  update_anchor_peers-Keeps channel path username org =
      search
        (
          keeps_rules,
          quiet-Keeps sdk P quiet,
          open_channel-Keeps sdk P quiet,
          config_request-Keeps,
          answer-Keeps,
        )
        depth 16

  setup_deploy-Keeps : (s : Option String) → Keeps (All P) (setup_deploy sdk s)
  setup_deploy-Keeps none = search keeps_rules
  setup_deploy-Keeps (some s) = search keeps_rules

  check_installed-Keeps : (rs : List ProposalResponse) → Keeps (All P) (check_installed rs)
  unfolding check_installed
  check_installed-Keeps [] = search keeps_rules
  check_installed-Keeps (r ∷ rs) = search (keeps_rules, check_installed-Keeps rs)

  pub install_chaincode-Keeps :
      (bundle : Package) (username org : Option String)
      → P (install bundle)
      → Keeps (All P) (install_chaincode sdk bundle username org)
  unfolding install_chaincode try_install
  install_chaincode-Keeps bundle username org h =
      search
        (
          keeps_rules,
          call-Keeps sdk P,
          h,
          setup_deploy-Keeps,
          check_installed-Keeps,
          get_client_for_org-Keeps sdk P quiet,
          answer-Keeps,
        )
        depth 16

  first_admin-Keeps : (o : Option (List (String × String))) → Keeps (All P) (first_admin sdk o)
  first_admin-Keeps none = search keeps_rules
  first_admin-Keeps (some []) = search keeps_rules
  first_admin-Keeps (some (a ∷ as')) = search keeps_rules

  report-Keeps :
      (username : String) (is_json : Bool) (u : Option User)
      → Keeps (All P) (report sdk username is_json u)
  report-Keeps username is_json none = search keeps_rules
  report-Keeps username is_json (some u) = search keeps_rules

  pub get_registered_user-Keeps :
      (username org : String) (is_json : Bool)
      → Keeps (All P) (get_registered_user sdk username org is_json)
  unfolding get_registered_user enroll
  get_registered_user-Keeps username org is_json =
      search
        (
          keeps_rules,
          quiet-Keeps sdk P quiet,
          get_client_for_org-Keeps sdk P quiet,
          first_admin-Keeps,
          report-Keeps,
        )
        depth 18
