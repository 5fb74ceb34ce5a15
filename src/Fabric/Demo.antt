-- ===== src/Fabric/Demo.antt =====
-- A small network as test data: one peer and one user, and an SDK that answers every call but the
-- installation of a chaincode well.
use blockchain_tutorial.Prelude.{some, true, List, [], ◌∷◌}
use blockchain_tutorial.Js.{Exception, Outcome, ok}
use blockchain_tutorial.Fabric.{
  User, ProposalResponse, committed, at_hub, answered, Call, load_network, load_org, init_stores,
  get_user_context, set_user_context, get_authority, register, get_channel, new_transaction,
  get_genesis_block, join_channel, send_proposal, send_instantiate, install, get_hubs,
  send_transaction, update_channel, create_channel, read_file, extract_config, sign_config,
  await_all, query_chaincode, query_block, query_transaction, query_block_by_hash, query_info,
  query_installed, query_instantiated, query_channels, Answer, Sdk,
}

abbrev pub user : User
user = record { is_enrolled = true; secret = some "secret" }

abbrev pub good : ProposalResponse
good = record { status = some 200; endorsed = true }

abbrev pub bad : ProposalResponse
bad = record { status = some 500; endorsed = true }

abbrev pub respond : List Call → (c : Call) → Outcome Exception (Answer c)
respond t (load_network _) = ok tt
respond t (load_org _) = ok tt
respond t init_stores = ok tt
respond t (get_user_context _) = ok (some user)
respond t (set_user_context _ _) = ok (some user)
respond t get_authority = ok tt
respond t (register _ _) = ok "secret"
respond t (get_channel _) = ok true
respond t (new_transaction _) = ok "tx1"
respond t (get_genesis_block _) = ok "genesis"
respond t (join_channel _ _ _) = ok (good ∷ [])
respond t (send_proposal _) = ok (some (good ∷ []))
respond t (send_instantiate _) = ok (some (good ∷ []))
respond t (install _) = ok (some (good ∷ bad ∷ []))
respond t get_hubs = ok ("peer0" ∷ [])
respond t (send_transaction _ _) = ok tt
respond t (update_channel _) = ok tt
respond t (create_channel _) = ok (some "SUCCESS")
respond t (read_file _) = ok "envelope"
respond t (extract_config _) = ok "config"
respond t (sign_config _) = ok "signature"
respond t await_all = ok (at_hub 0 (committed "VALID") ∷ answered (some "SUCCESS") ∷ [])
respond t (query_chaincode _ _ _ _) = ok (some ("90" ∷ []))
respond t (query_block _) = ok (some "block")
respond t (query_transaction _ _) = ok (some "transaction")
respond t (query_block_by_hash _ _) = ok (some "block")
respond t (query_info _) = ok (some "info")
respond t (query_installed _) = ok (some [])
respond t (query_instantiated _) = ok (some [])
respond t (query_channels _) = ok (some ("mychannel" ∷ []))

abbrev pub sdk : Sdk
sdk = record {
  setting = λ name. some "path";
  admins = some (("admin", "adminpw") ∷ []);
  answer = respond;
}
