-- ===== src/Fabric/Tests.antt =====
-- The theorems about the application's operations at the small network.
use blockchain_tutorial.Prelude.{
  arith, ◌≡◌, ◌≢◌, ◌⊎◌, inl, inr, refl, ℕ, zero, suc, Option, some, none, true, false, List, [],
  ◌∷◌, String, All, length, ◌<◌, get_elem?,
}
use blockchain_tutorial.Js.{Exception, error, thrown, ok, pending, throw}
use blockchain_tutorial.Js.Int.{pos}
use blockchain_tutorial.Js.Decimal.{radix_of}
use blockchain_tutorial.Js.Number.{int, to_string}
use blockchain_tutorial.Fabric.{Package, at_hub, committed, timer, answered}
use blockchain_tutorial.Fabric.Demo.{sdk}
use Prim.Native.String.{◌++◌}
use blockchain_tutorial.Fabric.Client.{get_registered_user, open_channel}
use blockchain_tutorial.Fabric.Client.Registered.{WasEnrolled, registration_succeeds}
use blockchain_tutorial.Fabric.Submission.Instantiated.{
  IsInstantiated, EmptyThrown, instantiate_confirmed,
}
use blockchain_tutorial.Fabric.Submission.{instantiation}
use blockchain_tutorial.Fabric.Channels.{create_channel, join_error, join_channel, try_join}
use blockchain_tutorial.Fabric.Channels.Outcomes.{join_succeeds, AllJoined}
use blockchain_tutorial.Fabric.Channels.Created.{WasCreated, create_succeeds}
use blockchain_tutorial.Fabric.Endorsement.{all_good}
use blockchain_tutorial.Fabric.Hubs.{fulfilled, block_listener, Promises, wait, started}
use blockchain_tutorial.Fabric.Hubs.Progress.{wait_settles, Decisive}
use blockchain_tutorial.Fabric.Hubs.Reports.{wait_reports, ReportsValid, Occurs}
use blockchain_tutorial.Fabric.Submission.{proposal, invoke_chaincode, instantiate_chaincode}
use blockchain_tutorial.Fabric.Submission.Safety.{OnlyEndorsed, submissions-OnlyEndorsed}
use blockchain_tutorial.Fabric.Submission.Confirmed.{invoke_confirmed, ConfirmedOrEmpty}
use blockchain_tutorial.Fabric.Queries
use blockchain_tutorial.Fabric.Queries.Peers.{asked, AsksBlock, block_asked_by_number}

abbrev alice : Option String
alice = some "alice"

abbrev org : Option String
org = some "Org1"

abbrev args : List String
args = "a" ∷ "b" ∷ "10" ∷ []

submissions-OnlyEndorsed_example :
    OnlyEndorsed (invoke_chaincode sdk none "mychannel" "mycc" "move" args alice org []).1
    × OnlyEndorsed
        (instantiate_chaincode sdk none "mychannel" "mycc" "v0"
          (some "init")
          (some "node")
          args
          alice
          org
          []).1
submissions-OnlyEndorsed_example =
    submissions-OnlyEndorsed sdk none "mychannel" "mycc" args alice org "move" "v0" (some "init")
      (some "node") [] tt

invoke_confirmed_example :
    ConfirmedOrEmpty sdk
      (proposal sdk none "mychannel" "mycc" "move" args "tx1")
      (invoke_chaincode sdk none "mychannel" "mycc" "move" args alice org []).1
unfolding invoke_chaincode all_good
invoke_confirmed_example =
    invoke_confirmed sdk none "mychannel" "mycc" "move" args alice org "tx1" []
      (invoke_chaincode sdk none "mychannel" "mycc" "move" args alice org []).1 refl

peer_decided :
    (k : ℕ) (a : String)
    → get_elem? ("peer0" ∷ []) k ≡ some a
    → Decisive k (answered (some "SUCCESS") ∷ at_hub 0 timer ∷ at_hub 0 (committed "VALID") ∷ [])
peer_decided zero a h = inr (inr (inl refl))
peer_decided (suc k) a h = cc

wait_settles_example :
    wait block_listener
      (answered (some "SUCCESS") ∷ at_hub 0 timer ∷ at_hub 0 (committed "VALID") ∷ [])
      (started ("peer0" ∷ []))
    ≢ pending
wait_settles_example =
    wait_settles block_listener ("peer0" ∷ [])
      (answered (some "SUCCESS") ∷ at_hub 0 timer ∷ at_hub 0 (committed "VALID") ∷ [])
      (λ code e. cc) peer_decided (inl tt)

abbrev reported : Promises
reported = record {
  hubs =
      record {
        timer_runs = false;
        listening = false;
        disconnected = true;
        result = fulfilled (some "The invoke chaincode transaction was valid.");
      }
      ∷ [];
  order = fulfilled (some "SUCCESS");
}

wait_reports_example :
    ((i : ℕ)
      → i < length {A = String} ("peer0" ∷ [])
      → ReportsValid i (at_hub 0 (committed "VALID") ∷ answered (some "SUCCESS") ∷ []))
    × ((r : Option String)
        → reported.order ≡ fulfilled r
        → Occurs (answered r) (at_hub 0 (committed "VALID") ∷ answered (some "SUCCESS") ∷ []))
unfolding wait
wait_reports_example =
    wait_reports "invoke chaincode" ("peer0" ∷ [])
      (at_hub 0 (committed "VALID") ∷ answered (some "SUCCESS") ∷ []) reported refl

abbrev bundle : Package
bundle = record {
  targets = "peer0" ∷ [];
  chaincode_id = "mycc";
  chaincode_path = "github.com/example_cc/node";
  chaincode_version = "v0";
  chaincode_type = "node";
}

join_succeeds_example :
    AllJoined sdk "mychannel" ("peer0" ∷ []) alice org
    ⊎ ((try_join sdk "mychannel" ("peer0" ∷ []) alice org []).0 ≡ throw (thrown ""))
unfolding join_channel open_channel join_error
join_succeeds_example =
    join_succeeds sdk "mychannel" ("peer0" ∷ []) alice org
      "Successfully joined peers in organization Org1 to the channel:mychannel" []
      (join_channel sdk "mychannel" ("peer0" ∷ []) alice org []).1 refl

block_asked_by_number_example :
    let opened = open_channel sdk org alice (some "mychannel") [] in
    (Queries.get_block_by_number sdk (some "peer0.org1.example.com") "mychannel" "12" alice org []
      ≡ asked sdk (int (pos 12)) opened.0 opened.1)
    × All
        (AsksBlock (int (pos 12)))
        (Queries.get_block_by_number sdk
          (some "peer0.org1.example.com")
          "mychannel"
          "12"
          alice
          org
          []).1
unfolding radix_of to_string
block_asked_by_number_example =
    block_asked_by_number sdk (some "peer0.org1.example.com") "mychannel" "12" alice org (pos 12) []
      refl refl (omega arith) tt

create_succeeds_example :
    ((s : String)
      → (create_channel sdk "mychannel" "path" alice org []).0 ≡ ok s
      → WasCreated sdk "mychannel")
    × ((e : Exception)
        → (create_channel sdk "mychannel" "path" alice org []).0 ≡ throw e
        → (m : String) × (e ≡ error ("Failed to initialize the channel: " ++ m)))
create_succeeds_example = create_succeeds sdk "mychannel" "path" alice org []

registration_succeeds_example : WasEnrolled sdk "alice" "Org1"
unfolding get_registered_user
registration_succeeds_example =
    registration_succeeds sdk "alice" "Org1" (some "secret") "alice enrolled Successfully" [] refl

instantiate_confirmed_example :
    ((tx : String) × IsInstantiated sdk
        (instantiation sdk none "mycc" "v0" (some "init") (some "node") args tx)
        (instantiate_chaincode sdk none "mychannel" "mycc" "v0"
          (some "init")
          (some "node")
          args
          alice
          org
          []).1)
    ⊎ EmptyThrown sdk none "mychannel" "mycc" "v0" (some "init") (some "node") args alice org []
unfolding instantiate_chaincode all_good
instantiate_confirmed_example =
    instantiate_confirmed sdk none "mychannel" "mycc" "v0" (some "init") (some "node") args alice
      org "Successfully instantiate chaincode in organization Org1 to the channel 'mychannel'" []
      (instantiate_chaincode sdk none "mychannel" "mycc" "v0" (some "init") (some "node") args alice
        org []).1
      refl
