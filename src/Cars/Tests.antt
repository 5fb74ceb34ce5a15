-- ===== src/Cars/Tests.antt =====
-- The theorems about the scripts at an SDK that answers every call well.
use blockchain_tutorial.Prelude.{◌≢◌, refl, some, true, false, List, [], ◌∷◌}
use blockchain_tutorial.Js.{Exception, Outcome, ok, pending}
use blockchain_tutorial.Fabric.Hubs.{fulfilled}
use blockchain_tutorial.Cars.{
  User, timer, committed, answered, bytes, Call, Answer, Sdk, open_store, get_user_context, enroll,
  register, create_user, set_user_context, new_transaction, send_proposal, send_transaction,
  await_all, query_all_cars,
}
use blockchain_tutorial.Cars.Users.{register_user}
use blockchain_tutorial.Cars.Users.Registered.{IsRegistered, register_confirmed}
use blockchain_tutorial.Cars.Invoke.{Race, start, wait}
use blockchain_tutorial.Cars.Invoke.{invoke}
use blockchain_tutorial.Cars.Invoke.Submitted.{IsSubmitted, invoke-IsSubmitted}
use blockchain_tutorial.Cars.Invoke.Settles.{race_settles}

abbrev user : User
user = record { is_enrolled = true }

abbrev respond : List Call → (c : Call) → Outcome Exception (Answer c)
respond t open_store = ok tt
respond t (get_user_context _) = ok (some user)
respond t (enroll _ _) = ok "enrollment"
respond t (register _) = ok "secret"
respond t (create_user _ _) = ok user
respond t (set_user_context _) = ok tt
respond t new_transaction = ok "tx1"
respond t (send_proposal _) = ok (some (some 200 ∷ []))
respond t (send_transaction _ _) = ok tt
respond t await_all = ok (answered "SUCCESS" ∷ committed "VALID" ∷ [])
respond t query_all_cars = ok (some (bytes "[]" ∷ []))

abbrev sdk : Sdk
sdk = record { answer = respond }

register_confirmed_example : IsRegistered sdk
unfolding register_user
register_confirmed_example = register_confirmed sdk [] (register_user sdk []).1 refl

abbrev ended : Race
ended = record {
  timer_runs = false;
  listening = false;
  order = fulfilled "SUCCESS";
  status = fulfilled "VALID";
}

race_settles_example : wait (timer ∷ answered "SUCCESS" ∷ []) start ≢ pending
race_settles_example = race_settles (timer ∷ answered "SUCCESS" ∷ []) tt tt

invoke-IsSubmitted_example : IsSubmitted sdk
unfolding invoke
invoke-IsSubmitted_example = invoke-IsSubmitted sdk [] refl
