-- ===== src/Cars/Invoke.antt =====
-- 汽车项目/invoke.js: one proposal, the transaction, and the race of its event with a timer.
pub mod Confirmed
pub mod Settles
pub mod Submitted
use Prim.Native.String.{◌++◌}
use blockchain_tutorial.Prelude.{
  ℕ, Bool, true, false, ◌==◌, Option, none, some, List, [], ◌∷◌, String, str_eq, if◌then◌else◌,
}
use blockchain_tutorial.Js.{
  Exception, error, type_error, to_text, Outcome, ok, throw, pending, pure, raise, lift, catch,
  ◌>>=◌, ◌>>◌,
}
use blockchain_tutorial.Fabric.Hubs.{
  Slot, waiting, fulfilled, rejected, Verdict, undecided, all_fulfilled, one_rejected, slot_verdict,
  both,
}
use blockchain_tutorial.Cars.{
  Sdk, Action, call, open_store, get_user_context, new_transaction, send_proposal, send_transaction,
  await_all, Occurrence, timer, committed, fault, answered, refused, member,
}
use blockchain_tutorial.Cars.Users.{need_enrolled}

-- The timer, the registered listener, and the two promises: of the orderer and of the event.
pub record Race : Type 0 where
  pub timer_runs : Bool
  pub listening : Bool
  pub order : Slot String
  pub status : Slot String

abbrev pub start : Race
start = record { timer_runs = true; listening = true; order = waiting; status = waiting }

-- A promise is settled once.
abbrev pub settled : Slot String → Slot String → Slot String
settled waiting s = s
settled (fulfilled a) s = fulfilled a
settled (rejected e) s = rejected e

-- The timer takes the listener away and resolves with TIMEOUT. The event clears the timer and
-- resolves with its code. The error callback leaves the timer running.
pub react : Occurrence → Race → Race
react timer r =
    if r.timer_runs
    then record r {
      timer_runs = false;
      listening = false;
      status = settled r.status (fulfilled "TIMEOUT");
    }
    else r
react (committed code) r =
    if r.listening
    then record r {
      timer_runs = false;
      listening = false;
      status = settled r.status (fulfilled code);
    }
    else r
react (fault e) r =
    if r.listening
    then record r {
      listening = false;
      status = settled r.status (rejected (error ("eventhub出问题了 ::" ++ to_text e)));
    }
    else r
react (answered s) r = record r { order = settled r.order (fulfilled s) }
react (refused e) r = record r { order = settled r.order (rejected e) }

abbrev pub verdict : Race → Verdict
verdict r = both (slot_verdict r.order) (slot_verdict r.status)

abbrev pub conclude : Verdict → Race → Outcome Exception Race → Outcome Exception Race
conclude undecided r rest = rest
conclude all_fulfilled r rest = ok r
conclude (one_rejected e) r rest = throw e

-- `Promise.all([sendPromise, txPromise])`
unfoldable pub wait : List Occurrence → Race → Outcome Exception Race
unfolding react
wait [] r = conclude (verdict r) r pending
wait (o ∷ os) r = let rest = wait os (react o r) in conclude (verdict r) r rest

-- What the script prints at its end: whether the transaction was ordered and committed, or else
-- the codes; or the error.
pub data Report : Type 0 where
  finished : Bool → Bool → Report
  failed : String → Report

abbrev pub value : Slot String → String
value waiting = "undefined"
value (fulfilled s) = s
value (rejected e) = "undefined"

abbrev pub report : Race → Report
report r = finished (str_eq (value r.order) "SUCCESS") (str_eq (value r.status) "VALID")

-- `proposalResponses && proposalResponses[0].response && proposalResponses[0].response.status ===
-- 200`
abbrev pub first_good : Option (List (Option ℕ)) → Action (List (Option ℕ))
first_good none = raise (error "发送交易失败. Response null or status is not 200. exiting...")
first_good (some []) = raise (type_error "Cannot read property 'response' of undefined")
first_good (some (none ∷ rs)) =
    raise (error "发送交易失败. Response null or status is not 200. exiting...")
first_good (some (some s ∷ rs)) =
    if s == 200
    then pure (some s ∷ rs)
    else raise (error "发送交易失败. Response null or status is not 200. exiting...")

module _ (sdk : Sdk) where
  -- The chain before its `catch`.
  unfoldable pub try_invoke : Action Report
  unfolding wait
  try_invoke = do
    call sdk open_store
    found ← call sdk (get_user_context member)
    need_enrolled sdk "获取用户zuoyuan失败.... 运行registerUser.js" found
    tx ← call sdk new_transaction
    responses ← call sdk (send_proposal tx)
    good ← first_good responses
    call sdk (send_transaction tx good)
    occurrences ← call sdk await_all
    ended ← lift (wait occurrences start)
    pure (report ended)

  unfoldable pub invoke : Action Report
  unfolding try_invoke
  invoke = catch try_invoke (λ e. pure (failed (to_text e)))
