-- ===== src/Fabric/Hubs.antt =====
-- The promises on the event hubs and `Promise.all` over them and the orderer's answer, as in
-- invokeChaincode, instantiateChaincode and updateAnchorPeers (balance-transfer/app).
-- What happens, and in which order, is a list of occurrences that the environment chooses.
pub mod Settled
pub mod Progress
pub mod Reports
use blockchain_tutorial.Prelude.{
  ℕ, zero, suc, Bool, true, false, Option, none, some, List, [], ◌∷◌, String, map, str_eq,
  if◌then◌else◌,
}
use Prim.Native.String.{◌++◌}
use blockchain_tutorial.Js.{Exception, error, Outcome, ok, throw, pending}
use blockchain_tutorial.Fabric.{
  HubEvent, timer, committed, fault, Occurrence, at_hub, answered, refused,
}

pub data Slot (A : Type 0) : Type 0 where
  waiting : Slot A
  fulfilled : A → Slot A
  rejected : Exception → Slot A

-- One hub: its timer, its registered listener and the promise. A fulfilled promise holds a text,
-- or `undefined`.
pub record Watch : Type 0 where
  pub timer_runs : Bool
  pub listening : Bool
  pub disconnected : Bool
  pub result : Slot (Option String)

-- `setTimeout`, `registerTxEvent` or `registerBlockEvent`, and `connect`
abbrev pub watch : String → Watch
watch _ = record { timer_runs = true; listening = true; disconnected = false; result = waiting }

-- What the listener's callback does with the promise.
abbrev pub Listener : Type 0
Listener = String → Slot (Option String)

abbrev pub tx_listener : String → Listener
tx_listener kind code =
    if str_eq code "VALID"
    then fulfilled (some ("The " ++ kind ++ " transaction was valid."))
    else rejected (error ("The " ++ kind ++ " transaction was invalid, code:" ++ code))

abbrev pub block_listener : Listener
block_listener _ = fulfilled none

-- The timer disconnects the hub and settles nothing. The listener is called once (`unregister`),
-- clears the timer, and the hub disconnects (`disconnect`).
pub react : Listener → HubEvent → Watch → Watch
react on_event timer w =
    if w.timer_runs then record w { timer_runs = false; disconnected = true } else w
react on_event (committed code) w =
    if w.listening
    then record {
      timer_runs = false;
      listening = false;
      disconnected = true;
      result = on_event code;
    }
    else w
react on_event (fault e) w =
    if w.listening
    then record { timer_runs = false; listening = false; disconnected = true; result = rejected e }
    else w

pub record Promises : Type 0 where
  pub hubs : List Watch
  pub order : Slot (Option String)

abbrev pub react_at : Listener → ℕ → HubEvent → List Watch → List Watch
react_at on_event i e [] = []
react_at on_event zero e (w ∷ ws) = react on_event e w ∷ ws
react_at on_event (suc i) e (w ∷ ws) = w ∷ react_at on_event i e ws

abbrev settle_order : Slot (Option String) → Slot (Option String) → Slot (Option String)
settle_order waiting s = s
settle_order (fulfilled a) s = fulfilled a
settle_order (rejected e) s = rejected e

pub step : Listener → Occurrence → Promises → Promises
unfolding react
step on_event (at_hub i e) p = record p { hubs = react_at on_event i e p.hubs }
step on_event (answered status) p = record p { order = settle_order p.order (fulfilled status) }
step on_event (refused e) p = record p { order = settle_order p.order (rejected e) }

-- Whether `Promise.all` is settled.
pub data Verdict : Type 0 where
  undecided all_fulfilled : Verdict
  one_rejected : Exception → Verdict

abbrev pub slot_verdict : {A : Type 0} → Slot A → Verdict
slot_verdict waiting = undecided
slot_verdict (fulfilled _) = all_fulfilled
slot_verdict (rejected e) = one_rejected e

abbrev pub both : Verdict → Verdict → Verdict
both (one_rejected e) _ = one_rejected e
both undecided (one_rejected e) = one_rejected e
both undecided _ = undecided
both all_fulfilled v = v

abbrev pub verdict_hubs : List Watch → Verdict → Verdict
verdict_hubs [] v = v
verdict_hubs (w ∷ ws) v = both (slot_verdict w.result) (verdict_hubs ws v)

abbrev pub verdict : Promises → Verdict
verdict p = verdict_hubs p.hubs (slot_verdict p.order)

abbrev pub conclude : Verdict → Promises → Outcome Exception Promises → Outcome Exception Promises
conclude undecided p rest = rest
conclude all_fulfilled p rest = ok p
conclude (one_rejected e) p rest = throw e

-- `await Promise.all(promises)`: it settles at the first moment at which all are fulfilled or one
-- is rejected, and stays pending where neither happens.
unfoldable pub wait : Listener → List Occurrence → Promises → Outcome Exception Promises
unfolding step
wait on_event [] p = conclude (verdict p) p pending
wait on_event (o ∷ os) p =
    let rest = wait on_event os (step on_event o p) in conclude (verdict p) p rest

abbrev pub started : List String → Promises
started addresses = record { hubs = map watch addresses; order = waiting }
