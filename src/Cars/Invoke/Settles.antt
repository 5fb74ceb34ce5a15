-- ===== src/Cars/Invoke/Settles.antt =====
-- The race of `invoke.js` ends.
use Prim.Native.String.{◌++◌}
use blockchain_tutorial.Prelude.{◌≡◌, ◌≢◌, ◌⊎◌, inl, inr, refl, true, List, [], ◌∷◌, String, arith}
use blockchain_tutorial.Js.{Exception, error, to_text, Outcome, pending}
use blockchain_tutorial.Fabric.Hubs.{
  Slot, waiting, fulfilled, rejected, Verdict, undecided, all_fulfilled, one_rejected, slot_verdict,
  both,
}
use blockchain_tutorial.Cars.{Occurrence, timer, committed, fault, answered, refused}
use blockchain_tutorial.Cars.Invoke.{Race, start, settled, react, verdict, conclude, wait}

abbrev pub HasTimer : List Occurrence → Type 0
HasTimer [] = ⊥
HasTimer (timer ∷ os) = Unit
HasTimer (committed c ∷ os) = HasTimer os
HasTimer (fault e ∷ os) = HasTimer os
HasTimer (answered s ∷ os) = HasTimer os
HasTimer (refused e ∷ os) = HasTimer os

abbrev pub Answered : List Occurrence → Type 0
Answered [] = ⊥
Answered (answered s ∷ os) = Unit
Answered (refused e ∷ os) = Unit
Answered (timer ∷ os) = Answered os
Answered (committed c ∷ os) = Answered os
Answered (fault e ∷ os) = Answered os

record IsReady (os : List Occurrence) (r : Race) : Type 0 where
  status_ready : (r.status ≢ waiting) ⊎ ((r.timer_runs ≡ true) × HasTimer os)
  order_ready : (r.order ≢ waiting) ⊎ Answered os

settled-ne-waiting : (old new : Slot String) → new ≢ waiting → settled old new ≢ waiting
settled-ne-waiting waiting new n = n
settled-ne-waiting (fulfilled a) new n = λ e. cc
settled-ne-waiting (rejected x) new n = λ e. cc

-- A promise that was settled, or is now, is not waiting.
settled-kept : (old new : Slot String) → old ≢ waiting → settled old new ≢ waiting
settled-kept waiting new n = absurd (n refl)
settled-kept (fulfilled a) new n = λ e. cc
settled-kept (rejected x) new n = λ e. cc

react-IsReady :
    (o : Occurrence) (os : List Occurrence) (r : Race) → IsReady (o ∷ os) r → IsReady os (react o r)
unfolding react
react-IsReady timer os r h = record {
  status_ready = ground (arith, h.status_ready, settled-ne-waiting r.status (fulfilled "TIMEOUT"));
  order_ready = ground (arith, h.order_ready);
}
react-IsReady (committed c) os r h = record {
  status_ready = ground (
    arith,
    h.status_ready,
    settled-ne-waiting r.status (fulfilled c),
    settled-kept r.status (fulfilled c),
  );
  order_ready = ground (arith, h.order_ready);
}
react-IsReady (fault x) os r h = record {
  status_ready = ground (
    arith,
    h.status_ready,
    settled-kept r.status (rejected (error ("eventhub出问题了 ::" ++ to_text x))),
  );
  order_ready = ground (arith, h.order_ready);
}
react-IsReady (answered s) os r h = record {
  status_ready = h.status_ready;
  order_ready = inl (settled-ne-waiting r.order (fulfilled s) (λ e. cc));
}
react-IsReady (refused x) os r h = record {
  status_ready = h.status_ready;
  order_ready = inl (settled-ne-waiting r.order (rejected x) (λ e. cc));
}

conclude-ne-pending :
    (v : Verdict) (r : Race) (rest : Outcome Exception Race)
    → (v ≡ undecided → rest ≢ pending)
    → conclude v r rest ≢ pending
conclude-ne-pending undecided r rest h = h refl
conclude-ne-pending all_fulfilled r rest h = λ e. cc
conclude-ne-pending (one_rejected x) r rest h = λ e. cc

both_decided :
    (o s : Slot String)
    → o ≢ waiting
    → s ≢ waiting
    → both (slot_verdict o) (slot_verdict s) ≢ undecided
both_decided o s a b = ground (arith, a, b)

decided : (r : Race) → r.order ≢ waiting → r.status ≢ waiting → verdict r ≢ undecided
decided r o s = both_decided r.order r.status o s

wait-IsReady : (os : List Occurrence) (r : Race) → IsReady os r → wait os r ≢ pending
unfolding wait
wait-IsReady [] r h = conclude-ne-pending (verdict r) r pending (λ open_still _.
    decided r (ground (arith, h.order_ready)) (ground (arith, h.status_ready)) open_still)
wait-IsReady (o ∷ os) r h =
    conclude-ne-pending (verdict r) r (wait os (react o r))
      (λ _. wait-IsReady os (react o r) (react-IsReady o os r h))

-- If the timer runs out at some time and the orderer answers or refuses at some time, the
-- promises of `invoke.js` settle, whatever the event hub does.
pub race_settles : (os : List Occurrence) → HasTimer os → Answered os → wait os start ≢ pending
race_settles os t a =
    wait-IsReady os start (record { status_ready = inr (refl, t); order_ready = inr a })
