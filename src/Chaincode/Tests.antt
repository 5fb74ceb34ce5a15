-- ===== src/Chaincode/Tests.antt =====
-- A small ledger, and the theorems about the chaincode at it.
use mathlib.Core.Bool.{false≢true}
use blockchain_tutorial.Prelude.{◌≡◌, ◌≢◌, ◌⊎◌, refl, some, none, [], ◌∷◌, arith, if◌then◌else◌}
use blockchain_tutorial.Js.{ok}
use blockchain_tutorial.Js.Int.{pos, ◌-ℤ◌, ◌+ℤ◌}
use blockchain_tutorial.Js.Number.{Text, int, codes, parse_int}
use blockchain_tutorial.Chaincode.{Stub, move, text_eq}
use blockchain_tutorial.Chaincode.Ledger.{Ledger, after, holding, Serves, text_eq_iff}
use blockchain_tutorial.Chaincode.Moves.{move_transfers, move_nan}
use blockchain_tutorial.Chaincode.Supply.{
  total, balance, IsHolder, Runs, started, moved, supply_kept,
}
use blockchain_tutorial.Prelude.{All}
use blockchain_tutorial.Chaincode.Dispatch.{move_atomic}

abbrev alice : Text
alice = codes "alice"

abbrev bob : Text
bob = codes "bob"

abbrev carol : Text
carol = codes "carol"

abbrev ledger : Ledger
ledger k =
    if text_eq k alice
    then some (codes "100")
    else if text_eq k bob
    then some (codes "20")
    else none

abbrev stub : Stub
stub = record { get_state = λ k. ok (ledger k); accepts = λ w. ok tt }

abbrev served : Serves stub ledger
served = record { reads = λ k. refl; writes = λ w. refl }

alice_named : alice ≢ []
alice_named e = cc

bob_named : bob ≢ []
bob_named e = cc

alice_other : alice ≢ bob
alice_other e = false≢true ((text_eq_iff alice bob).1 e)

carol-alice : carol ≢ alice
carol-alice e = false≢true ((text_eq_iff carol alice).1 e)

carol-bob : carol ≢ bob
carol-bob e = false≢true ((text_eq_iff carol bob).1 e)

move_transfers_example :
    let ws = (move stub (alice ∷ bob ∷ codes "30" ∷ []) []).1 in
    ((move stub (alice ∷ bob ∷ codes "30" ∷ []) []).0 ≡ ok tt)
    × (holding (after ws ledger) alice ≡ int (pos 70))
    × (holding (after ws ledger) bob ≡ int (pos 50))
    × ((k : Text) → k ≢ alice → k ≢ bob → after ws ledger k ≡ ledger k)
unfolding parse_int ◌-ℤ◌ ◌+ℤ◌
move_transfers_example =
    move_transfers stub ledger served alice bob (codes "30") (pos 100) (pos 20) (pos 30) alice_named
      bob_named alice_other refl refl refl
      (omega arith, omega arith, omega arith, omega arith, omega arith)

move_nan_example :
    let (r, ws) = move stub (alice ∷ bob ∷ codes "x" ∷ []) [] in
    (r ≡ ok tt)
    × (after ws ledger alice ≡ some (codes "NaN"))
    × (after ws ledger bob ≡ some (codes "NaN"))
unfolding parse_int
move_nan_example =
    move_nan stub ledger served alice bob (codes "x") (codes "100") (codes "20") alice_named
      bob_named refl refl refl

move_atomic_example :
    ((move stub (alice ∷ carol ∷ codes "30" ∷ []) []).0 ≡ ok tt)
    ⊎ ((move stub (alice ∷ carol ∷ codes "30" ∷ []) []).1 ≡ [])
move_atomic_example = move_atomic stub ledger served (alice ∷ carol ∷ codes "30" ∷ [])

abbrev paid : Ledger
paid = after (move stub (alice ∷ bob ∷ codes "30" ∷ []) []).1 ledger

one_run : Runs (alice ∷ bob ∷ []) ledger paid
unfolding parse_int ◌-ℤ◌ ◌+ℤ◌
one_run =
    moved stub ledger alice bob (codes "30") started served refl refl alice_other (λ e. cc)
      (omega arith, omega arith, omega arith, omega arith, omega arith)

supply_kept_example :
    All (IsHolder paid) (alice ∷ bob ∷ [])
    × (total (balance paid) (alice ∷ bob ∷ []) ≡ total (balance ledger) (alice ∷ bob ∷ []))
unfolding parse_int
supply_kept_example =
    supply_kept (alice ∷ bob ∷ []) ledger (refl, (refl, tt))
      ((alice_named, λ e. cc), ((bob_named, λ e. cc), tt)) one_run
