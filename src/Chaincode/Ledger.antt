-- ===== src/Chaincode/Ledger.antt =====
-- The ledger after a transaction whose writes are committed: of each key the latest write counts.
use blockchain_tutorial.Prelude.{
  ◌≡◌, ◌↔◌, refl, true, Option, none, some, List, [], ◌∷◌, arith, if◌then◌else◌,
}
use blockchain_tutorial.Js.{ok}
use blockchain_tutorial.Js.Number.{Text, Number, nan, int, parse_int}
use blockchain_tutorial.Js.Int.{ℤ}
use blockchain_tutorial.Chaincode.{Write, put_state, delete_state, Stub, text_eq}

abbrev pub Ledger : Type 0
Ledger = Text → Option Text

-- The writes are listed latest first.
abbrev pub after : List Write → Ledger → Ledger
after [] db k = db k
after (put_state j v ∷ ws) db k = if text_eq j k then some v else after ws db k
after (delete_state j ∷ ws) db k = if text_eq j k then none else after ws db k

pub text_eq_refl : (s : Text) → text_eq s s ≡ true
text_eq_refl [] = refl
text_eq_refl (c ∷ s) = ground (arith, text_eq_refl s)

eq_of_text_eq : (s t : Text) → text_eq s t ≡ true → s ≡ t
eq_of_text_eq [] [] h = refl
eq_of_text_eq [] (d ∷ t) h = cc
eq_of_text_eq (c ∷ s) [] h = cc
eq_of_text_eq (c ∷ s) (d ∷ t) h = ground (arith, eq_of_text_eq s t)

pub text_eq_iff : (s t : Text) → (text_eq s t ≡ true) ↔ (s ≡ t)
text_eq_iff s t = (eq_of_text_eq s t, λ e. rw (← e) (text_eq_refl s))

-- The number that is stored for a holder.
abbrev pub stored : Option Text → Number
stored none = nan
stored (some v) = parse_int v

abbrev pub holding : Ledger → Text → Number
holding db k = stored (db k)

pub stored-int :
    (o : Option Text) (m : ℤ) → stored o ≡ int m → (v : Text) × (o ≡ some v) × (parse_int v ≡ int m)
stored-int none m h = cc
stored-int (some v) m h = (v, refl, h)

-- What the code relies on of a peer: reads come from the ledger, and writes are accepted.
pub record Serves (stub : Stub) (db : Ledger) : Type 0 where
  pub reads : (k : Text) → stub.get_state k ≡ ok (db k)
  pub writes : (w : Write) → stub.accepts w ≡ ok tt
