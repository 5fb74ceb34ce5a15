-- ===== src/Chaincode/Moves.antt =====
-- What a transfer does to the ledger.
use blockchain_tutorial.Prelude.{◌≡◌, ◌≢◌, refl, some, [], ◌∷◌, arith}
use blockchain_tutorial.Js.{ok}
use blockchain_tutorial.Js.Int.{ℤ, ◌+ℤ◌, ◌-ℤ◌}
use blockchain_tutorial.Js.Number.{
  Text, Number, nan, int, codes, parse_int, to_string, IsSafe, sub_number, add_number,
}
use blockchain_tutorial.Js.Number.RoundTrip.{parse_int-to_string}
use blockchain_tutorial.Chaincode.{Stub, put_state, move}
use blockchain_tutorial.Chaincode.Ledger.{Ledger, after, holding, stored-int, Serves, text_eq_iff}

sub_nan : (n : Number) → sub_number n nan ≡ nan
sub_nan nan = refl
sub_nan (int a) = refl

add_nan : (n : Number) → add_number n nan ≡ nan
add_nan nan = refl
add_nan (int a) = refl

module _ (stub : Stub) (db : Ledger) (peer : Serves stub db) where
  move_writes :
      (a b x u v : Text) (m n d : ℤ)
      → a ≢ []
      → b ≢ []
      → db a ≡ some u
      → db b ≡ some v
      → parse_int u ≡ int m
      → parse_int v ≡ int n
      → parse_int x ≡ int d
      → move stub (a ∷ b ∷ x ∷ []) [] ≡ (
        ok tt,
        put_state b (to_string (int (n +ℤ d))) ∷ put_state a (to_string (int (m -ℤ d))) ∷ [],
      )
  unfolding move
  move_writes [] b x u v m n d ha hb ea eb eu ev ex = absurd (ha refl)
  move_writes (c ∷ a) [] x u v m n d ha hb ea eb eu ev ex = absurd (hb refl)
  move_writes (c ∷ a) (c' ∷ b) x u v m n d ha hb ea eb eu ev ex = ground (
    arith,
    peer.reads (c ∷ a),
    peer.reads (c' ∷ b),
    peer.writes (put_state (c ∷ a) (to_string (int (m -ℤ d)))),
    peer.writes (put_state (c' ∷ b) (to_string (int (n +ℤ d)))),
  )

module _ (stub : Stub) (db : Ledger) (peer : Serves stub db) (a b x : Text) (m n d : ℤ) where
  abbrev moved : Ledger
  moved = after (move stub (a ∷ b ∷ x ∷ []) []).1 db

  -- At a peer that serves the ledger, between two different holders with names and whole balances,
  -- a transfer takes a whole amount from the first and gives it to the second, and leaves every
  -- other key as it was. All numbers are in the range in which doubles are exact.
  pub move_transfers :
      a ≢ []
      → b ≢ []
      → a ≢ b
      → holding db a ≡ int m
      → holding db b ≡ int n
      → parse_int x ≡ int d
      → IsSafe m × IsSafe n × IsSafe d × IsSafe (m -ℤ d) × IsSafe (n +ℤ d)
      → ((move stub (a ∷ b ∷ x ∷ []) []).0 ≡ ok tt)
        × (holding moved a ≡ int (m -ℤ d))
        × (holding moved b ≡ int (n +ℤ d))
        × ((k : Text) → k ≢ a → k ≢ b → moved k ≡ db k)
  move_transfers ha hb ne ea eb ex safe =
      let (u, fa, pa) = stored-int (db a) m ea in
      let (v, fb, pb) = stored-int (db b) n eb in
      rw (move_writes stub db peer a b x u v m n d ha hb fa fb pa pb ex) (
        refl,
        ground (arith, text_eq_iff b a, text_eq_iff a a, parse_int-to_string (m -ℤ d)),
        ground (arith, text_eq_iff b b, parse_int-to_string (n +ℤ d)),
        λ k ka kb. ground (arith, text_eq_iff b k, text_eq_iff a k),
      )

module _ (stub : Stub) (db : Ledger) (peer : Serves stub db) where
  -- At a peer that serves the ledger, a transfer of a whole amount from a holder with a whole
  -- balance to itself adds the amount, in the range in which doubles are exact, since the second
  -- write is of the balance read before the first.
  move_self :
      (a x : Text) (m d : ℤ)
      → a ≢ []
      → holding db a ≡ int m
      → parse_int x ≡ int d
      → IsSafe m × IsSafe d × IsSafe (m -ℤ d) × IsSafe (m +ℤ d)
      → holding (after (move stub (a ∷ a ∷ x ∷ []) []).1 db) a ≡ int (m +ℤ d)
  move_self a x m d ha ea ex safe =
      let (u, fa, pa) = stored-int (db a) m ea in
      rw (move_writes stub db peer a a x u u m m d ha ha fa fa pa pa ex)
        (ground (arith, text_eq_iff a a, parse_int-to_string (m +ℤ d)))

  move_writes_nan :
      (a b x u v : Text)
      → a ≢ []
      → b ≢ []
      → db a ≡ some u
      → db b ≡ some v
      → parse_int x ≡ nan
      → move stub (a ∷ b ∷ x ∷ []) []
        ≡ (ok tt, put_state b (codes "NaN") ∷ put_state a (codes "NaN") ∷ [])
  unfolding move to_string
  move_writes_nan [] b x u v ha hb ea eb ex = absurd (ha refl)
  move_writes_nan (c ∷ a) [] x u v ha hb ea eb ex = absurd (hb refl)
  move_writes_nan (c ∷ a) (c' ∷ b) x u v ha hb ea eb ex = ground (
    arith,
    peer.reads (c ∷ a),
    peer.reads (c' ∷ b),
    peer.writes (put_state (c ∷ a) (codes "NaN")),
    peer.writes (put_state (c' ∷ b) (codes "NaN")),
    sub_nan (parse_int u),
    add_nan (parse_int v),
  )

  -- At a peer that serves the ledger, an amount that is not a number is not refused: the transfer
  -- between two holders that are known succeeds and the balances of both
  -- holders are overwritten by the text NaN, whatever they were.
  pub move_nan :
      (a b x u v : Text)
      → a ≢ []
      → b ≢ []
      → db a ≡ some u
      → db b ≡ some v
      → parse_int x ≡ nan
      → let (r, ws) = move stub (a ∷ b ∷ x ∷ []) [] in
        (r ≡ ok tt) × (after ws db a ≡ some (codes "NaN")) × (after ws db b ≡ some (codes "NaN"))
  move_nan a b x u v ha hb ea eb ex =
      rw (move_writes_nan a b x u v ha hb ea eb ex)
        (refl, ground (arith, text_eq_iff a a, text_eq_iff b a), ground (arith, text_eq_iff b b))
