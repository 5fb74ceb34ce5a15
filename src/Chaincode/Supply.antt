-- ===== src/Chaincode/Supply.antt =====
-- The balances of all holders together, over the transfers that are committed.
use blockchain_tutorial.Prelude.{
  ℕ, ◌+◌, ◌≡◌, ◌≢◌, refl, sym, ap, ◌∙◌, true, false, List, [], ◌∷◌, arith, All, if◌then◌else◌,
  Bool-cases, inl, inr,
}
use mathlib.Core.Path.{subst}
use blockchain_tutorial.Js.Int.{
  ℤ, pos, pos_part, neg_part, ◌+ℤ◌, ◌-ℤ◌, +ℤ_parts, -ℤ_parts, eq_of_parts,
}
use blockchain_tutorial.Js.Number.{Text, Number, nan, int, parse_int, IsSafe}
use blockchain_tutorial.Chaincode.{Stub, move, text_eq, contains}
use blockchain_tutorial.Chaincode.Ledger.{Ledger, after, stored, holding, Serves, text_eq_iff}
use blockchain_tutorial.Chaincode.Moves.{move_transfers}

-- A whole number; NaN counts as 0.
abbrev pub whole : Number → ℤ
whole nan = pos 0
whole (int n) = n

abbrev pub balance : Ledger → Text → ℤ
balance db k = whole (holding db k)

abbrev pub total : (Text → ℤ) → List Text → ℤ
total f [] = pos 0
total f (k ∷ ks) = f k +ℤ total f ks

abbrev pub AllDistinct : List Text → Type 0
AllDistinct [] = Unit
AllDistinct (k ∷ ks) = (contains k ks ≡ false) × AllDistinct ks

-- Each holder has a name and a whole balance.
abbrev pub IsHolder : Ledger → Text → Type 0
IsHolder db k = (k ≢ []) × (holding db k ≢ nan)

-- The ledgers that committed transfers lead to, from one on: each is between two different
-- holders, of a whole amount, at a peer that serves the ledger, with numbers in the range in which
-- doubles are exact.
pub data Runs (holders : List Text) (first : Ledger) : Ledger → Type 0 where
  started : Runs holders first first
  moved :
      (stub : Stub) (db : Ledger) (a b x : Text)
      → Runs holders first db
      → Serves stub db
      → contains a holders ≡ true
      → contains b holders ≡ true
      → a ≢ b
      → parse_int x ≢ nan
      → IsSafe (balance db a)
        × IsSafe (balance db b)
        × IsSafe (whole (parse_int x))
        × IsSafe (balance db a -ℤ whole (parse_int x))
        × IsSafe (balance db b +ℤ whole (parse_int x))
      → Runs holders first (after (move stub (a ∷ b ∷ x ∷ []) []).1 db)

sum : (Text → ℕ) → List Text → ℕ
sum f [] = 0
sum f (k ∷ ks) = f k + sum f ks

total_parts :
    (f : Text → ℤ) (ks : List Text)
    → pos_part (total f ks) + sum (λ k. neg_part (f k)) ks
      ≡ neg_part (total f ks) + sum (λ k. pos_part (f k)) ks
unfolding sum
total_parts f [] = omega arith
total_parts f (k ∷ ks) = omega (arith, +ℤ_parts (f k) (total f ks), total_parts f ks)

other_key : (a k : Text) → text_eq a k ≡ false → k ≢ a
other_key a k e p = let equal = (text_eq_iff a k).1 (sym p) in cc

same_key : (k a : Text) → text_eq k a ≡ false → k ≢ a
same_key k a e p = let equal = (text_eq_iff k a).1 p in cc

differ : (k a : Text) → k ≢ a → text_eq k a ≡ false
differ k a p = elim (Bool-cases (text_eq k a)) [
  | inl e ↦ absurd (p ((text_eq_iff k a).0 e))
  | inr e ↦ e
]

-- Two functions that agree but at one key.
sum_same :
    (f g : Text → ℕ) (a : Text) (ks : List Text)
    → ((k : Text) → k ≢ a → f k ≡ g k)
    → contains a ks ≡ false
    → sum f ks ≡ sum g ks
unfolding sum
sum_same f g a [] h m = refl
sum_same f g a (k ∷ ks) h m = elim (Bool-cases (text_eq a k)) [
  | inl e ↦ let no_way = rw e at m in cc
  | inr e ↦
      let rest = sum_same f g a ks h (rw e at m) in let here = h k (other_key a k e) in omega arith
]

sum_change :
    (f g : Text → ℕ) (a : Text) (ks : List Text)
    → ((k : Text) → k ≢ a → f k ≡ g k)
    → contains a ks ≡ true
    → AllDistinct ks
    → sum f ks + g a ≡ sum g ks + f a
unfolding sum
sum_change f g a [] h m d = cc
sum_change f g a (k ∷ ks) h m (out, d) = elim (Bool-cases (text_eq a k)) [
  | inl e ↦
      let same = (text_eq_iff a k).0 e in
      let rest = sum_same f g k ks (λ j p. h j (λ q. p (q ∙ same))) out in
      omega (arith, ap f same, ap g same)
  | inr e ↦
      let rest = sum_change f g a ks h (rw e at m) d in
      let here = h k (other_key a k e) in omega arith
]

-- Where one key has lost what another has gained, and no other has changed, the sum is the same.
sum_exchange :
    (f g : Text → ℕ) (a b : Text) (ks : List Text)
    → ((k : Text) → k ≢ a → k ≢ b → f k ≡ g k)
    → a ≢ b
    → contains a ks ≡ true
    → contains b ks ≡ true
    → AllDistinct ks
    → sum f ks + g a + g b ≡ sum g ks + f a + f b
sum_exchange f g a b ks h ne ha hb d =
    let between = λ (k : Text). if text_eq k a then g k else f k in
    let at_a : between a ≡ g a = rw ((text_eq_iff a a).1 refl) refl in
    let at_b : between b ≡ f b = rw (differ b a (λ p. ne (sym p))) refl in
    let first = sum_change f between a ks (λ k p. rw (differ k a p) refl) ha d in
    let second =
      sum_change between g b ks
        (λ k p. elim (Bool-cases (text_eq k a)) [
          | inl e ↦ rw e refl
          | inr e ↦ rw e (h k (same_key k a e) p)
        ])
        hb d in
    omega arith

All-contains {κ} :
    (P : Text → Type κ) (a : Text) (ks : List Text) → All P ks → contains a ks ≡ true → P a
All-contains P a [] h m = cc
All-contains P a (k ∷ ks) (p, h) m = elim (Bool-cases (text_eq a k)) [
  | inl e ↦ subst P (sym ((text_eq_iff a k).0 e)) p
  | inr e ↦ All-contains P a ks h (rw e at m)
]

All-weaken {κ} :
    (P Q : Text → Type κ) (ks : List Text) → ((k : Text) → P k → Q k) → All P ks → All Q ks
All-weaken P Q [] f h = tt
All-weaken P Q (k ∷ ks) f (p, h) = (f k p, All-weaken P Q ks f h)

int-whole : (n : Number) → n ≢ nan → n ≡ int (whole n)
int-whole nan h = absurd (h refl)
int-whole (int n) h = refl

int-ne-nan : (n : Number) (m : ℤ) → n ≡ int m → n ≢ nan
int-ne-nan n m e f = cc

-- What a transfer does to the ledger, by the theorem about `move`.
module _ (db later : Ledger) (a b : Text) (m n d : ℤ) (at_a : holding later a ≡ int (m -ℤ d))
    (at_b : holding later b ≡ int (n +ℤ d))
    (others : (k : Text) → k ≢ a → k ≢ b → later k ≡ db k) where
  IsHolder-kept : (k : Text) → IsHolder db k → IsHolder later k
  IsHolder-kept k (named, whole_k) = (
    named,
    elim (Bool-cases (text_eq k a)) [
      | inl e ↦ int-ne-nan _ (m -ℤ d) (ap (holding later) ((text_eq_iff k a).0 e) ∙ at_a)
      | inr e ↦ elim (Bool-cases (text_eq k b)) [
        | inl f ↦ int-ne-nan _ (n +ℤ d) (ap (holding later) ((text_eq_iff k b).0 f) ∙ at_b)
        | inr f ↦
            λ nan_k. whole_k (ap stored (sym (others k (same_key k a e) (same_key k b f))) ∙ nan_k)
      ]
    ],
  )

  total_kept :
      (ks : List Text)
      → holding db a ≡ int m
      → holding db b ≡ int n
      → a ≢ b
      → contains a ks ≡ true
      → contains b ks ≡ true
      → AllDistinct ks
      → total (balance later) ks ≡ total (balance db) ks
  total_kept ks ea eb ne ha hb distinct =
      let plus =
        sum_exchange (λ k. pos_part (balance db k)) (λ k. pos_part (balance later k)) a b ks
          (λ k p q. ap (λ o. pos_part (whole (stored o))) (sym (others k p q))) ne ha hb distinct in
      let minus =
        sum_exchange (λ k. neg_part (balance db k)) (λ k. neg_part (balance later k)) a b ks
          (λ k p q. ap (λ o. neg_part (whole (stored o))) (sym (others k p q))) ne ha hb distinct in
      let a' : balance later a ≡ m -ℤ d = ap whole at_a in
      let b' : balance later b ≡ n +ℤ d = ap whole at_b in
      let a'' : balance db a ≡ m = ap whole ea in
      let b'' : balance db b ≡ n = ap whole eb in
      eq_of_parts (total (balance later) ks) (total (balance db) ks) (
        omega (
          arith,
          total_parts (balance later) ks,
          total_parts (balance db) ks,
          ap pos_part a',
          ap neg_part a',
          ap pos_part b',
          ap neg_part b',
          ap pos_part a'',
          ap neg_part a'',
          ap pos_part b'',
          ap neg_part b'',
          -ℤ_parts m d,
          +ℤ_parts n d,
        ))

-- From a ledger in which each of the holders has a name and a whole balance, and after any number
-- of committed transfers of whole amounts between different holders, at peers that serve the
-- ledger and with numbers in the range in which doubles are exact: each holder has a whole balance
-- still, and the balances make up the same sum.
pub supply_kept :
    (holders : List Text) (first : Ledger) {db : Ledger}
    → AllDistinct holders
    → All (IsHolder first) holders
    → Runs holders first db
    → All (IsHolder db) holders × (total (balance db) holders ≡ total (balance first) holders)
supply_kept holders first distinct h started = (h, refl)
supply_kept holders first distinct h (moved stub db a b x runs peer ha hb ne ex safe) =
    let (kept, same) = supply_kept holders first distinct h runs in
    let (na, wa) = All-contains (IsHolder db) a holders kept ha in
    let (nb, wb) = All-contains (IsHolder db) b holders kept hb in
    let m = balance db a in
    let n = balance db b in
    let d = whole (parse_int x) in
    let later = after (move stub (a ∷ b ∷ x ∷ []) []).1 db in
    let ea = int-whole (holding db a) wa in
    let eb = int-whole (holding db b) wb in
    let (_, at_a, at_b, others) =
      move_transfers stub db peer a b x m n d na nb ne ea eb (int-whole (parse_int x) ex) safe in
    (
      All-weaken (IsHolder db) (IsHolder later) holders
          (IsHolder-kept db later a b m n d at_a at_b others) kept,
      total_kept db later a b m n d at_a at_b others holders ea eb ne ha hb distinct ∙ same,
    )
