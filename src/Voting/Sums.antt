-- ===== src/Voting/Sums.antt =====
-- Sums over the voters, and over what one voter has used.
use blockchain_tutorial.Prelude.{
  member, enlist, Distinct, ℕ, zero, suc, ◌+◌, ◌%◌, ◌≡◌, ◌≢◌, ◌≤◌, ◌<◌, refl, sym, ap, true, false,
  List, [], ◌∷◌, arith, ◌==◌, length, Bool-cases, inl, inr,
}
use blockchain_tutorial.Crowdfunding.{word}
use blockchain_tutorial.Voting.{used_from, total_used_tokens, zeros, add_at}

abbrev pub total : (ℕ → ℕ) → List ℕ → ℕ
total f [] = 0
total f (a ∷ as') = f a + total f as'

abbrev pub sum : List ℕ → ℕ
sum [] = 0
sum (n ∷ ns) = n + sum ns

abbrev pub nth : List ℕ → ℕ → ℕ
nth [] i = 0
nth (n ∷ ns) zero = n
nth (n ∷ ns) (suc i) = nth ns i

total_same :
    (f g : ℕ → ℕ) (a : ℕ) (who : List ℕ)
    → ((b : ℕ) → b ≢ a → g b ≡ f b)
    → member a who ≡ false
    → total g who ≡ total f who
total_same f g a [] h o = refl
total_same f g a (b ∷ bs) h o = ground (arith, h b, total_same f g a bs h)

total-member :
    (f g : ℕ → ℕ) (a : ℕ) (who : List ℕ)
    → ((b : ℕ) → b ≢ a → g b ≡ f b)
    → Distinct who
    → member a who ≡ true
    → total g who + f a ≡ total f who + g a
total-member f g a [] h d m = cc
total-member f g a (b ∷ bs) h d m = elim (Bool-cases (a == b)) [
  | inl own ↦
      let e : a ≡ b = ground arith in
      let out = rw (sym e) at d.0 in omega (arith, total_same f g a bs h out, ap f e, ap g e)
  | inr other ↦ omega (arith, h b (λ e. ground arith), total-member f g a bs h d.1 (ground arith))
]

-- A change at one voter changes the sum by as much.
pub total_changes :
    (f g : ℕ → ℕ) (a : ℕ) (who : List ℕ)
    → ((b : ℕ) → b ≢ a → g b ≡ f b)
    → Distinct who
    → (member a who ≡ false → f a ≡ 0)
    → total g (enlist a who) + f a ≡ total f who + g a
total_changes f g a who h d z = elim (Bool-cases (member a who)) [
  | inl old ↦ rw old (total-member f g a who h d old)
  | inr new ↦ rw new (omega (arith, total_same f g a who h new, z new))
]

pub total_mono : (f g : ℕ → ℕ) (who : List ℕ) → ((b : ℕ) → f b ≤ g b) → total f who ≤ total g who
total_mono f g [] h = omega arith
total_mono f g (a ∷ as') h = omega (arith, h a, total_mono f g as' h)

total_ge : (f : ℕ → ℕ) (a : ℕ) (who : List ℕ) → member a who ≡ true → f a ≤ total f who
total_ge f a [] m = cc
total_ge f a (b ∷ bs) m = elim (Bool-cases (a == b)) [
  | inl own ↦ let e : a ≡ b = ground arith in omega (arith, ap f e)
  | inr other ↦ omega (arith, total_ge f a bs (ground arith))
]

-- One voter has no more than all.
pub total_part :
    (f : ℕ → ℕ) (a : ℕ) (who : List ℕ) → (member a who ≡ false → f a ≡ 0) → f a ≤ total f who
total_part f a who z = elim (Bool-cases (member a who)) [
  | inl old ↦ total_ge f a who old
  | inr new ↦ omega (arith, z new)
]

pub nth_le : (ns : List ℕ) (i : ℕ) → nth ns i ≤ sum ns
nth_le [] i = omega arith
nth_le (n ∷ ns) zero = omega arith
nth_le (n ∷ ns) (suc i) = omega (arith, nth_le ns i)

-- Where the sum is below 2^256, the loop computes it.
used_from_sum : (ns : List ℕ) (used : ℕ) → used + sum ns < word → used_from used ns ≡ used + sum ns
used_from_sum [] used l = omega arith
used_from_sum (n ∷ ns) used l =
    let fits : (used + n) % word ≡ used + n = omega arith in
    rw fits (omega (arith, used_from_sum ns (used + n) (omega arith)))

pub total_used_tokens-sum : (ns : List ℕ) → sum ns < word → total_used_tokens ns ≡ sum ns
total_used_tokens-sum ns l = omega (arith, used_from_sum ns 0 (omega arith))

pub sum-zeros : (cs : List ℕ) → sum (zeros cs) ≡ 0
sum-zeros [] = refl
sum-zeros (c ∷ cs) = omega (arith, sum-zeros cs)

pub nth-zeros : (cs : List ℕ) (i : ℕ) → nth (zeros cs) i ≡ 0
nth-zeros [] i = refl
nth-zeros (c ∷ cs) zero = refl
nth-zeros (c ∷ cs) (suc i) = nth-zeros cs i

-- More on one candidate, where nothing wraps round.
pub sum-add_at :
    (ns : List ℕ) (i n : ℕ) → i < length ns → sum ns + n < word → sum (add_at ns i n) ≡ sum ns + n
sum-add_at [] i n l b = absurd (omega (arith, l))
sum-add_at (x ∷ xs) zero n l b = omega arith
sum-add_at (x ∷ xs) (suc i) n l b = omega (arith, sum-add_at xs i n (omega arith) (omega arith))

pub nth-add_at_same :
    (ns : List ℕ) (i n : ℕ)
    → i < length ns
    → sum ns + n < word
    → nth (add_at ns i n) i ≡ nth ns i + n
nth-add_at_same [] i n l b = absurd (omega (arith, l))
nth-add_at_same (x ∷ xs) zero n l b = omega arith
nth-add_at_same (x ∷ xs) (suc i) n l b = nth-add_at_same xs i n (omega arith) (omega arith)

pub nth-add_at_other : (ns : List ℕ) (i j n : ℕ) → i ≢ j → nth (add_at ns i n) j ≡ nth ns j
nth-add_at_other [] i j n o = refl
nth-add_at_other (x ∷ xs) zero zero n o = absurd (o refl)
nth-add_at_other (x ∷ xs) zero (suc j) n o = refl
nth-add_at_other (x ∷ xs) (suc i) zero n o = refl
nth-add_at_other (x ∷ xs) (suc i) (suc j) n o =
    nth-add_at_other xs i j n (λ e. o (omega (arith, e)))
