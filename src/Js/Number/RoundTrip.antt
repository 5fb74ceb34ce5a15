-- ===== src/Js/Number/RoundTrip.antt =====
-- What `toString` prints, `parseInt` reads back.
use blockchain_tutorial.Prelude.{
  ℕ, zero, suc, ◌+◌, ◌-◌, ◌*◌, ◌/◌, ◌%◌, ◌≤◌, ◌<◌, ◌≡◌, refl, [], ◌∷◌, ◌++◌, Option, none, some,
  arith, ltb, Bool-cases, inl, inr, All, All-append,
}
use blockchain_tutorial.Js.Int.{ℤ, pos, negsuc}
use blockchain_tutorial.Js.Number.{
  Text, int, is_space, trim, scan, digits, magnitude, parse_int, to_string,
}

abbrev IsDigits : Text → Type 0
IsDigits = All (λ c. (48 ≤ c) × (c ≤ 57))

digits-IsDigits : (f n : ℕ) → IsDigits (digits f n)
unfolding digits
digits-IsDigits zero n = tt
digits-IsDigits (suc f) n = elim (Bool-cases (ltb n 10)) [
  | inl small ↦ rw small (ground arith)
  | inr large ↦
      rw large (All-append _ (digits f (n / 10)) _ (digits-IsDigits f (n / 10)) (omega arith))
]

abbrev value : Option ℕ → ℕ
value none = 0
value (some n) = n

-- One more digit at the end multiplies by ten.
scan-append :
    (acc : Option ℕ) (ds : Text) (c : ℕ)
    → IsDigits ds
    → c < 10
    → scan 10 acc (ds ++ (48 + c) ∷ []) ≡ some (value (scan 10 acc ds) * 10 + c)
unfolding scan
scan-append none [] c h l = ground arith
scan-append (some n) [] c h l = ground arith
scan-append none (d ∷ ds) c h l = ground (arith, scan-append (some (d - 48)) ds c h.1 l)
scan-append (some n) (d ∷ ds) c h l =
    ground (arith, scan-append (some (n * 10 + (d - 48))) ds c h.1 l)

scan-digits : (f n : ℕ) → n < f → scan 10 none (digits f n) ≡ some n
unfolding digits
scan-digits zero n h = elim h [ ]
scan-digits (suc f) n h = elim (Bool-cases (ltb n 10)) [
  | inl small ↦ rw small (unfold scan in ground arith)
  | inr large ↦ rw large (
      rw (scan-append none (digits f (n / 10)) (n % 10) (digits-IsDigits f (n / 10)) (omega arith))
        (rw (scan-digits f (n / 10) (ground arith)) (ground arith)))
]

magnitude-digits : (s : Text) → IsDigits s → magnitude s ≡ scan 10 none s
magnitude-digits [] h = unfold scan in refl
magnitude-digits (c ∷ []) h = refl
magnitude-digits (c ∷ d ∷ s) h = ground arith

-- A text that begins with a digit or a sign has no white space to skip.
trim-visible : (c : ℕ) (s : Text) → 33 ≤ c → c ≤ 57 → trim (c ∷ s) ≡ c ∷ s
unfolding trim is_space
trim-visible c s l u = ground arith

parse_int-digits :
    (s : Text) (n : ℕ) → IsDigits s → scan 10 none s ≡ some n → parse_int s ≡ int (pos n)
parse_int-digits [] n h e = unfold scan in cc e
parse_int-digits (c ∷ s) n h e =
    unfold parse_int in
    rw (trim-visible c s (omega arith) h.0.1) (ground (arith, magnitude-digits (c ∷ s) h))

parse_int-minus :
    (s : Text) (n : ℕ)
    → IsDigits s
    → scan 10 none s ≡ some (suc n)
    → parse_int (45 ∷ s) ≡ int (negsuc n)
parse_int-minus s n h e = unfold parse_int in ground (arith, magnitude-digits s h)

-- A whole number survives printing and parsing.
pub parse_int-to_string : (x : ℤ) → parse_int (to_string (int x)) ≡ int x
unfolding to_string
parse_int-to_string (pos n) =
    parse_int-digits (digits (suc n) n) n (digits-IsDigits (suc n) n)
      (scan-digits (suc n) n (omega arith))
parse_int-to_string (negsuc n) =
    parse_int-minus (digits (suc (suc n)) (suc n)) n (digits-IsDigits (suc (suc n)) (suc n))
      (scan-digits (suc (suc n)) (suc n) (omega arith))
