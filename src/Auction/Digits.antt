-- ===== src/Auction/Digits.antt =====
-- What stringToUint reads of a text that a number was printed to.
use blockchain_tutorial.Prelude.{
  ℕ, zero, suc, ◌+◌, ◌-◌, ◌*◌, ◌/◌, ◌%◌, ◌<◌, ◌≡◌, [], ◌∷◌, ◌++◌, arith, ltb, if◌then◌else◌,
  Bool-cases, inl, inr,
}
use blockchain_tutorial.Js.Number.{Text, is_digit, digits, to_string, int}
use blockchain_tutorial.Js.Int.{pos}
use blockchain_tutorial.Crowdfunding.{word}
use blockchain_tutorial.Auction.Bidding.{read_digits, string_to_uint}

-- One more digit at the end multiplies by ten, modulo 2^256.
read_digits-append :
    (s : Text) (acc d : ℕ)
    → d < 10
    → read_digits acc (s ++ (48 + d) ∷ []) ≡ (read_digits acc s * 10 + d) % word
unfolding read_digits
read_digits-append [] acc d l = ground arith
read_digits-append (c ∷ s) acc d l =
    read_digits-append s (if is_digit c then (acc * 10 + (c - 48)) % word else acc) d l

read_digits-digits : (f n : ℕ) → n < f → n < word → read_digits 0 (digits f n) ≡ n
unfolding digits
read_digits-digits zero n h l = elim h [ ]
read_digits-digits (suc f) n h l = elim (Bool-cases (ltb n 10)) [
  | inl small ↦ rw small (unfold read_digits in ground arith)
  | inr large ↦ rw large (
      rw (read_digits-append (digits f (n / 10)) 0 (n % 10) (omega arith))
        (rw (read_digits-digits f (n / 10) (ground arith) (omega arith)) (omega arith)))
]

-- A number below 2^256 survives printing and `stringToUint`.
pub string_to_uint-to_string : (n : ℕ) → n < word → string_to_uint (to_string (int (pos n))) ≡ n
unfolding string_to_uint to_string
string_to_uint-to_string n l = read_digits-digits (suc n) n (omega arith) l
