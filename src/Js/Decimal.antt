-- ===== src/Js/Decimal.antt =====
-- `Number(s)` of a text, as far as it is compared with 0 or taken as a radix, and the comparison of
-- results of parseInt. Decimal numerals with sign, fraction and exponent are read, those with `0x`,
-- `0o` and `0b`, and the empty text, which is 0. Any other text is no number; `-Infinity` is not
-- read, values are exact, as they are below 2^53, and an exponent is taken not to make a number too
-- small for a double.
use blockchain_tutorial.Prelude.{
  ℕ, zero, suc, ◌+◌, ◌-◌, ◌*◌, ◌/◌, ◌%◌, Bool, true, false, ◌&&◌, ◌||◌, ◌≡◌, refl, Option, none,
  some, [], ◌∷◌, ltb, leb, ◌==◌, if◌then◌else◌, String,
}
use blockchain_tutorial.Js.Int.{pos_part, neg_part}
use blockchain_tutorial.Js.Number.{Text, codes, Number, nan, int, is_digit, is_space, trim, digit}

abbrev with_rest : ℕ → Text → Text
with_rest c [] = if is_space c then [] else c ∷ []
with_rest c (d ∷ s) = c ∷ d ∷ s

-- White space at the end is not read.
trim_end : Text → Text
trim_end [] = []
trim_end (c ∷ s) = with_rest c (trim_end s)

pub data Place : Type 0 where
  whole fraction exponent exponent_sign exponent_digits : Place

-- What was read: the place, whether there was a digit, the digits without the point and how many of
-- them stand after it, and the exponent.
pub record Reading : Type 0 where
  pub place : Place
  pub any : Bool
  pub mantissa : ℕ
  pub scale : ℕ
  pub minus_exponent : Bool
  pub shift : ℕ

abbrev is_e : ℕ → Bool
is_e c = c == b'e' || c == b'E'

abbrev with_digit : ℕ → Reading → Reading
with_digit c r = record r { any = true; mantissa = r.mantissa * 10 + (c - b'0') }

abbrev after_mantissa : ℕ → Reading → Option Reading
after_mantissa c r = if is_e c && r.any then some (record r { place = exponent }) else none

abbrev in_exponent : ℕ → Reading → Option Reading
in_exponent c r =
    if is_digit c
    then some (record r { place = exponent_digits; shift = r.shift * 10 + (c - b'0') })
    else none

abbrev read_at : Place → ℕ → Reading → Option Reading
read_at whole c r =
    if is_digit c
    then some (with_digit c r)
    else if c == b'.'
    then some (record r { place = fraction })
    else after_mantissa c r
read_at fraction c r =
    if is_digit c
    then some (record (with_digit c r) { scale = r.scale + 1 })
    else after_mantissa c r
read_at exponent c r =
    if c == b'+' || c == b'-'
    then some (record r { place = exponent_sign; minus_exponent = c == b'-' })
    else in_exponent c r
read_at exponent_sign c r = in_exponent c r
read_at exponent_digits c r = in_exponent c r

abbrev is_complete : Place → Bool → Bool
is_complete whole any = any
is_complete fraction any = any
is_complete exponent any = false
is_complete exponent_sign any = false
is_complete exponent_digits any = true

-- The numeral, if it is one.
read_numeral : Reading → Text → Option Reading
read_numeral r [] = if is_complete r.place r.any then some r else none
read_numeral r (c ∷ s) = elim (read_at r.place c r) [ none ↦ none | some q ↦ read_numeral q s ]

abbrev start : Reading
start = record {
  place = whole;
  any = false;
  mantissa = 0;
  scale = 0;
  minus_exponent = false;
  shift = 0;
}

-- Digits of a radix and nothing else; `none` where there is none.
digits_in : ℕ → Option ℕ → Text → Option ℕ
digits_in radix acc [] = acc
digits_in radix acc (c ∷ s) = elim (digit radix c) [
  | none ↦ none
  | some d ↦ digits_in radix (some (elim acc [ none ↦ d | some n ↦ n * radix + d ])) s
]

abbrev whole_number : Option ℕ → Option Reading
whole_number none = none
whole_number (some n) = some (record start { any = true; mantissa = n })

-- A numeral without a sign. A prefix selects the radix.
abbrev unsigned : Text → Option Reading
unsigned [] = none
unsigned (c ∷ []) = read_numeral start (c ∷ [])
unsigned (c ∷ d ∷ s) =
    if c == b'0' && (d == b'x' || d == b'X')
    then whole_number (digits_in 16 none s)
    else if c == b'0' && (d == b'o' || d == b'O')
    then whole_number (digits_in 8 none s)
    else if c == b'0' && (d == b'b' || d == b'B')
    then whole_number (digits_in 2 none s)
    else read_numeral start (c ∷ d ∷ s)

pub data Sign : Type 0 where
  not_a_number negative zero_sign positive : Sign

abbrev signed : Bool → Option Reading → Sign
signed minus none = not_a_number
signed minus (some r) = if r.mantissa == 0 then zero_sign else if minus then negative else positive

abbrev sign_of_trimmed : Text → Sign
sign_of_trimmed [] = zero_sign
sign_of_trimmed (c ∷ s) =
    if c == b'-'
    then signed true (read_numeral start s)
    else if c == b'+'
    then signed false (read_numeral start s)
    else signed false (unsigned (c ∷ s))

abbrev sign_at_most_zero : Sign → Bool
sign_at_most_zero not_a_number = false
sign_at_most_zero negative = true
sign_at_most_zero zero_sign = true
sign_at_most_zero positive = false

-- `s <= 0` for a text
pub is_at_most_zero : Text → Bool
unfolding read_numeral digits_in trim_end
is_at_most_zero s = sign_at_most_zero (sign_of_trimmed (trim_end (trim s)))

-- `10 ** n`
power : ℕ → ℕ
power zero = 1
power (suc n) = 10 * power n

-- The whole part of a numeral.
abbrev truncated : Reading → ℕ
truncated r =
    if r.minus_exponent
    then r.mantissa / power (r.scale + r.shift)
    else if leb r.scale r.shift
    then r.mantissa * power (r.shift - r.scale)
    else r.mantissa / power (r.scale - r.shift)

-- The whole part modulo 2^32; 0 of what is no number.
abbrev modulo : Bool → Option Reading → ℕ
modulo minus none = 0
modulo false (some r) = truncated r % 4294967296
modulo true (some r) = (4294967296 - truncated r % 4294967296) % 4294967296

abbrev to_int32 : Text → ℕ
to_int32 [] = 0
to_int32 (c ∷ s) =
    if c == b'-'
    then modulo true (read_numeral start s)
    else if c == b'+'
    then modulo false (read_numeral start s)
    else modulo false (unsigned (c ∷ s))

-- `ToInt32` of a value that is `undefined` or a text, as the number below 2^32 that is congruent to it.
unfoldable pub radix_of : Option String → ℕ
unfolding read_numeral digits_in power trim_end trim is_space
radix_of none = 0
radix_of (some s) = to_int32 (trim_end (trim (codes s)))

-- `a < b` for results of parseInt
abbrev pub is_less : Number → Number → Bool
is_less (int a) (int b) = ltb (pos_part a + neg_part b) (pos_part b + neg_part a)
is_less nan b = false
is_less (int a) nan = false

sign_samples :
    (is_at_most_zero (codes "") ≡ true)
    × (is_at_most_zero (codes " -0.5") ≡ true)
    × (is_at_most_zero (codes "0.001") ≡ false)
    × (is_at_most_zero (codes "0e7") ≡ true)
    × (is_at_most_zero (codes "1e-3") ≡ false)
    × (is_at_most_zero (codes "abc") ≡ false)
unfolding is_at_most_zero trim is_space
sign_samples = (refl, refl, refl, refl, refl, refl)

radix_samples :
    (radix_of (some "peer0.org1.example.com") ≡ 0)
    × (radix_of (some "16") ≡ 16)
    × (radix_of (some " +16 ") ≡ 16)
    × (radix_of (some "0x10") ≡ 16)
    × (radix_of (some "16.5") ≡ 16)
    × (radix_of (some "1.6e1") ≡ 16)
    × (radix_of (some "160e-1") ≡ 16)
    × (radix_of (some "-1") ≡ 4294967295)
    × (radix_of (some "+0x10") ≡ 0)
    × (radix_of (some "0b") ≡ 0)
unfolding radix_of
radix_samples = (refl, refl, refl, refl, refl, refl, refl, refl, refl, refl)
