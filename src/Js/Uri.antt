-- ===== src/Js/Uri.antt =====
-- `decodeURI` and `decodeURIComponent`, on texts as lists of code units. A malformed text is `none`
-- (the functions throw URIError).
pub mod Encoded
pub mod Percent
use blockchain_tutorial.Prelude.{
  ℕ, zero, suc, ◌+◌, ◌-◌, ◌*◌, ◌/◌, ◌%◌, ◌≡◌, refl, Bool, false, ◌||◌, List, [], ◌∷◌, Option, none,
  some, ltb, leb, ◌==◌, if◌then◌else◌, ◌&&◌,
}
use blockchain_tutorial.Js.Number.{Text, codes, is_digit}

abbrev pub hex_value : ℕ → Option ℕ
hex_value c =
    if is_digit c
    then some (c - b'0')
    else if leb b'A' c && leb c b'F'
    then some (c - 55)
    else if leb b'a' c && leb c b'f'
    then some (c - 87)
    else none

-- A code unit, or a byte `%XX` with its two digits.
pub data Item : Type 0 where
  unit : ℕ → Item
  escaped : (high low byte : ℕ) → Item

abbrev pub with_digits : (high low : ℕ) → Option ℕ → Option ℕ → Option Item
with_digits h l none b = none
with_digits h l (some a) none = none
with_digits h l (some a) (some b) = some (escaped h l (a * 16 + b))

abbrev pub item_of : (high low : ℕ) → Option Item
item_of h l = with_digits h l (hex_value h) (hex_value l)

abbrev pub prepend {ℓ} : {A : Type ℓ} → Option A → Option (List A) → Option (List A)
prepend none xs = none
prepend (some x) none = none
prepend (some x) (some xs) = some (x ∷ xs)

unfoldable pub items : Text → Option (List Item)
items [] = some []
items (c ∷ []) = if c == b'%' then none else some (unit c ∷ [])
items (c ∷ d ∷ []) = if c == b'%' || d == b'%' then none else some (unit c ∷ unit d ∷ [])
items (c ∷ d ∷ e ∷ s) =
    let after = items s in
    let next = items (d ∷ e ∷ s) in
    if c == b'%' then prepend (item_of d e) after else prepend (some (unit c)) next

abbrev pub is_surrogate : ℕ → Bool
is_surrogate v = leb 0xd800 v && leb v 0xdfff

-- The code units of a code point.
abbrev pub utf16 : ℕ → Text
utf16 v =
    if ltb v 0x10000
    then v ∷ []
    else (0xd800 + (v - 0x10000) / 1024) ∷ (0xdc00 + (v - 0x10000) % 1024) ∷ []

abbrev pub joined : Text → Option Text → Option Text
joined s none = none
joined [] (some t) = some t
joined (c ∷ s) t = prepend (some c) (joined s t)

module _ (reserved : ℕ → Bool) where
  -- The bytes of UTF-8. `more` bytes are missing of a character: `v` is what they add to, and it
  -- must not be below `least`.
  unfoldable pub assemble : (more v least : ℕ) → List Item → Option Text
  assemble zero v least [] = some []
  assemble (suc more) v least [] = none
  assemble zero v least (unit c ∷ s) = prepend (some c) (assemble zero 0 0 s)
  assemble (suc more) v least (unit c ∷ s) = none
  assemble zero v least (escaped h l b ∷ s) =
      let one = assemble zero 0 0 s in
      let two = assemble 1 (b - 0xc0) 0x80 s in
      let three = assemble 2 (b - 0xe0) 0x800 s in
      let four = assemble 3 (b - 0xf0) 0x10000 s in
      if ltb b 0x80
      then (if reserved b then joined (b'%' ∷ h ∷ l ∷ []) one else prepend (some b) one)
      else if ltb b 0xc0
      then none
      else if ltb b 0xe0
      then two
      else if ltb b 0xf0
      then three
      else if ltb b 0xf8
      then four
      else none
  assemble (suc zero) v least (escaped h l b ∷ s) =
      let rest = assemble zero 0 0 s in
      let point = v * 64 + (b - 0x80) in
      if ltb b 0x80 || leb 0xc0 b || ltb point least || is_surrogate point || ltb 0x10ffff point
      then none
      else joined (utf16 point) rest
  assemble (suc (suc more)) v least (escaped h l b ∷ s) =
      let rest = assemble (suc more) (v * 64 + (b - 0x80)) least s in
      if ltb b 0x80 || leb 0xc0 b then none else rest

  unfoldable pub decode : Text → Option Text
  decode s = elim (items s) [ none ↦ none | some is ↦ assemble zero 0 0 is ]

abbrev pub one_of : ℕ → Text → Bool
one_of c [] = false
one_of c (d ∷ s) = c == d || one_of c s

-- What `decodeURI` leaves escaped.
abbrev pub is_reserved : ℕ → Bool
is_reserved c = one_of c (codes ";/?:@&=+$,#")

unfoldable pub decode_uri : Text → Option Text
decode_uri = decode is_reserved

unfoldable pub decode_uri_component : Text → Option Text
decode_uri_component = decode (λ c. false)

samples :
    (decode_uri_component (codes "%E4%BD%A0a%20%F0%9F%98%80")
      ≡ some (20320 ∷ b'a' ∷ 32 ∷ 0xd83d ∷ 0xde00 ∷ []))
    × (decode_uri (codes "a%2Fb%41") ≡ some (codes "a%2FbA"))
    × (decode_uri_component (codes "50%") ≡ none)
    × (decode_uri_component (codes "%C0%80") ≡ none)
    × (decode_uri_component (codes "%E4a") ≡ none)
unfolding decode_uri decode_uri_component decode items assemble
samples = (refl, refl, refl, refl, refl)
