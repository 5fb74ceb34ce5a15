-- ===== src/Js/Json.antt =====
-- `JSON.parse` of a text for an object whose members are texts, as lists of code units; and
-- objects as lists of keys with values, in the order in which the keys were first assigned. Other
-- values, and white space between the tokens, are not read.
pub mod Plain
use blockchain_tutorial.Prelude.{
  ℕ, zero, suc, ◌+◌, ◌*◌, ◌≡◌, refl, Bool, true, false, ◌&&◌, List, [], ◌∷◌, ◌++◌, Option, none,
  some, ltb, ◌==◌, if◌then◌else◌,
}
use blockchain_tutorial.Js.Number.{Text, codes}
use blockchain_tutorial.Js.Uri.{hex_value, prepend}

pub data Token : Type 0 where
  text : Text → Token
  mark : ℕ → Token

-- Where in the text the reader is: in a text that has begun with `a`, after a backslash in it, or
-- with `n` digits of `\u` to come.
pub data Place : Type 0 where
  outside : Place
  inside : (a : Text) → Place
  after_backslash : (a : Text) → Place
  in_code : (n code : ℕ) (a : Text) → Place

abbrev pub unescaped : ℕ → Option ℕ
unescaped c =
    if c == b'"'
    then some b'"'
    else if c == b'\\'
    then some b'\\'
    else if c == b'/'
    then some b'/'
    else if c == b'b'
    then some 8
    else if c == b'f'
    then some 12
    else if c == b'n'
    then some 10
    else if c == b'r'
    then some 13
    else if c == b't'
    then some 9
    else none

pub tokens : Place → Text → Option (List Token)
tokens outside [] = some []
tokens _ [] = none
tokens outside (c ∷ s) =
    let begun = tokens (inside []) s in
    let marked = tokens outside s in if c == b'"' then begun else prepend (some (mark c)) marked
tokens (inside a) (c ∷ s) =
    let ended = tokens outside s in
    let escape = tokens (after_backslash a) s in
    let longer = tokens (inside (a ++ c ∷ [])) s in
    if c == b'"'
    then prepend (some (text a)) ended
    else if c == b'\\'
    then escape
    else if ltb c 32
    then none
    else longer
tokens (after_backslash a) (c ∷ s) =
    let code = tokens (in_code 4 0 a) s in
    let plain = λ (d : ℕ). tokens (inside (a ++ d ∷ [])) s in
    if c == b'u' then code else elim (unescaped c) [ none ↦ none | some d ↦ plain d ]
tokens (in_code zero code a) (c ∷ s) = none
tokens (in_code (suc zero) code a) (c ∷ s) = elim (hex_value c) [
  | none ↦ none
  | some d ↦ tokens (inside (a ++ (code * 16 + d) ∷ [])) s
]
tokens (in_code (suc (suc n)) code a) (c ∷ s) = elim (hex_value c) [
  | none ↦ none
  | some d ↦ tokens (in_code (suc n) (code * 16 + d) a) s
]

-- An object of texts.
abbrev pub Members : Type 0
Members = List (Text × Text)

abbrev pub same_text : Text → Text → Bool
same_text [] [] = true
same_text [] (d ∷ s) = false
same_text (c ∷ r) [] = false
same_text (c ∷ r) (d ∷ s) = c == d && same_text r s

-- `object[key] = value`
abbrev pub put : (key value : Text) → Members → Members
put key value [] = (key, value) ∷ []
put key value ((k, v) ∷ ms) =
    let rest = put key value ms in if same_text key k then (k, value) ∷ ms else (k, v) ∷ rest

-- `object[key]`
abbrev pub get : (key : Text) → Members → Option Text
get key [] = none
get key ((k, v) ∷ ms) = let rest = get key ms in if same_text key k then some v else rest

abbrev is_end : List Token → Bool
is_end [] = true
is_end (t ∷ ts) = false

-- What stands between the braces, from a key on, with the members that were read before.
pub members : Members → List Token → Option Members
members before (text k ∷ mark a ∷ text v ∷ mark b ∷ ts) =
    let more = members (put k v before) ts in
    if a == b':'
    then (if b == b','
        then more
        else if b == b'}' && is_end ts
        then some (put k v before)
        else none)
    else none
members before _ = none

abbrev pub object : Option (List Token) → Option Members
object none = none
object (some (mark a ∷ ts)) = if a == b'{' then members [] ts else none
object (some _) = none

unfoldable pub parse_object : Text → Option Members
unfolding tokens members
parse_object s = object (tokens outside s)

samples :
    (parse_object (codes "{\"a\":\"b\",\"c\":\"\\u0041\\\"d\"}")
      ≡ some ((codes "a", codes "b") ∷ (codes "c", codes "A\"d") ∷ []))
    × (parse_object (codes "{\"a\":\"b\",\"c\"}") ≡ none)
    × (parse_object (codes "{\"a\":\"b\",\"a\":\"\"}") ≡ some ((codes "a", []) ∷ []))
unfolding parse_object
samples = (refl, refl, refl)
