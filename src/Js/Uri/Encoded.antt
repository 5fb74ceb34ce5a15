-- ===== src/Js/Uri/Encoded.antt =====
-- Texts as `encodeURIComponent` encodes them, and how they are decoded twice.
use blockchain_tutorial.Prelude.{
  ℕ, ◌+◌, ◌/◌, ◌%◌, ◌≡◌, ◌≢◌, ◌<◌, ◌≤◌, refl, Bool, true, false, ◌||◌, ◌&&◌, [], ◌∷◌, ◌++◌, Option,
  none, some, arith, ltb, leb, if◌then◌else◌, All, Bool-cases, inl, inr, ap, sym, ◌∙◌,
}
use blockchain_tutorial.Js.Number.{Text, codes, is_digit}
use blockchain_tutorial.Js.Uri.{
  prepend, items, is_surrogate, joined, assemble, decode, one_of, is_reserved, decode_uri,
  decode_uri_component,
}
use blockchain_tutorial.Js.Uri.Percent.{
  percent, decode-unit, decode-percent, decode-two, decode-three,
}

abbrev pub is_letter : ℕ → Bool
is_letter c = (leb b'a' c && leb c b'z') || (leb b'A' c && leb c b'Z')

-- What `encodeURIComponent` leaves as it is.
abbrev pub is_unreserved : ℕ → Bool
is_unreserved c = is_letter c || is_digit c || one_of c (codes "-_.!~*'()")

-- `encodeURIComponent` of a code unit that is no surrogate: its bytes in UTF-8.
unfoldable pub encoded : ℕ → Text
encoded c =
    if is_unreserved c
    then c ∷ []
    else if ltb c 0x80
    then percent c
    else if ltb c 0x800
    then percent (0xc0 + c / 64) ++ percent (0x80 + c % 64)
    else percent (0xe0 + c / 4096) ++ (percent (0x80 + c / 64 % 64) ++ percent (0x80 + c % 64))

abbrev pub form_encoded : Text → Text
form_encoded [] = []
form_encoded (c ∷ s) = encoded c ++ form_encoded s

-- A code unit that is a character by itself, and not `%` and no line end; surrogates are those from
-- 0xd800 to 0xdfff.
abbrev pub IsPlain : ℕ → Type 0
IsPlain c = (c ≢ b'%') × (c < 65536) × (c / 2048 ≢ 27) × (c ≢ 10) × (c ≢ 13)

-- What is left after `decodeURI`.
abbrev pub half : ℕ → Text
half c = if is_reserved c then percent c else c ∷ []

abbrev pub halves : Text → Text
halves [] = []
halves (c ∷ s) = half c ++ halves s

joined-single : (c : ℕ) (o : Option Text) → joined (c ∷ []) o ≡ prepend (some c) o
joined-single c none = refl
joined-single c (some s) = refl

joined-some : (r s : Text) → joined r (some s) ≡ some (r ++ s)
joined-some [] s = refl
joined-some (c ∷ r) s = ap (prepend (some c)) (joined-some r s)

reserved-not_unreserved : (c : ℕ) → is_unreserved c ≡ true → is_reserved c ≡ false
reserved-not_unreserved c h = ground arith

reserved-not_high : (c : ℕ) → 0x80 ≤ c → is_reserved c ≡ false
reserved-not_high c h = ground arith

half-kept : (c : ℕ) → is_reserved c ≡ false → half c ≡ c ∷ []
half-kept c h = rw h

-- `decodeURI` at the front of an encoded text: what it is to read, and what it leaves.
read_as :
    (c : ℕ) (s from to : Text)
    → encoded c ≡ from
    → half c ≡ to
    → decode_uri (from ++ s) ≡ joined to (decode_uri s)
    → decode_uri (encoded c ++ s) ≡ joined (half c) (decode_uri s)
read_as c s from to p q e =
    ap (λ t. decode_uri (t ++ s)) p ∙ e ∙ ap (λ t. joined t (decode_uri s)) (sym q)

module _ (c : ℕ) (s : Text) where
  read-unreserved :
      is_unreserved c ≡ true → decode_uri (encoded c ++ s) ≡ joined (half c) (decode_uri s)
  unfolding decode_uri encoded
  read-unreserved h =
      read_as c s (c ∷ []) (c ∷ []) (rw h) (half-kept c (reserved-not_unreserved c h))
        (decode-unit is_reserved c s (λ e. ground arith) ∙ sym (joined-single c (decode_uri s)))

  module _ (escaped_c : is_unreserved c ≡ false) where
    read-ascii : c < 0x80 → decode_uri (encoded c ++ s) ≡ joined (half c) (decode_uri s)
    unfolding decode_uri encoded
    read-ascii h = read_as c s (percent c) (half c) (rw escaped_c (ground arith)) refl (
        decode-percent is_reserved c s h ∙ elim (Bool-cases (is_reserved c)) [
          | inl e ↦ rw e
          | inr e ↦ rw e (sym (joined-single c (decode_uri s)))
        ])

    read-two_bytes :
        0x80 ≤ c → c < 0x800 → decode_uri (encoded c ++ s) ≡ joined (half c) (decode_uri s)
    unfolding decode_uri encoded
    read-two_bytes h k =
        read_as c s (percent (0xc0 + c / 64) ++ percent (0x80 + c % 64)) (c ∷ [])
          (rw escaped_c (ground arith)) (half-kept c (reserved-not_high c h))
          (decode-two is_reserved c s h k ∙ sym (joined-single c (decode_uri s)))

    read-three_bytes :
        0x800 ≤ c
        → c < 0x10000
        → is_surrogate c ≡ false
        → decode_uri (encoded c ++ s) ≡ joined (half c) (decode_uri s)
    unfolding decode_uri encoded
    read-three_bytes h k u =
        read_as c s
          (percent (0xe0 + c / 4096) ++ (percent (0x80 + c / 64 % 64) ++ percent (0x80 + c % 64)))
          (c ∷ []) (rw escaped_c (ground arith)) (half-kept c (reserved-not_high c (omega arith)))
          (decode-three is_reserved c s h k u ∙ sym (joined-single c (decode_uri s)))

decode_uri-encoded :
    (c : ℕ) (s : Text) → IsPlain c → decode_uri (encoded c ++ s) ≡ joined (half c) (decode_uri s)
decode_uri-encoded c s (n, b, u, lf, cr) = elim (Bool-cases (is_unreserved c)) [
  | inl e ↦ read-unreserved c s e
  | inr e ↦ elim (Bool-cases (ltb c 0x80)) [
    | inl k ↦ read-ascii c s e (ground arith)
    | inr k ↦ elim (Bool-cases (ltb c 0x800)) [
      | inl m ↦ read-two_bytes c s e (ground arith) (ground arith)
      | inr m ↦ read-three_bytes c s e (ground arith) b (ground arith)
    ]
  ]
]

reserved_ascii : (c : ℕ) → is_reserved c ≡ true → c < 0x80
reserved_ascii c h = ground arith

decode_uri_component-half :
    (c : ℕ) (s : Text)
    → IsPlain c
    → decode_uri_component (half c ++ s) ≡ prepend (some c) (decode_uri_component s)
unfolding decode_uri_component
decode_uri_component-half c s (n, b, u, lf, cr) = elim (Bool-cases (is_reserved c)) [
  | inl e ↦ rw e (decode-percent (λ d. false) c s (reserved_ascii c e))
  | inr e ↦ rw e (decode-unit (λ d. false) c s n)
]

-- `decodeURI` and then `decodeURIComponent` of an encoded text give the text back.
pub decode_uri-form_encoded :
    (s : Text) → All IsPlain s → decode_uri (form_encoded s) ≡ some (halves s)
decode_uri-form_encoded [] h = unfold decode_uri decode items assemble in refl
decode_uri-form_encoded (c ∷ s) (p, h) =
    decode_uri-encoded c (form_encoded s) p
    ∙ ap (joined (half c)) (decode_uri-form_encoded s h)
    ∙ joined-some (half c) (halves s)

pub decode_uri_component-halves :
    (s : Text) → All IsPlain s → decode_uri_component (halves s) ≡ some s
decode_uri_component-halves [] h = unfold decode_uri_component decode items assemble in refl
decode_uri_component-halves (c ∷ s) (p, h) =
    decode_uri_component-half c (halves s) p
    ∙ ap (prepend (some c)) (decode_uri_component-halves s h)
