-- ===== src/Js/Uri/Percent.antt =====
-- One escaped character at the front of a text that is decoded.
use blockchain_tutorial.Prelude.{
  ℕ, zero, ◌+◌, ◌-◌, ◌*◌, ◌/◌, ◌%◌, ◌≡◌, ◌≢◌, ◌<◌, ◌≤◌, refl, Bool, false, List, [], ◌∷◌, ◌++◌,
  Option, none, some, arith, ltb, if◌then◌else◌, ap, sym, ◌∙◌,
}
use blockchain_tutorial.Js.Number.{Text}
use blockchain_tutorial.Js.Uri.{
  Item, unit, escaped, with_digits, prepend, items, is_surrogate, utf16, joined, assemble, decode,
  hex_value,
}

abbrev pub hex_digit : ℕ → ℕ
hex_digit d = if ltb d 10 then b'0' + d else 55 + d

-- `%XX`
abbrev pub percent : ℕ → Text
percent b = b'%' ∷ hex_digit (b / 16) ∷ hex_digit (b % 16) ∷ []

items-unit : (c : ℕ) (s : Text) → c ≢ b'%' → items (c ∷ s) ≡ prepend (some (unit c)) (items s)
unfolding items
items-unit c [] h = ground arith
items-unit c (d ∷ []) h = ground arith
items-unit c (d ∷ e ∷ s) h = ground arith

hex_value-hex_digit : (d : ℕ) → d < 16 → hex_value (hex_digit d) ≡ some d
hex_value-hex_digit d h = ground arith

items-percent :
    (b : ℕ) (s : Text)
    → b < 256
    → items (percent b ++ s)
      ≡ prepend (some (escaped (hex_digit (b / 16)) (hex_digit (b % 16)) b)) (items s)
unfolding items
items-percent b s h =
    let hi = hex_digit (b / 16) in
    let lo = hex_digit (b % 16) in
    let high = hex_value-hex_digit (b / 16) (omega arith) in
    let low = hex_value-hex_digit (b % 16) (omega arith) in
    let value : b / 16 * 16 + b % 16 ≡ b = omega arith in
    ap (λ i. prepend i (items s))
      (ap (λ x. with_digits hi lo x (hex_value lo)) high
        ∙ ap (with_digits hi lo (some (b / 16))) low
        ∙ ap (λ v. some (escaped hi lo v)) value)

joined-utf16 : (c : ℕ) (o : Option Text) → c < 0x10000 → joined (utf16 c) o ≡ prepend (some c) o
joined-utf16 c none h = ground arith
joined-utf16 c (some s) h = ground arith

module _ (reserved : ℕ → Bool) where
  read : Option (List Item) → Option Text
  read none = none
  read (some is) = assemble reserved zero 0 0 is

  decode-read : (s : Text) → decode reserved s ≡ read (items s)
  unfolding decode read
  decode-read s =
      elim (items s)
        as (λ o. elim o [ none ↦ none | some is ↦ assemble reserved zero 0 0 is ] ≡ read o) [
          | none ↦ refl
          | some is ↦ refl
        ]

  read-unit :
      (c : ℕ) (o : Option (List Item))
      → read (prepend (some (unit c)) o) ≡ prepend (some c) (read o)
  unfolding read assemble
  read-unit c none = refl
  read-unit c (some is) = refl

  read-one :
      (h l b : ℕ) (o : Option (List Item))
      → b < 0x80
      → read (prepend (some (escaped h l b)) o)
        ≡ (if reserved b then joined (b'%' ∷ h ∷ l ∷ []) (read o) else prepend (some b) (read o))
  unfolding read assemble
  read-one h l b none k = ground arith
  read-one h l b (some is) k = ground arith

  begin-two :
      (h l b : ℕ) (is : List Item)
      → 0xc0 ≤ b
      → b < 0xe0
      → assemble reserved zero 0 0 (escaped h l b ∷ is) ≡ assemble reserved 1 (b - 0xc0) 0x80 is
  unfolding assemble
  begin-two h l b is k m = ground arith

  begin-three :
      (h l b : ℕ) (is : List Item)
      → 0xe0 ≤ b
      → b < 0xf0
      → assemble reserved zero 0 0 (escaped h l b ∷ is) ≡ assemble reserved 2 (b - 0xe0) 0x800 is
  unfolding assemble
  begin-three h l b is k m = ground arith

  go-on :
      (h l b v least : ℕ) (is : List Item)
      → 0x80 ≤ b
      → b < 0xc0
      → assemble reserved 2 v least (escaped h l b ∷ is)
        ≡ assemble reserved 1 (v * 64 + (b - 0x80)) least is
  unfolding assemble
  go-on h l b v least is k m = ground arith

  finish :
      (h l b v least c : ℕ) (is : List Item)
      → 0x80 ≤ b
      → b < 0xc0
      → v * 64 + (b - 0x80) ≡ c
      → least ≤ c
      → c < 0x10000
      → is_surrogate c ≡ false
      → assemble reserved 1 v least (escaped h l b ∷ is)
        ≡ prepend (some c) (assemble reserved zero 0 0 is)
  unfolding assemble
  finish h l b v least c is k m e n u q =
      rw e (ground (arith, joined-utf16 c (assemble reserved zero 0 0 is)))

  read-two :
      (h l h' l' c : ℕ) (o : Option (List Item))
      → 0x80 ≤ c
      → c < 0x800
      → read (
          prepend
            (some (escaped h l (0xc0 + c / 64)))
            (prepend (some (escaped h' l' (0x80 + c % 64))) o))
        ≡ prepend (some c) (read o)
  unfolding read assemble
  read-two h l h' l' c none k m = refl
  read-two h l h' l' c (some is) k m =
      begin-two h l (0xc0 + c / 64) (escaped h' l' (0x80 + c % 64) ∷ is) (omega arith) (omega arith)
      ∙ finish h' l' (0x80 + c % 64) (0xc0 + c / 64 - 0xc0) 0x80 c is (omega arith) (omega arith)
          (omega arith) k (omega arith) (ground arith)

  read-three :
      (h l h' l' g m c : ℕ) (o : Option (List Item))
      → 0x800 ≤ c
      → c < 0x10000
      → is_surrogate c ≡ false
      → read (
          prepend (some (escaped h l (0xe0 + c / 4096))) (
            prepend
              (some (escaped h' l' (0x80 + c / 64 % 64)))
              (prepend (some (escaped g m (0x80 + c % 64))) o)))
        ≡ prepend (some c) (read o)
  unfolding read assemble
  read-three h l h' l' g m c none k u n = refl
  read-three h l h' l' g m c (some is) k u n =
      let last = escaped g m (0x80 + c % 64) ∷ is in
      begin-three h l (0xe0 + c / 4096) (escaped h' l' (0x80 + c / 64 % 64) ∷ last) (omega arith)
        (omega arith)
      ∙ go-on h' l' (0x80 + c / 64 % 64) (0xe0 + c / 4096 - 0xe0) 0x800 last (omega arith)
          (omega arith)
      ∙ finish g m (0x80 + c % 64) ((0xe0 + c / 4096 - 0xe0) * 64 + (0x80 + c / 64 % 64 - 0x80))
          0x800 c is (omega arith) (omega arith) (omega arith) k u n

  -- One character, at the front of a text.
  pub decode-unit :
      (c : ℕ) (s : Text) → c ≢ b'%' → decode reserved (c ∷ s) ≡ prepend (some c) (decode reserved s)
  decode-unit c s h =
      decode-read (c ∷ s)
      ∙ ap read (items-unit c s h)
      ∙ read-unit c (items s)
      ∙ ap (prepend (some c)) (sym (decode-read s))

  pub decode-percent :
      (b : ℕ) (s : Text)
      → b < 0x80
      → decode reserved (percent b ++ s) ≡ (
          if reserved b
          then joined (percent b) (decode reserved s)
          else prepend (some b) (decode reserved s))
  decode-percent b s h =
      decode-read (percent b ++ s)
      ∙ ap read (items-percent b s (omega arith))
      ∙ read-one (hex_digit (b / 16)) (hex_digit (b % 16)) b (items s) h
      ∙ ap (λ o. if reserved b then joined (percent b) o else prepend (some b) o)
          (sym (decode-read s))

  pub decode-two :
      (c : ℕ) (s : Text)
      → 0x80 ≤ c
      → c < 0x800
      → decode reserved (percent (0xc0 + c / 64) ++ (percent (0x80 + c % 64) ++ s))
        ≡ prepend (some c) (decode reserved s)
  decode-two c s h k =
      let last = percent (0x80 + c % 64) ++ s in
      decode-read (percent (0xc0 + c / 64) ++ last)
      ∙ ap read (
          items-percent (0xc0 + c / 64) last (omega arith)
          ∙ ap (prepend (some _)) (items-percent (0x80 + c % 64) s (omega arith)))
      ∙ read-two _ _ _ _ c (items s) h k
      ∙ ap (prepend (some c)) (sym (decode-read s))

  pub decode-three :
      (c : ℕ) (s : Text)
      → 0x800 ≤ c
      → c < 0x10000
      → is_surrogate c ≡ false
      → decode reserved (
          percent (0xe0 + c / 4096)
          ++ (percent (0x80 + c / 64 % 64) ++ (percent (0x80 + c % 64) ++ s)))
        ≡ prepend (some c) (decode reserved s)
  decode-three c s h k u =
      let last = percent (0x80 + c % 64) ++ s in
      let later = percent (0x80 + c / 64 % 64) ++ last in
      decode-read (percent (0xe0 + c / 4096) ++ later)
      ∙ ap read (
          items-percent (0xe0 + c / 4096) later (omega arith)
          ∙ ap (prepend (some _)) (
              items-percent (0x80 + c / 64 % 64) last (omega arith)
              ∙ ap (prepend (some _)) (items-percent (0x80 + c % 64) s (omega arith))))
      ∙ read-three _ _ _ _ _ _ c (items s) h k u
      ∙ ap (prepend (some c)) (sym (decode-read s))
