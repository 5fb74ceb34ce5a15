-- ===== src/Auction/Page/Serialized.antt =====
-- The text of a form as jQuery serializes it, and what the page's replacements and `JSON.parse`
-- make of it.
use blockchain_tutorial.Prelude.{
  ℕ, ◌+◌, ◌≡◌, ◌≢◌, ◌<◌, ◌≤◌, ◌/◌, ◌%◌, refl, sym, ap, ◌∙◌, Bool, true, false, [], ◌∷◌, ◌++◌, arith,
  ltb, ◌==◌, if◌then◌else◌, All, All-append,
}
use mathlib.Core.List.{append_assoc, append-nil}
use blockchain_tutorial.Js.{ok}
use blockchain_tutorial.Js.Number.{Text, codes}
use blockchain_tutorial.Js.Uri.Encoded.{is_unreserved, encoded, form_encoded, IsPlain}
use blockchain_tutorial.Js.Json.{Members, parse_object}
use blockchain_tutorial.Js.Json.Plain.{
  IsQuotable, AllQuotable, object_rest, put_all, parse_object-rest,
}
use blockchain_tutorial.Auction.Page.Form.{replace, read_params, or_throw}
use blockchain_tutorial.Js.Uri.Percent.{hex_digit, percent}

-- What `serialize()` of jQuery gives: `name=value` with encoded values, joined by `&`.
abbrev pub pair_text : (name value : Text) → Members → Text
pair_text k v [] = k ++ b'=' ∷ form_encoded v
pair_text k v ((k', v') ∷ ms) = k ++ b'=' ∷ (form_encoded v ++ b'&' ∷ pair_text k' v' ms)

abbrev pub serialized : Members → Text
serialized [] = []
serialized ((k, v) ∷ ms) = pair_text k v ms

abbrev pub AllPlain : Members → Type 0
AllPlain = All (λ m. All IsPlain m.1)

==_false : (a b : ℕ) → a ≢ b → (a == b) ≡ false
==_false a b h = ground arith

-- A unit that none of the replacements touches, and that stands in a text of JSON as it is.
abbrev pub IsClean : ℕ → Type 0
IsClean c = (c ≢ b'"') × (c ≢ b'&') × (c ≢ b'=') × (c ≢ b'\\') × (32 ≤ c)

hex_digit-IsClean : (d : ℕ) → d < 16 → IsClean (hex_digit d)
hex_digit-IsClean d h = (
  (λ e. ground arith),
  (λ e. ground arith),
  (λ e. ground arith),
  (λ e. ground arith),
  ground arith,
)

percent-IsClean : (b : ℕ) → b < 256 → All IsClean (percent b)
percent-IsClean b h = (
  (omega arith, omega arith, omega arith, omega arith, omega arith),
  (hex_digit-IsClean (b / 16) (omega arith), (hex_digit-IsClean (b % 16) (omega arith), tt)),
)

unreserved-IsClean : (c : ℕ) → is_unreserved c ≡ true → IsClean c
unreserved-IsClean c h = (
  (λ e. ground arith),
  (λ e. ground arith),
  (λ e. ground arith),
  (λ e. ground arith),
  ground arith,
)

All-if :
    (P : ℕ → Type 0) (b : Bool) (r s : Text)
    → (b ≡ true → All P r)
    → (b ≡ false → All P s)
    → All P (if b then r else s)
All-if P true r s h k = h refl
All-if P false r s h k = k refl

encoded-IsClean : (c : ℕ) → IsPlain c → All IsClean (encoded c)
unfolding encoded
encoded-IsClean c (n, b, u, lf, cr) =
    All-if IsClean (is_unreserved c) _ _ (λ e. (unreserved-IsClean c e, tt))
      λ e.
        All-if IsClean (ltb c 0x80) _ _ (λ e. percent-IsClean c (ground arith))
          λ e.
            All-if IsClean (ltb c 0x800) _ _
              (λ e.
                All-append IsClean (percent (0xc0 + c / 64)) (percent (0x80 + c % 64))
                  (percent-IsClean (0xc0 + c / 64) (ground arith))
                  (percent-IsClean (0x80 + c % 64) (omega arith)))
              λ e.
                All-append IsClean (percent (0xe0 + c / 4096))
                  (percent (0x80 + c / 64 % 64) ++ percent (0x80 + c % 64))
                  (percent-IsClean (0xe0 + c / 4096) (omega arith))
                  (All-append IsClean (percent (0x80 + c / 64 % 64)) (percent (0x80 + c % 64))
                    (percent-IsClean (0x80 + c / 64 % 64) (omega arith))
                    (percent-IsClean (0x80 + c % 64) (omega arith)))

form_encoded-IsClean : (s : Text) → All IsPlain s → All IsClean (form_encoded s)
form_encoded-IsClean [] h = tt
form_encoded-IsClean (c ∷ s) (p, h) =
    All-append IsClean (encoded c) (form_encoded s) (encoded-IsClean c p) (form_encoded-IsClean s h)

-- The three replacements.
abbrev replaced : Text → Text
replaced s =
    replace b'=' (codes "\":\"") (replace b'&' (codes "\",\"") (replace b'"' (codes "\\\"") s))

replaced-unit : (c : ℕ) (s : Text) → IsClean c → replaced (c ∷ s) ≡ c ∷ replaced s
replaced-unit c s (q, a, e, b, l) =
    rw (==_false c b'"' q) (rw (==_false c b'&' a) (rw (==_false c b'=' e) refl))

replaced-clean : (r s : Text) → All IsClean r → replaced (r ++ s) ≡ r ++ replaced s
replaced-clean [] s h = refl
replaced-clean (c ∷ r) s (p, h) =
    replaced-unit c (r ++ s) p ∙ ap (λ t. c ∷ t) (replaced-clean r s h)

replaced-equals : (s : Text) → replaced (b'=' ∷ s) ≡ codes "\":\"" ++ replaced s
replaced-equals s = refl

replaced-and : (s : Text) → replaced (b'&' ∷ s) ≡ codes "\",\"" ++ replaced s
replaced-and s = refl

replaced-nil : replaced [] ≡ []
replaced-nil = refl

-- A member of the form, with what follows it.
replaced-pair :
    (k v s end : Text)
    → All IsClean k
    → All IsPlain v
    → replaced (k ++ b'=' ∷ (form_encoded v ++ s)) ++ end
      ≡ k ++ (codes "\":\"" ++ (form_encoded v ++ (replaced s ++ end)))
replaced-pair k v s end hk hv =
    let value = form_encoded v in
    ap (λ t. t ++ end)
      (replaced-clean k (b'=' ∷ (value ++ s)) hk
        ∙ ap (λ t. k ++ t)
            (replaced-equals (value ++ s)
              ∙ ap (λ t. codes "\":\"" ++ t) (replaced-clean value s (form_encoded-IsClean v hv))))
    ∙ append_assoc k (codes "\":\"" ++ (value ++ replaced s)) end
    ∙ ap (λ t. k ++ (codes "\":\"" ++ t)) (append_assoc value (replaced s) end)

abbrev pub encode_values : Members → Members
encode_values [] = []
encode_values ((k, v) ∷ ms) = (k, form_encoded v) ∷ encode_values ms

abbrev pub AllNamed : Members → Type 0
AllNamed = All (λ m. All IsClean m.0)

pair_text-replaced :
    (k v : Text) (ms : Members)
    → AllNamed ((k, v) ∷ ms)
    → AllPlain ((k, v) ∷ ms)
    → replaced (pair_text k v ms) ++ codes "\"}" ≡ object_rest k (form_encoded v) (encode_values ms)
pair_text-replaced k v [] (hk, _) (hv, _) =
    ap (λ t. replaced (k ++ b'=' ∷ t) ++ codes "\"}") (sym (append-nil (form_encoded v)))
    ∙ replaced-pair k v [] (codes "\"}") hk hv
    ∙ ap (λ t. k ++ (codes "\":\"" ++ (form_encoded v ++ (t ++ codes "\"}")))) replaced-nil
pair_text-replaced k v ((k', v') ∷ ms) (hk, h) (hv, g) =
    replaced-pair k v (b'&' ∷ pair_text k' v' ms) (codes "\"}") hk hv
    ∙ ap (λ t. k ++ (codes "\":\"" ++ (form_encoded v ++ t)))
        (ap (λ t. t ++ codes "\"}") (replaced-and (pair_text k' v' ms))
          ∙ ap (λ t. codes "\",\"" ++ t) (pair_text-replaced k' v' ms h g))

clean-IsQuotable : (s : Text) → All IsClean s → All IsQuotable s
clean-IsQuotable [] h = tt
clean-IsQuotable (c ∷ s) ((q, a, e, b, l), h) = (ground arith, clean-IsQuotable s h)

encode_values-Quotable : (ms : Members) → AllNamed ms → AllPlain ms → AllQuotable (encode_values ms)
encode_values-Quotable [] h g = tt
encode_values-Quotable ((k, v) ∷ ms) (hk, h) (hv, g) = (
  (clean-IsQuotable k hk, clean-IsQuotable (form_encoded v) (form_encoded-IsClean v hv)),
  encode_values-Quotable ms h g,
)

-- What `JSON.parse` makes of the text that the page builds.
pub read_params-serialized :
    (k v : Text) (ms : Members)
    → AllNamed ((k, v) ∷ ms)
    → AllPlain ((k, v) ∷ ms)
    → read_params (pair_text k v ms) ≡ ok (put_all [] (encode_values ((k, v) ∷ ms)))
unfolding read_params
read_params-serialized k v ms h g =
    ap (λ t. or_throw "SyntaxError" (parse_object (codes "{\"" ++ t)))
      (pair_text-replaced k v ms h g)
    ∙ ap (or_throw "SyntaxError") (
        parse_object-rest k (form_encoded v) (encode_values ms)
          (encode_values-Quotable ((k, v) ∷ ms) h g))
