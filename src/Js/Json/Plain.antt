-- ===== src/Js/Json/Plain.antt =====
-- Objects whose texts hold no quotation mark, backslash or control character.
use blockchain_tutorial.Prelude.{
  ℕ, ◌≡◌, ◌≢◌, refl, ap, ◌∙◌, true, not, ◌&&◌, List, [], ◌∷◌, ◌++◌, some, arith, ltb, ◌==◌, All,
}
use mathlib.Core.List.{append_assoc, append-nil}
use blockchain_tutorial.Js.Number.{Text, codes}
use blockchain_tutorial.Js.Uri.{prepend}
use blockchain_tutorial.Js.Json.{
  Token, text, mark, outside, inside, tokens, Members, put, members, object, parse_object,
}

abbrev pub IsQuotable : ℕ → Type 0
IsQuotable c = not (c == b'"') && not (c == b'\\') && not (ltb c 32) ≡ true

-- What follows the first quotation mark.
abbrev pub object_rest : (key value : Text) → Members → Text
object_rest k v [] = k ++ (codes "\":\"" ++ (v ++ codes "\"}"))
object_rest k v ((k', v') ∷ ms) =
    k ++ (codes "\":\"" ++ (v ++ (codes "\",\"" ++ object_rest k' v' ms)))

abbrev pub AllQuotable : Members → Type 0
AllQuotable = All (λ m. All IsQuotable m.0 × All IsQuotable m.1)

abbrev pub put_all : Members → Members → Members
put_all before [] = before
put_all before ((k, v) ∷ ms) = put_all (put k v before) ms

tokens-step :
    (c : ℕ) (a s : Text)
    → IsQuotable c
    → tokens (inside a) (c ∷ s) ≡ tokens (inside (a ++ c ∷ [])) s
unfolding tokens
tokens-step c a s h = ground arith

tokens-text :
    (r a s : Text)
    → All IsQuotable r
    → tokens (inside a) (r ++ b'"' ∷ s) ≡ prepend (some (text (a ++ r))) (tokens outside s)
tokens-text [] a s h = rw append-nil (unfold tokens in refl)
tokens-text (c ∷ r) a s (p, h) =
    tokens-step c a (r ++ b'"' ∷ s) p
    ∙ tokens-text r (a ++ c ∷ []) s h
    ∙ ap (λ x. prepend (some (text x)) (tokens outside s)) (append_assoc a (c ∷ []) r)

abbrev object_tokens : (key value : Text) → Members → List Token
object_tokens k v [] = text k ∷ mark b':' ∷ text v ∷ mark b'}' ∷ []
object_tokens k v ((k', v') ∷ ms) = text k ∷ mark b':' ∷ text v ∷ mark b',' ∷ object_tokens k' v' ms

tokens-mark :
    (c : ℕ) (s : Text)
    → c ≢ b'"'
    → tokens outside (c ∷ b'"' ∷ s) ≡ prepend (some (mark c)) (tokens (inside []) s)
unfolding tokens
tokens-mark c s h = ground arith

-- A member, up to the mark after it.
tokens-member :
    (k v s : Text) {ts : List Token}
    → All IsQuotable k
    → All IsQuotable v
    → tokens outside s ≡ some ts
    → tokens (inside []) (k ++ (codes "\":\"" ++ (v ++ b'"' ∷ s)))
      ≡ some (text k ∷ mark b':' ∷ text v ∷ ts)
tokens-member k v s {ts} hk hv e =
    tokens-text k [] (codes ":\"" ++ (v ++ b'"' ∷ s)) hk
    ∙ ap (prepend (some (text k))) (
        tokens-mark b':' (v ++ b'"' ∷ s) (omega arith)
        ∙ ap (prepend (some (mark b':'))) (tokens-text v [] s hv ∙ ap (prepend (some (text v))) e))

tokens-object_rest :
    (k v : Text) (ms : Members)
    → AllQuotable ((k, v) ∷ ms)
    → tokens (inside []) (object_rest k v ms) ≡ some (object_tokens k v ms)
tokens-object_rest k v [] ((hk, hv), h) =
    tokens-member k v (codes "}") hk hv (unfold tokens in refl)
tokens-object_rest k v ((k', v') ∷ ms) ((hk, hv), h) =
    tokens-member k v (codes ",\"" ++ object_rest k' v' ms) hk hv (
      tokens-mark b',' (object_rest k' v' ms) (omega arith)
      ∙ ap (prepend (some (mark b','))) (tokens-object_rest k' v' ms h))

members-object_tokens :
    (before : Members) (k v : Text) (ms : Members)
    → members before (object_tokens k v ms) ≡ some (put_all before ((k, v) ∷ ms))
unfolding members
members-object_tokens before k v [] = refl
members-object_tokens before k v ((k', v') ∷ ms) = members-object_tokens (put k v before) k' v' ms

-- What `JSON.parse` reads of the text of an object.
pub parse_object-rest :
    (k v : Text) (ms : Members)
    → AllQuotable ((k, v) ∷ ms)
    → parse_object (codes "{\"" ++ object_rest k v ms) ≡ some (put_all [] ((k, v) ∷ ms))
unfolding parse_object
parse_object-rest k v ms h =
    ap object (
      tokens-mark b'{' (object_rest k v ms) (omega arith)
      ∙ ap (prepend (some (mark b'{'))) (tokens-object_rest k v ms h))
    ∙ members-object_tokens [] k v ms
