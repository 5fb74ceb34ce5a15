-- ===== src/Auction/Page/Filled.antt =====
-- app/scripts/index.js: the form for a new product, from what is filled in to what is stored.
use blockchain_tutorial.Prelude.{◌≡◌, refl, ap, ◌∙◌, List, [], ◌∷◌, Option, some, arith, All}
use blockchain_tutorial.Js.{ok, ◌>>◌}
use blockchain_tutorial.Js.Number.{Text, codes}
use blockchain_tutorial.Js.Uri.Encoded.{
  form_encoded, IsPlain, decode_uri-form_encoded, decode_uri_component-halves,
}
use blockchain_tutorial.Js.Json.{Members}
use blockchain_tutorial.Auction.Page.{Event, serialize, prevent_default, Surroundings, effect}
use blockchain_tutorial.Auction.Page.Saving.{Params, save_product}
use blockchain_tutorial.Auction.Page.Form.{
  read_params, decode_param, then_component, decode_each, put_decoded, decode_params, params_of,
  or_throw, save_if_whole, item_submitted,
}
use blockchain_tutorial.Auction.Page.Serialized.{
  serialized, AllPlain, encode_values, AllNamed, read_params-serialized,
}

-- The fields of the form, by the names that they have there.
abbrev other_fields : Params → Members
other_fields p =
    (codes "product-description", p.product_description)
    ∷ (codes "product-category", p.product_category)
    ∷ (codes "product-price", p.product_price)
    ∷ (codes "product-condition", p.product_condition)
    ∷ (codes "product-auction-start", p.product_auction_start)
    ∷ (codes "product-auction-end", p.product_auction_end)
    ∷ []

abbrev pub form_fields : Params → Members
form_fields p = (codes "product-name", p.product_name) ∷ other_fields p

decode_param-form_encoded : (v : Text) → All IsPlain v → decode_param (form_encoded v) ≡ some v
decode_param-form_encoded v h =
    ap then_component (decode_uri-form_encoded v h) ∙ decode_uri_component-halves v h

decode_each-encode_values : (ms : Members) → AllPlain ms → decode_each (encode_values ms) ≡ some ms
decode_each-encode_values [] h = refl
decode_each-encode_values ((k, v) ∷ ms) (p, h) =
    ap (λ o. put_decoded k o (decode_each (encode_values ms))) (decode_param-form_encoded v p)
    ∙ ap (put_decoded k (some v)) (decode_each-encode_values ms h)

form_fields-AllNamed : (p : Params) → AllNamed (form_fields p)
form_fields-AllNamed p = omega arith

form_read :
    (p : Params)
    → AllPlain (form_fields p)
    → read_params (serialized (form_fields p)) ≡ ok (encode_values (form_fields p))
form_read p h =
    read_params-serialized (codes "product-name") p.product_name (other_fields p)
      (form_fields-AllNamed p) h

form_decoded :
    (p : Params)
    → AllPlain (form_fields p)
    → decode_params (encode_values (form_fields p)) ≡ ok (form_fields p)
unfolding decode_params
form_decoded p h =
    ap (or_throw "URIError: URI malformed") (decode_each-encode_values (form_fields p) h)

params_of-form_fields : (p : Params) → params_of (form_fields p) ≡ some p
unfolding params_of
params_of-form_fields p = refl

-- Suppose that the fields of the form for a new product hold only characters of one code unit, no
-- `%` and no line end, and that jQuery answers with the form's `name=value` pairs in the order of
-- the page, joined by `&`, each value encoded as by `encodeURIComponent`. Then the handler does what
-- `saveProduct` does with the file's content and these very fields, and then keeps the browser from
-- sending the form.
pub item_submitted-reads :
    (w : Surroundings) (reader : Option Text) (p : Params) (t : List Event)
    → AllPlain (form_fields p)
    → w.answer t serialize ≡ ok (serialized (form_fields p))
    → item_submitted w reader t
      ≡ (save_product w reader p >> effect prevent_default) (serialize ∷ t)
unfolding item_submitted
item_submitted-reads w reader p t h e = rw (e) (
    rw (form_read p h) (
      rw (form_decoded p h) (
        ap (λ o. (save_if_whole w reader o >> effect prevent_default) (serialize ∷ t))
          (params_of-form_fields p))))
