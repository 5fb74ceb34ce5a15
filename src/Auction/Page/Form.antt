-- ===== src/Auction/Page/Form.antt =====
-- app/scripts/index.js: how the form for a new product is read.
use blockchain_tutorial.Prelude.{ℕ, Option, none, some, String, [], ◌∷◌, ◌++◌, ◌==◌, if◌then◌else◌}
use blockchain_tutorial.Js.{Exception, thrown, Outcome, ok, throw, pure, lift, ◌>>=◌, ◌>>◌}
use blockchain_tutorial.Js.Number.{Text, codes}
use blockchain_tutorial.Js.Uri.{decode_uri, decode_uri_component}
use blockchain_tutorial.Js.Json.{Members, get, parse_object}
use blockchain_tutorial.Auction.Page.{serialize, prevent_default, Surroundings, Action, ask, effect}
use blockchain_tutorial.Auction.Page.Saving.{Params, save_product}

-- `s.replace(/c/g, by)`
abbrev pub replace : (c : ℕ) (by s : Text) → Text
replace c by [] = []
replace c by (d ∷ s) = (if d == c then by else d ∷ []) ++ replace c by s

-- `'{"' + req.replace(/"/g, '\\"').replace(/&/g,'","').replace(/=/g,'":"') + '"}'`
abbrev pub params_text : Text → Text
params_text req =
    codes "{\""
    ++ (replace b'=' (codes "\":\"")
          (replace b'&' (codes "\",\"") (replace b'"' (codes "\\\"") req))
        ++ codes "\"}")

abbrev pub or_throw : {A : Type 0} → String → Option A → Outcome Exception A
or_throw e none = throw (thrown e)
or_throw e (some a) = ok a

-- `JSON.parse` of that text
unfoldable pub read_params : Text → Outcome Exception Members
read_params req = or_throw "SyntaxError" (parse_object (params_text req))

-- `decodeURIComponent(decodeURI(value))`
abbrev pub then_component : Option Text → Option Text
then_component none = none
then_component (some value) = decode_uri_component value

abbrev pub decode_param : Text → Option Text
decode_param value = then_component (decode_uri value)

abbrev pub put_decoded : (key : Text) → Option Text → Option Members → Option Members
put_decoded key none rest = none
put_decoded key (some value) none = none
put_decoded key (some value) (some rest) = some ((key, value) ∷ rest)

-- The loop over the keys, which are distinct. Whichever value is malformed, `URIError` is thrown.
abbrev pub decode_each : Members → Option Members
decode_each [] = some []
decode_each ((key, value) ∷ ms) = put_decoded key (decode_param value) (decode_each ms)

unfoldable pub decode_params : Members → Outcome Exception Members
decode_params params = or_throw "URIError: URI malformed" (decode_each params)

abbrev pub field : Members → String → (Text → Option Params) → Option Params
field ms key k = elim (get (codes key) ms) [ none ↦ none | some v ↦ k v ]

-- What `saveProductToBlockchain` reads of the object; the form has all these fields.
unfoldable pub params_of : Members → Option Params
params_of ms = field ms "product-name" λ name. field ms "product-category" λ category.
    field ms "product-description" λ description. field ms "product-auction-start" λ start.
      field ms "product-auction-end" λ end. field ms "product-price" λ price.
        field ms "product-condition" λ condition. some (record {
          product_name = name;
          product_category = category;
          product_description = description;
          product_auction_start = start;
          product_auction_end = end;
          product_price = price;
          product_condition = condition;
        })

module _ (w : Surroundings) where
  abbrev pub save_if_whole : (reader : Option Text) → Option Params → Action Unit
  save_if_whole reader none = pure tt
  save_if_whole reader (some params) = save_product w reader params

  -- The handler of the form `add-item-to-store`, with the content of the file that was read.
  unfoldable pub item_submitted : (reader : Option Text) → Action Unit
  unfolding read_params decode_params params_of
  item_submitted reader = do
    req ← ask w serialize
    params ← lift (read_params req)
    decoded_params ← lift (decode_params params)
    save_if_whole reader (params_of decoded_params)
    effect prevent_default
