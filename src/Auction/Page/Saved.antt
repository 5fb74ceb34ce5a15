-- ===== src/Auction/Page/Saved.antt =====
-- app/scripts/index.js: what has happened before a new product is sent to the store.
use blockchain_tutorial.Prelude.{◌≡◌, refl, Option, none, some, List, [], ◌∷◌}
use blockchain_tutorial.Js.{
  Exception, Outcome, ok, throw, pending, raise, lift, settle, continue, ◌>>=◌,
}
use blockchain_tutorial.Js.Trace.{Keeps, Keeps-bind}
use blockchain_tutorial.Js.Number.{Text, codes, parse_int, add_number}
use blockchain_tutorial.Auction.Page.{
  Event, show, html, deployed, add, send_product, Surroundings, Action, ask, effect, account,
}
use blockchain_tutorial.Auction.Page.Saving.{
  Params, days_to_seconds, save_product_to_blockchain, save_product,
}

-- The file store was given the content, and answered with the link.
pub data Stored (w : Surroundings) (content link : Text) : List Event → Type 0 where
  now :
      (t : List Event)
      → w.answer t (add content) ≡ ok link
      → Stored w content link (add content ∷ t)
  before : (c : Event) (t : List Event) → Stored w content link t → Stored w content link (c ∷ t)

module _ (w : Surroundings) (image : Option Text) (params : Params) where
  -- A product that is sent is the one of the form: its links are those of the image and the
  -- description in the file store, and its price is in wei.
  abbrev pub IsBacked : Event → List Event → Type 0
  IsBacked (send_product name category image_id desc_id from until price condition _) t =
      (name ≡ params.product_name)
      × (category ≡ params.product_category)
      × ((content : Text) × (image ≡ some content) × Stored w content image_id t)
      × Stored w params.product_description desc_id t
      × (from ≡ w.date_seconds params.product_auction_start)
      × (until ≡ add_number from (days_to_seconds (parse_int params.product_auction_end)))
      × (w.to_wei params.product_price ≡ ok price)
      × (condition ≡ parse_int params.product_condition)
  IsBacked _ t = Unit

  abbrev pub AllBacked : List Event → Type 0
  AllBacked [] = Unit
  AllBacked (c ∷ t) = IsBacked c t × AllBacked t

lift-Keeps :
    {P : List Event → Type 0} {A B : Type 0} (o : Outcome Exception A) (f : A → Action B)
    → ((a : A) → o ≡ ok a → Keeps P (f a))
    → Keeps P (lift o >>= f)
lift-Keeps (ok a) f k = k a refl
lift-Keeps (throw e) f k = record { at = λ t p. p }
lift-Keeps pending f k = record { at = λ t p. p }

module _ (w : Surroundings) (content : Text) (params : Params) (image_id desc_id : Text) where
  -- Both files are stored, and what was sent is backed.
  abbrev IsReady : List Event → Type 0
  IsReady t =
      Stored w content image_id t
      × Stored w params.product_description desc_id t
      × AllBacked w (some content) params t

  event-Ready :
      (c : Event) (t : List Event)
      → IsBacked w (some content) params c t
      → IsReady t
      → IsReady (c ∷ t)
  event-Ready c t b (i, d, h) = (before c t i, before c t d, (b, h))

  ask-Ready :
      (c : Event)
      → ((t : List Event) → IsReady t → IsBacked w (some content) params c t)
      → Keeps IsReady (ask w c)
  ask-Ready c b = record { at = λ t r. event-Ready c t (b t r) r }

  effect-Ready :
      (c : Event)
      → ((t : List Event) → IsBacked w (some content) params c t)
      → Keeps IsReady (effect c)
  effect-Ready c b = record { at = λ t r. event-Ready c t (b t) r }

  abbrev sent : Text → Option Text → Event
  sent price from =
      let auction_start_time = w.date_seconds params.product_auction_start in
      send_product params.product_name params.product_category image_id desc_id auction_start_time
        (add_number auction_start_time (days_to_seconds (parse_int params.product_auction_end)))
        price (parse_int params.product_condition) from

  to_blockchain-Ready : Keeps IsReady (save_product_to_blockchain w params image_id desc_id)
  unfolding save_product_to_blockchain
  to_blockchain-Ready = record {
    at =
        (Keeps-bind (ask w deployed) _ (ask-Ready deployed λ t r. tt) λ _.
          lift-Keeps (w.to_wei params.product_price) _ λ price e.
            Keeps-bind (account w) _ (record { at = λ t r. r })
              λ from.
                Keeps-bind (ask w (sent price from)) _
                  (ask-Ready (sent price from)
                    λ t r. (refl, refl, (content, refl, r.0), r.1, refl, refl, e, refl))
                  λ _. Keeps-bind (effect (show "#msg")) _ (effect-Ready (show "#msg") λ t. tt) λ _.
                    effect-Ready
                      (html "#msg" (codes "Your product was successfully added to your store!"))
                      λ t. tt).at;
  }

-- After a request to the file store whose failure is passed on.
stored-then :
    (P : List Event → Type 0) (o : Outcome Exception Text) (t : List Event) (f : Text → Action Unit)
    → P t
    → ((link : Text) → o ≡ ok link → P (f link t).1)
    → P (continue (settle o t (λ e. raise e)).0 (settle o t (λ e. raise e)).1 f).1
stored-then P (ok link) t f h k = k link refl
stored-then P (throw e) t f h k = h
stored-then P pending t f h k = h

-- Whatever the wallet and the file store answer, `saveProduct` sends the store of products none but
-- the product of the form, where none was sent before: with its name, category and condition, its
-- times and its price in wei, with the link that the file store has answered for the image, and
-- with the one that it has answered for the description. Without an image it sends none.
pub save_product-AllBacked :
    (w : Surroundings) (image : Option Text) (params : Params) (t : List Event)
    → AllBacked w image params t
    → AllBacked w image params (save_product w image params t).1
unfolding save_product
save_product-AllBacked w none params t h = h
save_product-AllBacked w (some content) params t h =
    let P = AllBacked w (some content) params in
    let u = add content ∷ t in
    let v = add params.product_description ∷ u in
    stored-then P (w.answer t (add content)) u _ (tt, h)
      λ image_id e.
        stored-then P (w.answer u (add params.product_description)) v _ (tt, (tt, h))
          λ desc_id d.
            ((to_blockchain-Ready w content params image_id desc_id).at v
              (before _ u (now t e), now u d, (tt, (tt, h)))).2
