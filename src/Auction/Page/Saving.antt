-- ===== src/Auction/Page/Saving.antt =====
-- app/scripts/index.js: how a new product is stored.
use blockchain_tutorial.Prelude.{suc, ◌*◌, Option, none, some}
use blockchain_tutorial.Js.{type_error, raise, lift, catch, ◌>>=◌, ◌>>◌}
use blockchain_tutorial.Js.Int.{pos, negsuc}
use blockchain_tutorial.Js.Number.{Text, Number, codes, parse_int, nan, int, add_number, negate}
use blockchain_tutorial.Auction.Page.{
  show, html, deployed, add, send_product, Surroundings, Action, ask, effect, start, account,
}

-- The fields of the form, decoded.
pub record Params : Type 0 where
  pub product_name : Text
  pub product_category : Text
  pub product_description : Text
  pub product_auction_start : Text
  pub product_auction_end : Text
  pub product_price : Text
  pub product_condition : Text

-- `n * 24 * 60 * 60`
abbrev pub days_to_seconds : Number → Number
days_to_seconds nan = nan
days_to_seconds (int (pos n)) = int (pos (n * 86400))
days_to_seconds (int (negsuc n)) = int (negate (suc n * 86400))

module _ (w : Surroundings) where
  -- `saveImageOnIpfs`; `none` where no file was read
  abbrev pub save_image_on_ipfs : Option Text → Action Text
  save_image_on_ipfs none = raise (type_error "no image")
  save_image_on_ipfs (some content) = catch (ask w (add content)) (λ e. raise e)

  -- `saveTextBlobOnIpfs`
  abbrev pub save_text_blob_on_ipfs : Text → Action Text
  save_text_blob_on_ipfs blob = catch (ask w (add blob)) (λ e. raise e)

  -- `saveProductToBlockchain`
  unfoldable pub save_product_to_blockchain : Params → Text → Text → Action Unit
  save_product_to_blockchain params image_id desc_id =
      let auction_start_time = w.date_seconds params.product_auction_start in
      let auction_end_time =
        add_number auction_start_time (days_to_seconds (parse_int params.product_auction_end)) in
      start (do
        ask w deployed
        price ← lift (w.to_wei params.product_price)
        from ← account w
        ask w (
            send_product params.product_name params.product_category image_id desc_id
              auction_start_time auction_end_time price (parse_int params.product_condition) from)
        effect (show "#msg")
        effect (html "#msg" (codes "Your product was successfully added to your store!")))

  -- `saveProduct`
  unfoldable pub save_product : Option Text → Params → Action Unit
  save_product reader params = start (do
    image_id ← save_image_on_ipfs reader
    start (do
      desc_id ← save_text_blob_on_ipfs params.product_description
      save_product_to_blockchain params image_id desc_id))
