-- ===== src/Auction/Page/Start.antt =====
-- app/scripts/index.js: the start of the page, and the file that is chosen for a new product.
use blockchain_tutorial.Prelude.{Bool, Option, none, some, if◌then◌else◌}
use blockchain_tutorial.Js.{thrown, pure, raise, ◌>>◌}
use blockchain_tutorial.Js.Number.{Text}
use blockchain_tutorial.Auction.Page.{Surroundings, Action}
use blockchain_tutorial.Auction.Page.Details.{render_store, render_product_details}
use blockchain_tutorial.Auction.Page.Form.{item_submitted}

-- The variable `reader`: undefined or with no file, reading a file, or with its content.
pub data Reader : Type 0 where
  unset : Reader
  reading loaded : (content : Text) → Reader

-- The handler of `product-image`. Without a file the new reader reads nothing.
abbrev pub image_changed : (file : Option Text) → Reader
image_changed none = unset
image_changed (some content) = reading content

-- The reader has read its file.
abbrev pub file_read : Reader → Reader
file_read (reading content) = loaded content
file_read r = r

-- `reader.result`, where it is a content
abbrev pub result_of : Reader → Option Text
result_of (loaded content) = some content
result_of _ = none

module _ (w : Surroundings) where
  -- The form is submitted, whatever the reader has got to.
  abbrev pub submitted_with : Reader → Action Unit
  submitted_with r = item_submitted w (result_of r)

  -- `App.start` at a page with or without details of a product.
  unfoldable pub app_start : (has_details : Bool) → Action Unit
  app_start has_details = do
    render_store w
    if has_details then render_product_details w w.url_id else pure tt

  -- The handler of `load`. Its test is always true, so that without a wallet the variable `web3`
  -- is read that is not defined.
  unfoldable pub page_loaded : (has_wallet has_details : Bool) → Action Unit
  unfolding app_start
  page_loaded has_wallet has_details =
      if has_wallet
      then app_start has_details
      else raise (thrown "ReferenceError: web3 is not defined")
