-- ===== src/Auction/Page/Details.antt =====
-- app/scripts/index.js: the list of products and the details of one.
use blockchain_tutorial.Prelude.{
  ℕ, ◌+◌, Option, some, List, [], ◌∷◌, ◌++◌, String, ltb, ◌==◌, if◌then◌else◌,
}
use blockchain_tutorial.Js.{◌>>=◌, ◌>>◌}
use blockchain_tutorial.Js.Number.{Text, codes}
use blockchain_tutorial.Auction.Countdown.{get_current_time, shown, display_end_time}
use blockchain_tutorial.Auction.Page.{
  ProductInfo, EscrowInfo, show, hide, html, append, set_val, deployed, get_product,
  highest_bidder_info, escrow_info, cat, Surroundings, Action, ask, effect, start, clock,
}

-- What is appended to the node of a product in the list.
abbrev pub build_product : ProductInfo → List Text
build_product p =
    (codes "<a href='product.html?id="
      ++ shown p.id
      ++ codes "'><img src='http://localhost:9001/ipfs/"
      ++ p.image_link
      ++ codes "' width='150px' /></a>")
    ∷ (codes "<div>" ++ p.name ++ codes "</div>")
    ∷ (codes "<div>" ++ p.category ++ codes "</div>")
    ∷ (codes "<div>" ++ shown p.auction_start_time ++ codes "</div>")
    ∷ (codes "<div>" ++ shown p.auction_end_time ++ codes "</div>")
    ∷ (codes "<div> Ether " ++ shown p.start_price ++ codes "</div>")
    ∷ []

abbrev joined : List Text → Text
joined [] = []
joined (a ∷ as') = a ++ joined as'

-- The form that is shown for a product that is neither sold nor unsold.
unfoldable pub section_at : (current_time auction_end_time : ℕ) → String
section_at current_time auction_end_time =
    if ltb current_time auction_end_time
    then "#bidding"
    else if ltb current_time (auction_end_time + 200)
    then "#revealing"
    else "#finalize-auction"

module _ (w : Surroundings) where
  -- `displayPrice`
  abbrev pub display_price : ℕ → Text
  display_price amount = w.from_wei amount ++ codes "ETH"

  abbrev show_listed : Text → Action Unit
  show_listed id = start (do
    p ← ask w (get_product (some id))
    effect (append "#product-list" (joined (build_product p))))

  -- `renderStore`
  unfoldable pub render_store : Action Unit
  render_store = start (do ask w deployed; show_listed (codes "1"); show_listed (codes "2"))

  abbrev show_counts : EscrowInfo → Action Unit
  show_counts info =
      if info.funds_disbursed
      then (do
        effect (hide "#release-funds")
        effect (hide "#refund-funds")
        effect (html "#release-count" (codes "Amount from the escrow has been released")))
      else (do
        effect (
            html "#release-count" (
              shown info.release_count
              ++ codes " of 3 participants have agreed to release funds to seller"))
        effect (
            html "#refund-count" (
              shown info.refund_count
              ++ codes " of 3 participants have agreed to refund the buyer")))

  -- What is shown of a sold product.
  unfoldable pub sold_details : Option Text → Action Unit
  sold_details product_id = start (do
    ask w deployed
    effect (show "#escrow-info")
    start (do
      info ← ask w (highest_bidder_info product_id)
      effect (
          html "#product-status" (
            codes "Auction has ended. Product sold to "
            ++ info.highest_bidder
            ++ codes " for "
            ++ display_price info.second_highest_bid
            ++ codes
                "The money is in the escrow. Two of the three participants (Buyer, Seller and Arbiter) have to either release the funds to seller or refund the money to the buyer")))
    start (do
      info ← ask w (escrow_info product_id)
      effect (html "#seller" (codes "Seller: " ++ info.seller))
      effect (html "#buyer" (codes "Buyer: " ++ info.buyer))
      effect (html "#arbiter" (codes "Arbiter: " ++ info.arbiter))
      show_counts info))

  -- `renderProductDetails`; the status is a number of the contract
  unfoldable pub render_product_details : Option Text → Action Unit
  unfolding section_at sold_details
  render_product_details product_id = start (do
    ask w deployed
    p ← ask w (get_product product_id)
    start (do
      file ← ask w (cat p.desc_link)
      effect (append "#product-desc" (codes "<div>" ++ file ++ codes "</div>")))
    effect (
        append "#product-image" (
          codes "<img src='http://localhost:9001/ipfs/"
          ++ p.image_link
          ++ codes "' width='250px' />"))
    effect (html "#product-name" p.name)
    effect (html "#product-price" (display_price p.start_price))
    effect (set_val "#product-id" (shown p.id))
    at ← clock w
    effect (html "#product-auction-end" (display_end_time p.auction_end_time at))
    effect (hide "#bidding, #revealing, #finalize-auction, #escrow-info")
    now ← clock w
    if p.status == 1
        then sold_details product_id
        else if p.status == 2
        then effect (html "#product-status" (codes "Product not sold"))
        else effect (show (section_at (get_current_time now) p.auction_end_time)))
