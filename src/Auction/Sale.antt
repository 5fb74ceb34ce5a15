-- ===== src/Auction/Sale.antt =====
-- contracts/EcommerceStore.sol: how an auction is finalized, and what its escrow is told.
use blockchain_tutorial.Prelude.{
  ℕ, ◌+◌, ◌-◌, ◌%◌, Bool, not, Option, none, some, ltb, leb, ◌==◌, if◌then◌else◌,
}
use blockchain_tutorial.Crowdfunding.{word, assign}
use blockchain_tutorial.Auction.{
  sold, unsold, Product, Store, product_of, put_product, bind, is_open, transfer,
}
use blockchain_tutorial.Auction.Escrows.{
  Escrow, create, release_amount_to_seller, refund_amount_to_buyer,
}

module _ (receives : ℕ → ℕ → Bool) where
  -- The branch of `finalizeAuction` with a winner: the price goes to a new escrow, and what the
  -- winner bid above it is returned.
  abbrev pub sell : (sender id : ℕ) → Product → Store → Option Store
  sell sender id p s =
      let price = p.second_highest_bid in
      if ltb s.balance price
      then none
      else bind
          (transfer receives p.highest_bidder ((p.highest_bid + word - price) % word) (record s {
            balance = s.balance - price;
            product_escrow =
                assign s.product_escrow id
                  (some (create id (s.product_id_in_store id) p.highest_bidder sender price));
          }))
          (λ t. some (put_product id (record p { status = sold }) t))

  -- `finalizeAuction`
  unfoldable pub finalize_auction : (sender now id : ℕ) → Store → Option Store
  finalize_auction sender now id s =
      let p = product_of s id in
      if leb now p.auction_end_time
      then none
      else if not (is_open p.status)
      then none
      else if sender == s.product_id_in_store id
      then none
      else if sender == p.highest_bidder
      then none
      else if p.highest_bidder == 0
      then some (put_product id (record p { status = unsold }) s)
      else sell sender id p s

  abbrev put_escrow : ℕ → Store → Escrow → Option Store
  put_escrow id s e = some (record s { product_escrow = assign s.product_escrow id (some e) })

  -- `releaseAmountToSeller` and `refundAmountToBuyer`; a call of address 0 reverts
  unfoldable pub release_amount : (sender id : ℕ) → Store → Option Store
  release_amount sender id s =
      bind (s.product_escrow id)
        (λ e. bind (release_amount_to_seller receives sender e) (put_escrow id s))

  unfoldable pub refund_amount : (sender id : ℕ) → Store → Option Store
  refund_amount sender id s =
      bind (s.product_escrow id)
        (λ e. bind (refund_amount_to_buyer receives sender e) (put_escrow id s))
