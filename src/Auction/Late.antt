-- ===== src/Auction/Late.antt =====
-- A bid that is revealed after its auction was finalized.
use blockchain_tutorial.Prelude.{
  ℕ, ◌+◌, ◌-◌, ◌*◌, ◌<◌, ◌≤◌, ◌≡◌, ◌≢◌, ap, ◌∙◌, Bool, true, false, none, some, ◌++◌, arith,
}
use blockchain_tutorial.Js.Number.{Text}
use blockchain_tutorial.Crowdfunding.{word}
use blockchain_tutorial.Auction.{Store, product_of, is_open, sold}
use blockchain_tutorial.Auction.Bidding.{string_to_uint, reveal_bid}
use blockchain_tutorial.Auction.Sale.{finalize_auction}
use blockchain_tutorial.Auction.Later.{LeavesProduct, Later, Later-IsOver}
use blockchain_tutorial.Auction.Reveals.{higher-Counts, reveal_bid-count_bid, ltb-false, ==_false}

module _ (receives : ℕ → ℕ → Bool) where
  -- What a sale leaves.
  finalized_sale :
      (b now id : ℕ) (s t : Store)
      → finalize_auction receives b now id s ≡ some t
      → (product_of s id).highest_bidder ≢ 0
      → (product_of s id).second_highest_bid ≤ (product_of s id).highest_bid
      → (product_of s id).highest_bid < word
      → ((product_of t id) ≡ record (product_of s id) { status = sold })
        × (t.balance + (product_of s id).highest_bid ≡ s.balance)
        × ((product_of s id).auction_end_time < now)
  unfolding finalize_auction
  finalized_sale b now id s t h winner price small = ground arith

  sold_once :
      (c now id : ℕ) (s : Store)
      → is_open (product_of s id).status ≡ false
      → finalize_auction receives c now id s ≡ none
  unfolding finalize_auction
  sold_once c now id s h = ground arith

  -- A bid that is revealed after a sale is still counted, though the winner has been refunded and
  -- the price is in escrow. If it is made with an address other than 0, not yet revealed, covered by
  -- its deposit and above the highest bid, the store accepts it in the state that the sale has left,
  -- and pays the highest bid a second time: between the sale and then it has paid twice the highest
  -- bid and what the new bid was over its amount. And in every state that calls reach after the
  -- sale, reveals among them, while no product is added under the same number, whoever calls for
  -- the end of the auction is refused. This holds where the price was not above the highest bid,
  -- that is below 2^256, all addresses accept money, and the store still has the deposit and the
  -- highest bid.
  pub late_reveal_pays_again :
      (all_receive : (x v : ℕ) → receives x v ≡ true) (sha3 : Text → ℕ) (a b now later id key n : ℕ)
      (amount secret : Text) (s t r : Store) (c at : ℕ)
      → finalize_auction receives b now id s ≡ some t
      → (product_of s id).highest_bidder ≢ 0
      → (product_of s id).second_highest_bid ≤ (product_of s id).highest_bid
      → (product_of s id).highest_bid < word
      → now ≤ later
      → sha3 (amount ++ secret) ≡ key
      → string_to_uint amount ≡ n
      → ((product_of s id).bids a key).bidder ≢ 0
      → ((product_of s id).bids a key).revealed ≡ false
      → n ≤ ((product_of s id).bids a key).value
      → (product_of s id).highest_bid < n
      → ((product_of s id).bids a key).value + (product_of s id).highest_bid ≤ t.balance
      → Later receives sha3 (LeavesProduct id) t r
      → (u : Store) × (reveal_bid receives sha3 a later id amount secret t ≡ some u)
        × (u.balance
              + (((product_of s id).bids a key).value - n)
              + 2 * (product_of s id).highest_bid
            ≡ s.balance)
        × (finalize_auction receives c at id r ≡ none)
  late_reveal_pays_again all_receive sha3 a b now later id key n amount secret s t r c at sale
        winner price small order same_key same_amount given fresh covered above funded reached =
      let (same, spent, over) = finalized_sale b now id s t sale winner price small in
      let p = record (product_of s id) { status = sold } in
      let (u, counted, product, paid) =
        higher-Counts receives all_receive a id key n p t (ltb-false (p.bids a key).value n covered)
          funded (==_false p.highest_bidder winner) (ground arith) in
      (
        u,
        reveal_bid-count_bid receives all_receive sha3 a later id key n amount secret t same_key
              same_amount (rw same (ltb-false later p.auction_end_time (omega (arith, over))))
              (rw same (==_false (p.bids a key).bidder given)) (rw same fresh)
            ∙ rw same counted,
        omega (arith, paid, spent),
        sold_once c at id r
            (Later-IsOver receives sha3 id t r reached (ap (λ x. is_open x.status) same)),
      )
