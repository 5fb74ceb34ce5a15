-- ===== src/Auction/Opened.antt =====
-- A bid that the page seals is the one that it reveals.
use blockchain_tutorial.Prelude.{
  ℕ, ◌+◌, ◌<◌, ◌≤◌, ◌≡◌, ◌≢◌, sym, ap, ◌∙◌, Bool, true, some, ◌++◌, arith, if◌then◌else◌,
}
use blockchain_tutorial.Js.{ok}
use blockchain_tutorial.Js.Number.{Text}
use blockchain_tutorial.Crowdfunding.{word}
use blockchain_tutorial.Auction.{Store, product_of}
use blockchain_tutorial.Auction.Bidding.{bid, reveal_bid}
use blockchain_tutorial.Auction.Countdown.{shown}
use blockchain_tutorial.Auction.Digits.{string_to_uint-to_string}
use blockchain_tutorial.Auction.Later.{Later, LeavesBid, Placed, Later-Placed}
use blockchain_tutorial.Auction.Page.{Surroundings, sealed_bid}
use blockchain_tutorial.Auction.Reveals.{
  is_leading, returned, ltb-false, ==_false, covered_bid_counts, reveal_bid-count_bid,
}

bid-Placed :
    (a v now id key : ℕ) (s t : Store)
    → bid a v now id key s ≡ some t
    → Placed a id key v (product_of s id).auction_end_time t
unfolding bid
bid-Placed a v now id key s t h = ground arith

module _ (receives : ℕ → ℕ → Bool) (all_receive : (b x : ℕ) → receives b x ≡ true) where
  -- A bid whose text the page seals from an amount, which web3 prints as a number of wei below
  -- 2^256, and a secret, and which the contract accepts with at least that value, can be revealed
  -- from the end of the auction with what the page then sends, the same number and secret, in every
  -- state that calls reach after the bid, while none of them has revealed it or added a product
  -- under the same number. It is marked as revealed, and leads where there is no leader or the
  -- number is above the highest bid so far. The store pays all that it does not keep as the
  -- highest bid: to the bidder, and to one that led before. This holds where the bidder is not
  -- address 0, all addresses accept money, and the store has the value of the bid and the highest
  -- bid of the product.
  pub revealed_bid_counts :
      (w : Surroundings) (a v now later id n key : ℕ) (amount secret : Text) (s t r : Store)
      → w.to_wei amount ≡ ok (shown n)
      → n < word
      → sealed_bid w amount secret ≡ ok key
      → a ≢ 0
      → bid a v now id key s ≡ some t
      → Later receives w.sha3 (LeavesBid receives w.sha3 a id key) t r
      → n ≤ v
      → (product_of s id).auction_end_time ≤ later
      → v + (product_of r id).highest_bid ≤ r.balance
      → let p = product_of r id in
        (u : Store) × (reveal_bid receives w.sha3 a later id (shown n) secret r ≡ some u)
        × (((product_of u id).bids a key).revealed ≡ true)
        × ((product_of u id).highest_bidder ≡ (if is_leading n p then a else p.highest_bidder))
        × ((product_of u id).highest_bid ≡ (if is_leading n p then n else p.highest_bid))
        × (u.balance + returned v n p ≡ r.balance)
  revealed_bid_counts w a v now later id n key amount secret s t r wei small sealed given placed
        reached covers over funded =
      let (who, value, fresh, ends) =
        Later-Placed receives w.sha3 a id key v (product_of s id).auction_end_time given t r reached
          (bid-Placed a v now id key s t placed) in
      let sent = rw (wei, sealed_bid) at sealed in
      let same_key : w.sha3 (shown n ++ secret) ≡ key = cc in
      let (u, counted, marked_now, leader, amount_now, paid) =
        covered_bid_counts receives all_receive a id key n (product_of r id) r (ground arith)
          (omega (arith, value)) in
      (
        u,
        reveal_bid-count_bid receives all_receive w.sha3 a later id key n (shown n) secret r
              same_key (string_to_uint-to_string n small)
              (ltb-false later (product_of r id).auction_end_time (omega (arith, ends)))
              (rw who (==_false a given)) fresh
            ∙ counted,
        marked_now,
        leader,
        amount_now,
        ap (λ x. u.balance + returned x n (product_of r id)) (sym value) ∙ paid,
      )
