-- ===== src/Auction/Ranking/Reached.antt =====
-- The ranking of bids in every state that the store can reach.
use blockchain_tutorial.Prelude.{
  ℕ, ◌+◌, ◌%◌, ◌≡◌, ◌≢◌, inl, inr, refl, Bool, some, List, [], ◌∷◌, ◌++◌, String, if◌then◌else◌,
  arith, Bool-cases, ◌==◌,
}
use blockchain_tutorial.Js.Number.{Text}
use blockchain_tutorial.Crowdfunding.{word}
use blockchain_tutorial.Auction.{Product, Store, product_of}
use blockchain_tutorial.Auction.Bidding.{
  add_product_to_store, bid, string_to_uint, reveal_bid, count_bid,
}
use blockchain_tutorial.Auction.Sale.{finalize_auction, release_amount, refund_amount}
use blockchain_tutorial.Auction.Calls.{
  adding, bidding, revealing, finalizing, releasing, refunding, execute, tally, Reaches, deployed,
  executed,
}
use blockchain_tutorial.Auction.Ranking.Counted.{count_bid-IsRanked, count_bid-others}
use blockchain_tutorial.Auction.Ranking.{IsRanked}

-- Where a call leaves the ranking as it is.
abbrev SameRank : Product → Product → Type 0
SameRank p q =
    (q.start_price ≡ p.start_price)
    × (q.highest_bidder ≡ p.highest_bidder)
    × (q.highest_bid ≡ p.highest_bid)
    × (q.second_highest_bid ≡ p.second_highest_bid)

SameRank-IsRanked : (p q : Product) (ns : List ℕ) → SameRank p q → IsRanked p ns → IsRanked q ns
SameRank-IsRanked p q [] e r = cc
SameRank-IsRanked p q (n ∷ ns) (a, b, c, d) r = rw (a, b, c, d) r

bid-SameRank :
    (sender value now id sealed j : ℕ) (s t : Store)
    → bid sender value now id sealed s ≡ some t
    → SameRank (product_of s j) (product_of t j)
unfolding bid
bid-SameRank sender value now id sealed j s t h = ground arith

module _ (receives : ℕ → ℕ → Bool) where
  finalize_auction-SameRank :
      (sender now id j : ℕ) (s t : Store)
      → finalize_auction receives sender now id s ≡ some t
      → SameRank (product_of s j) (product_of t j)
  unfolding finalize_auction
  finalize_auction-SameRank sender now id j s t h = ground arith

  release_amount-SameRank :
      (sender id j : ℕ) (s t : Store)
      → release_amount receives sender id s ≡ some t
      → SameRank (product_of s j) (product_of t j)
  unfolding release_amount
  release_amount-SameRank sender id j s t h = ground arith

  refund_amount-SameRank :
      (sender id j : ℕ) (s t : Store)
      → refund_amount receives sender id s ≡ some t
      → SameRank (product_of s j) (product_of t j)
  unfolding refund_amount
  refund_amount-SameRank sender id j s t h = ground arith

add_product-ranks :
    (sender : ℕ) (name category image_link desc_link : String) (start end price condition j : ℕ)
    (s t : Store) (ns : List ℕ)
    → add_product_to_store sender name category image_link desc_link start end price condition s
      ≡ some t
    → IsRanked (product_of s j) ns
    → IsRanked (product_of t j) (if j == (s.product_index + 1) % word then [] else ns)
unfolding add_product_to_store
add_product-ranks sender name category image_link desc_link start end price condition j s t ns h r =
    elim (Bool-cases (j == (s.product_index + 1) % word)) [
      | inl new ↦ rw new (ground arith)
      | inr old ↦ let same : product_of t j ≡ product_of s j = ground arith in rw (old, same) r
    ]

module _ (receives : ℕ → ℕ → Bool) (sha3 : Text → ℕ) where
  reveal_bid-ranks :
      (sender now id : ℕ) (amount secret : Text) (j : ℕ) (s t : Store) (f : ℕ → List ℕ)
      → sender ≢ 0
      → reveal_bid receives sha3 sender now id amount secret s ≡ some t
      → ((i : ℕ) → IsRanked (product_of s i) (f i))
      → IsRanked
          (product_of t j)
          (tally receives sha3 (revealing sender now id amount secret) s f j)
  unfolding reveal_bid
  reveal_bid-ranks sender now id amount secret j s t f o h r =
      let counted : count_bid receives sender id (sha3 (amount ++ secret)) (string_to_uint amount)
            (product_of s id) s
          ≡ some t =
        ground arith in
      elim (Bool-cases (j == id)) [
        | inl own ↦
            let at : j ≡ id = ground arith in
            rw own (
              rw at (
                count_bid-IsRanked receives sender id (sha3 (amount ++ secret))
                  (string_to_uint amount) s t (product_of s id) o (f id) counted (r id)))
        | inr other ↦
            let same : product_of t j ≡ product_of s j =
              count_bid-others receives sender id (sha3 (amount ++ secret)) (string_to_uint amount)
                j (product_of s id) s t counted (ground arith) in
            rw (other, same) (r j)
      ]

  -- In every state that a new store can reach with calls from addresses other than 0: a product
  -- without a revealed and covered amount has no highest bidder; any other has one, its highest bid
  -- is the greatest of these amounts, and where none of them is below the start price, its
  -- second highest bid, which is the price, is the greatest of the other amounts or the start
  -- price, whichever is more.
  pub bids-IsRanked :
      (s : Store) (f : ℕ → List ℕ)
      → Reaches receives sha3 s f
      → (i : ℕ) → IsRanked (product_of s i) (f i)
  unfolding execute
  bids-IsRanked s f deployed i = refl
  bids-IsRanked _ _ (executed (adding a n c d e b u p k) s t f r o h) i =
      add_product-ranks a n c d e b u p k i s t (f i) h (bids-IsRanked s f r i)
  bids-IsRanked _ _ (executed (bidding a v now id k) s t f r o h) i =
      SameRank-IsRanked (product_of s i) (product_of t i) (f i) (bid-SameRank a v now id k i s t h)
        (bids-IsRanked s f r i)
  bids-IsRanked _ _ (executed (revealing a now id m k) s t f r o h) i =
      reveal_bid-ranks a now id m k i s t f o h (bids-IsRanked s f r)
  bids-IsRanked _ _ (executed (finalizing a now id) s t f r o h) i =
      SameRank-IsRanked (product_of s i) (product_of t i) (f i)
        (finalize_auction-SameRank receives a now id i s t h) (bids-IsRanked s f r i)
  bids-IsRanked _ _ (executed (releasing a id) s t f r o h) i =
      SameRank-IsRanked (product_of s i) (product_of t i) (f i)
        (release_amount-SameRank receives a id i s t h) (bids-IsRanked s f r i)
  bids-IsRanked _ _ (executed (refunding a id) s t f r o h) i =
      SameRank-IsRanked (product_of s i) (product_of t i) (f i)
        (refund_amount-SameRank receives a id i s t h) (bids-IsRanked s f r i)
