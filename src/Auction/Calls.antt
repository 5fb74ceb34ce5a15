-- ===== src/Auction/Calls.antt =====
-- The calls that change an EcommerceStore, and the states that they reach.
use blockchain_tutorial.Prelude.{
  ℕ, Bool, ◌+◌, ◌%◌, ◌≡◌, ◌≢◌, Option, some, List, [], ◌∷◌, ◌++◌, String, ltb, if◌then◌else◌,
}
use blockchain_tutorial.Js.Number.{Text}
use blockchain_tutorial.Crowdfunding.{word, assign}
use blockchain_tutorial.Auction.{Store, product_of, empty_store}
use blockchain_tutorial.Auction.Bidding.{add_product_to_store, bid, string_to_uint, reveal_bid}
use blockchain_tutorial.Auction.Sale.{finalize_auction, release_amount, refund_amount}

-- A call with its sender, its value and the time of its block.
pub data Call : Type 0 where
  adding :
      (sender : ℕ) (name category image_link desc_link : String) (start end price condition : ℕ)
      → Call
  bidding : (sender value now id sealed : ℕ) → Call
  revealing : (sender now id : ℕ) (amount secret : Text) → Call
  finalizing : (sender now id : ℕ) → Call
  releasing refunding : (sender id : ℕ) → Call

abbrev pub sender_of : Call → ℕ
sender_of (adding a n c i d s e p k) = a
sender_of (bidding a v t id k) = a
sender_of (revealing a t id m k) = a
sender_of (finalizing a t id) = a
sender_of (releasing a id) = a
sender_of (refunding a id) = a

module _ (receives : ℕ → ℕ → Bool) (sha3 : Text → ℕ) where
  unfoldable pub execute : Call → Store → Option Store
  unfolding add_product_to_store bid reveal_bid finalize_auction release_amount refund_amount
  execute (adding a n c i d s e p k) = add_product_to_store a n c i d s e p k
  execute (bidding a v t id k) = bid a v t id k
  execute (revealing a t id m k) = reveal_bid receives sha3 a t id m k
  execute (finalizing a t id) = finalize_auction receives a t id
  execute (releasing a id) = release_amount receives a id
  execute (refunding a id) = refund_amount receives a id

  -- The amounts that were revealed for each product and covered by their deposits, the latest
  -- first. A new product has none.
  abbrev pub tally : Call → Store → (ℕ → List ℕ) → ℕ → List ℕ
  tally (adding a n c i d s e p k) st f = assign f ((st.product_index + 1) % word) []
  tally (bidding a v t id k) st f = f
  tally (revealing a t id m k) st f =
      let n = string_to_uint m in
      assign f id
        (if ltb ((product_of st id).bids a (sha3 (m ++ k))).value n then f id else n ∷ f id)
  tally (finalizing a t id) st f = f
  tally (releasing a id) st f = f
  tally (refunding a id) st f = f

  -- The states that a new store can reach; no call comes from address 0.
  pub data Reaches : Store → (ℕ → List ℕ) → Type 0 where
    deployed : Reaches empty_store (λ i. [])
    executed :
        (c : Call) (s t : Store) (f : ℕ → List ℕ)
        → Reaches s f
        → sender_of c ≢ 0
        → execute c s ≡ some t
        → Reaches t (tally c s f)
