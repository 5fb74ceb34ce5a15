-- ===== src/Auction/Accounts/Moves.antt =====
-- What each call does to the balance and to what is kept.
use blockchain_tutorial.Prelude.{
  ℕ, ◌+◌, ◌-◌, ◌≡◌, ◌≢◌, ◌≤◌, ◌<◌, refl, Bool, true, false, some, String, arith, ltb, ◌==◌,
  if◌then◌else◌, Bool-cases, inl, inr,
}
use blockchain_tutorial.Crowdfunding.{word}
use blockchain_tutorial.Auction.{Product, Store, product_of, is_open, transfer}
use blockchain_tutorial.Auction.Bidding.{
  add_product_to_store, bid, close_bid, count_bid, led_by, second_to,
}
use blockchain_tutorial.Auction.Sale.{finalize_auction, release_amount, refund_amount}
use blockchain_tutorial.Auction.Ranking.Counted.{marked, close_bid-Leaves, bind-some}
use blockchain_tutorial.Auction.Accounts.{kept, kept_for}

pub bid_moves :
    (a v now id key : ℕ) (s t : Store)
    → bid a v now id key s ≡ some t
    → ((j : ℕ) → kept_for t j ≡ kept_for s j)
      × ((j : ℕ) → (product_of t j).highest_bidder ≡ (product_of s j).highest_bidder)
      × (t.balance ≡ s.balance + v)
      × (t.product_index ≡ s.product_index)
unfolding bid
bid_moves a v now id key s t h = (λ j. ground arith, λ j. ground arith, ground arith, ground arith)

pub add_moves :
    (a : ℕ) (name category image_link desc_link : String) (start end price condition : ℕ)
    (s t : Store)
    → add_product_to_store a name category image_link desc_link start end price condition s ≡ some t
    → s.product_index + 1 < word
    → ((j : ℕ) → j ≢ s.product_index + 1 → product_of t j ≡ product_of s j)
      × (kept_for t (s.product_index + 1) ≡ 0)
      × (t.balance ≡ s.balance)
      × (t.product_index ≡ s.product_index + 1)
unfolding add_product_to_store
add_moves a name category image_link desc_link start end price condition s t h small =
    (λ j o. ground arith, ground arith, ground arith, ground arith)

module _ (receives : ℕ → ℕ → Bool) where
  close_bid_moves :
      (a id key refund : ℕ) (p : Product) (s t : Store)
      → close_bid receives a id key refund p s ≡ some t
      → (kept_for t id ≡ kept p)
        × (t.balance + refund ≡ s.balance)
        × (t.product_index ≡ s.product_index)
  close_bid_moves a id key refund p s t h =
      let same : product_of t id ≡ marked a key p =
        ground (arith, close_bid-Leaves receives a id key refund p s t h id) in
      (rw same refl, ground arith, ground arith)

  pub finalize_moves :
      (b now id : ℕ) (s t : Store)
      → finalize_auction receives b now id s ≡ some t
      → (product_of s id).second_highest_bid ≤ (product_of s id).highest_bid
      → (product_of s id).highest_bid < word
      → (kept_for t id ≡ 0)
        × (t.balance + kept_for s id ≡ s.balance)
        × (t.product_index ≡ s.product_index)
        × ((j : ℕ) → (product_of t j).highest_bidder ≡ (product_of s j).highest_bidder)
        × ((j : ℕ) → j ≢ id → kept_for t j ≡ kept_for s j)
  unfolding finalize_auction
  finalize_moves b now id s t h price small =
      (ground arith, ground arith, ground arith, λ j. ground arith, λ j o. ground arith)

  pub release_moves :
      (a id : ℕ) (s t : Store)
      → release_amount receives a id s ≡ some t
      → (t.stores ≡ s.stores)
        × (t.product_id_in_store ≡ s.product_id_in_store)
        × (t.balance ≡ s.balance)
        × (t.product_index ≡ s.product_index)
  unfolding release_amount
  release_moves a id s t h = ground arith

  pub refund_moves :
      (a id : ℕ) (s t : Store)
      → refund_amount receives a id s ≡ some t
      → (t.stores ≡ s.stores)
        × (t.product_id_in_store ≡ s.product_id_in_store)
        × (t.balance ≡ s.balance)
        × (t.product_index ≡ s.product_index)
  unfolding refund_amount
  refund_moves a id s t h = ground arith

  module _ (a id key n : ℕ) (p : Product) (s t : Store) (opened : is_open p.status ≡ true) where
    abbrev pub Counted : Type 0
    Counted =
        (t.balance + (p.bids a key).value + kept p ≡ s.balance + kept_for t id)
        × (t.product_index ≡ s.product_index)

    lower_moves :
        (p.highest_bidder == 0) ≡ false
        → (if ltb p.second_highest_bid n
            then close_bid receives a id key (p.bids a key).value (second_to n p) s
            else close_bid receives a id key (p.bids a key).value p s)
          ≡ some t
        → Counted
    lower_moves old h = elim (Bool-cases (ltb p.second_highest_bid n)) [
      | inl above ↦
          let (same, paid, index) =
            close_bid_moves a id key (p.bids a key).value (second_to n p) s t (rw above at h) in
          (omega (arith, same, paid), index)
      | inr below ↦
          let (same, paid, index) =
            close_bid_moves a id key (p.bids a key).value p s t (rw below at h) in
          (omega (arith, same, paid), index)
    ]

    covered_moves :
        count_bid receives a id key n p s ≡ some t
        → ltb (p.bids a key).value n ≡ false
        → a ≢ 0
        → Counted
    covered_moves h covered given = elim (Bool-cases (p.highest_bidder == 0)) [
      | inl new ↦
          let (same, paid, index) =
            close_bid_moves a id key ((p.bids a key).value - n) (led_by a n p.start_price p) s t
              (rw (covered, new) at h) in
          let before : kept p ≡ 0 = rw (opened, new) refl in
          let now : kept (led_by a n p.start_price p) ≡ n = ground arith in (ground arith, index)
      | inr old ↦ elim (Bool-cases (ltb p.highest_bid n)) [
        | inl above ↦
            let (u, paid_first, closed) =
              bind-some (transfer receives p.highest_bidder p.highest_bid s)
                (close_bid receives a id key ((p.bids a key).value - n)
                  (led_by a n p.highest_bid p))
                t (rw (covered, old, above) at h) in
            let (same, paid, index) =
              close_bid_moves a id key ((p.bids a key).value - n) (led_by a n p.highest_bid p) u t
                closed in
            let first : u.balance + p.highest_bid ≡ s.balance = ground arith in
            let first_index : u.product_index ≡ s.product_index = ground arith in
            let before : kept p ≡ p.highest_bid = rw (opened, old) refl in
            let now : kept (led_by a n p.highest_bid p) ≡ n = ground arith in
            let covers : n ≤ (p.bids a key).value = ground arith in
            (
              omega (arith, same, paid, first, before, now, covers),
              omega (arith, index, first_index),
            )
        | inr below ↦ lower_moves old (rw (covered, old, below) at h)
      ]
    ]

    pub count_moves : count_bid receives a id key n p s ≡ some t → a ≢ 0 → Counted
    count_moves h given = elim (Bool-cases (ltb (p.bids a key).value n)) [
      | inl short ↦
          let (same, paid, index) =
            close_bid_moves a id key (p.bids a key).value p s t (rw short at h) in
          (omega (arith, same, paid), index)
      | inr covered ↦ covered_moves h covered given
    ]
