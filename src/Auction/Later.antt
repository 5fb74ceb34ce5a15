-- ===== src/Auction/Later.antt =====
-- What later calls leave of a bid and of a finalized product of contracts/EcommerceStore.sol.
use blockchain_tutorial.Prelude.{
  ℕ, ◌+◌, ◌-◌, ◌%◌, ◌≡◌, ◌≢◌, inl, inr, refl, sym, ap, ◌∙◌, Bool, false, some, ltb, ◌++◌, String,
  arith, Bool-cases, ◌==◌,
}
use blockchain_tutorial.Js.Number.{Text}
use blockchain_tutorial.Crowdfunding.{word}
use blockchain_tutorial.Auction.{Product, Store, product_of, is_open, transfer}
use blockchain_tutorial.Auction.Bidding.{
  add_product_to_store, bid, string_to_uint, reveal_bid, count_bid, close_bid, led_by, second_to,
}
use blockchain_tutorial.Auction.Sale.{finalize_auction, release_amount, refund_amount}
use blockchain_tutorial.Auction.Calls.{
  Call, adding, bidding, revealing, finalizing, releasing, refunding, execute,
}
use blockchain_tutorial.Auction.Ranking.Counted.{
  count_bid-others, close_bid-Leaves, marked, bind-some,
}

-- No product is added under the number.
abbrev pub LeavesProduct : (id : ℕ) → Call → Store → Type 0
LeavesProduct id (adding a n c i d b e p k) s = (s.product_index + 1) % word ≢ id
LeavesProduct id _ s = Unit

module _ (receives : ℕ → ℕ → Bool) (sha3 : Text → ℕ) where
  -- The bid with this key is not revealed, and no product is added under its number.
  abbrev pub LeavesBid : (a id key : ℕ) → Call → Store → Type 0
  LeavesBid a id key (revealing b at id' m k) s = b ≡ a → id' ≡ id → sha3 (m ++ k) ≢ key
  LeavesBid a id key c s = LeavesProduct id c s

  -- The states that allowed calls lead to.
  pub data Later (may : Call → Store → Type 0) (s : Store) : Store → Type 0 where
    unchanged : Later may s s
    called :
        (c : Call) (t u : Store)
        → Later may s t
        → may c t
        → execute receives sha3 c t ≡ some u
        → Later may s u

-- A bid that is not revealed, with its value and the end of its auction.
abbrev pub Placed : (a id key value end : ℕ) → Store → Type 0
Placed a id key value end s =
    let p = product_of s id in
    ((p.bids a key).bidder ≡ a)
    × ((p.bids a key).value ≡ value)
    × ((p.bids a key).revealed ≡ false)
    × (p.auction_end_time ≡ end)

abbrev IsOver : ℕ → Store → Type 0
IsOver id s = is_open (product_of s id).status ≡ false

-- A reveal marks the bid in a product that has the bids, the status and the end of the one before.
abbrev Closes : (b key : ℕ) → (p q : Product) → Type 0
Closes b key p q =
    (r : Product) × (q ≡ marked b key r)
    × (r.bids ≡ p.bids)
    × (r.status ≡ p.status)
    × (r.auction_end_time ≡ p.auction_end_time)

module _ (receives : ℕ → ℕ → Bool) (b id key : ℕ) (p : Product) (t : Store) where
  closed-product_of :
      (refund : ℕ) (r : Product) (s : Store)
      → close_bid receives b id key refund r s ≡ some t
      → product_of t id ≡ marked b key r
  closed-product_of refund r s h =
      ground (arith, close_bid-Leaves receives b id key refund r s t h id)

  count_bid-Closes :
      (n : ℕ) (s : Store)
      → count_bid receives b id key n p s ≡ some t
      → Closes b key p (product_of t id)
  count_bid-Closes n s h = elim (Bool-cases (ltb (p.bids b key).value n)) [
    | inl short ↦ (p, closed-product_of _ p s (rw short at h), refl, refl, refl)
    | inr covered ↦ elim (Bool-cases (p.highest_bidder == 0)) [
      | inl new ↦ (
        _,
        closed-product_of _ (led_by b n p.start_price p) s (rw (covered, new) at h),
        refl,
        refl,
        refl,
      )
      | inr old ↦ elim (Bool-cases (ltb p.highest_bid n)) [
        | inl above ↦
            let refund = (p.bids b key).value - n in
            let (u, paid, closed) =
              bind-some (transfer receives p.highest_bidder p.highest_bid s)
                (close_bid receives b id key refund (led_by b n p.highest_bid p)) t
                (rw (covered, old, above) at h) in
            (_, closed-product_of refund (led_by b n p.highest_bid p) u closed, refl, refl, refl)
        | inr below ↦ elim (Bool-cases (ltb p.second_highest_bid n)) [
          | inl second ↦ (
            _,
            closed-product_of _ (second_to n p) s (rw (covered, old, below, second) at h),
            refl,
            refl,
            refl,
          )
          | inr under ↦
              (_, closed-product_of _ p s (rw (covered, old, below, under) at h), refl, refl, refl)
        ]
      ]
    ]
  ]

-- A bid at another place is as it was.
marked-other :
    (a key b k : ℕ) (p r : Product)
    → (b ≡ a → k ≢ key)
    → r.bids ≡ p.bids
    → (marked b k r).bids a key ≡ p.bids a key
marked-other a key b k p r o e = elim (Bool-cases (a == b)) [
  | inl own ↦
      let other : (key == k) ≡ false = ground arith in
      let at : a ≡ b = ground arith in
      rw (own, other) (ap (λ f. f b key) e ∙ ap (λ x. p.bids x key) (sym at))
  | inr not_own ↦ rw not_own (ap (λ f. f a key) e)
]

module _ (receives : ℕ → ℕ → Bool) (a id key value end : ℕ) (given : a ≢ 0) (s t : Store) where
  add_product-Placed :
      (b : ℕ) (n c i d : String) (from to price k : ℕ)
      → add_product_to_store b n c i d from to price k s ≡ some t
      → (s.product_index + 1) % word ≢ id
      → Placed a id key value end s
      → Placed a id key value end t
  unfolding add_product_to_store
  add_product-Placed b n c i d from to price k h o p =
      let same : product_of t id ≡ product_of s id = ground arith in rw same p

  bid-Placed :
      (b v at j k : ℕ)
      → bid b v at j k s ≡ some t
      → Placed a id key value end s
      → Placed a id key value end t
  unfolding bid
  bid-Placed b v at j k h (p, q, r, e) = (ground arith, ground arith, ground arith, ground arith)

  count_bid-Placed :
      (b j k n : ℕ)
      → count_bid receives b j k n (product_of s j) s ≡ some t
      → (b ≡ a → j ≡ id → k ≢ key)
      → Placed a id key value end s
      → Placed a id key value end t
  count_bid-Placed b j k n h o (p, q, r, e) = elim (Bool-cases (id == j)) [
    | inl own ↦
        let at : id ≡ j = ground arith in
        let (kept, is_kept, bids, status, ends) =
          count_bid-Closes receives b j k (product_of s j) t n s h in
        let there : product_of t id ≡ marked b k kept = rw at is_kept in
        let same : (product_of t id).bids a key ≡ (product_of s id).bids a key =
          ap (λ x. x.bids a key) there
          ∙ marked-other a key b k (product_of s id) kept (λ x. o x (sym at)) (rw at bids) in
        (rw same p, rw same q, rw same r, ap (λ x. x.auction_end_time) there ∙ rw at ends ∙ e)
    | inr other ↦
        let same = count_bid-others receives b j k n id (product_of s j) s t h (ground arith) in
        rw same (p, q, r, e)
  ]

  finalize-Placed :
      (b at j : ℕ)
      → finalize_auction receives b at j s ≡ some t
      → Placed a id key value end s
      → Placed a id key value end t
  unfolding finalize_auction
  finalize-Placed b at j h (p, q, r, e) = (ground arith, ground arith, ground arith, ground arith)

  release-Placed :
      (b j : ℕ)
      → release_amount receives b j s ≡ some t
      → Placed a id key value end s
      → Placed a id key value end t
  unfolding release_amount
  release-Placed b j h (p, q, r, e) = (ground arith, ground arith, ground arith, ground arith)

  refund-Placed :
      (b j : ℕ)
      → refund_amount receives b j s ≡ some t
      → Placed a id key value end s
      → Placed a id key value end t
  unfolding refund_amount
  refund-Placed b j h (p, q, r, e) = (ground arith, ground arith, ground arith, ground arith)

module _ (receives : ℕ → ℕ → Bool) (id : ℕ) (s t : Store) where
  add_product-IsOver :
      (b : ℕ) (n c i d : String) (from to price k : ℕ)
      → add_product_to_store b n c i d from to price k s ≡ some t
      → (s.product_index + 1) % word ≢ id
      → IsOver id s
      → IsOver id t
  unfolding add_product_to_store
  add_product-IsOver b n c i d from to price k h o p =
      let same : product_of t id ≡ product_of s id = ground arith in rw same p

  bid-IsOver : (b v at j k : ℕ) → bid b v at j k s ≡ some t → IsOver id s → IsOver id t
  unfolding bid
  bid-IsOver b v at j k h p = ground arith

  count_bid-IsOver :
      (b j k n : ℕ)
      → count_bid receives b j k n (product_of s j) s ≡ some t
      → IsOver id s
      → IsOver id t
  count_bid-IsOver b j k n h p = elim (Bool-cases (id == j)) [
    | inl own ↦
        let at : id ≡ j = ground arith in
        let (kept, is_kept, bids, status, ends) =
          count_bid-Closes receives b j k (product_of s j) t n s h in
        let there : product_of t id ≡ marked b k kept = rw at is_kept in
        ap (λ x. is_open x.status) there ∙ ap is_open status ∙ rw at at p
    | inr other ↦
        let same = count_bid-others receives b j k n id (product_of s j) s t h (ground arith) in
        rw same p
  ]

  finalize-IsOver :
      (b at j : ℕ) → finalize_auction receives b at j s ≡ some t → IsOver id s → IsOver id t
  unfolding finalize_auction
  finalize-IsOver b at j h p = ground arith

  release-IsOver : (b j : ℕ) → release_amount receives b j s ≡ some t → IsOver id s → IsOver id t
  unfolding release_amount
  release-IsOver b j h p = ground arith

  refund-IsOver : (b j : ℕ) → refund_amount receives b j s ≡ some t → IsOver id s → IsOver id t
  unfolding refund_amount
  refund-IsOver b j h p = ground arith

-- A reveal that the store accepts is counted.
reveal_bid-counted :
    (receives : ℕ → ℕ → Bool) (sha3 : Text → ℕ) (b at j : ℕ) (m k : Text) (s t : Store)
    → reveal_bid receives sha3 b at j m k s ≡ some t
    → count_bid receives b j (sha3 (m ++ k)) (string_to_uint m) (product_of s j) s ≡ some t
unfolding reveal_bid
reveal_bid-counted receives sha3 b at j m k s t h = ground arith

module _ (receives : ℕ → ℕ → Bool) (sha3 : Text → ℕ) where
  execute-IsOver :
      (id : ℕ) (c : Call) (s t : Store)
      → execute receives sha3 c s ≡ some t
      → LeavesProduct id c s
      → IsOver id s
      → IsOver id t
  unfolding execute
  execute-IsOver id (adding b n c i d e f p k) s t h o r =
      add_product-IsOver receives id s t b n c i d e f p k h o r
  execute-IsOver id (bidding b v at j k) s t h o r = bid-IsOver receives id s t b v at j k h r
  execute-IsOver id (revealing b at j m k) s t h o r =
      count_bid-IsOver receives id s t b j _ _ (reveal_bid-counted receives sha3 b at j m k s t h) r
  execute-IsOver id (finalizing b at j) s t h o r = finalize-IsOver receives id s t b at j h r
  execute-IsOver id (releasing b j) s t h o r = release-IsOver receives id s t b j h r
  execute-IsOver id (refunding b j) s t h o r = refund-IsOver receives id s t b j h r

  pub Later-IsOver :
      (id : ℕ) (s t : Store)
      → Later receives sha3 (LeavesProduct id) s t
      → is_open (product_of s id).status ≡ false
      → is_open (product_of t id).status ≡ false
  Later-IsOver id s _ unchanged r = r
  Later-IsOver id s _ (called c t u l o h) r = execute-IsOver id c t u h o (Later-IsOver id s t l r)

  module _ (a id key value end : ℕ) (given : a ≢ 0) where
    execute-Placed :
        (c : Call) (s t : Store)
        → execute receives sha3 c s ≡ some t
        → LeavesBid receives sha3 a id key c s
        → Placed a id key value end s
        → Placed a id key value end t
    unfolding execute
    execute-Placed (adding b n c i d e f p k) s t h o r =
        add_product-Placed receives a id key value end given s t b n c i d e f p k h o r
    execute-Placed (bidding b v at j k) s t h o r =
        bid-Placed receives a id key value end given s t b v at j k h r
    execute-Placed (revealing b at j m k) s t h o r =
        count_bid-Placed receives a id key value end given s t b j _ _
          (reveal_bid-counted receives sha3 b at j m k s t h) o r
    execute-Placed (finalizing b at j) s t h o r =
        finalize-Placed receives a id key value end given s t b at j h r
    execute-Placed (releasing b j) s t h o r =
        release-Placed receives a id key value end given s t b j h r
    execute-Placed (refunding b j) s t h o r =
        refund-Placed receives a id key value end given s t b j h r

    pub Later-Placed :
        (s t : Store)
        → Later receives sha3 (LeavesBid receives sha3 a id key) s t
        → Placed a id key value end s
        → Placed a id key value end t
    Later-Placed s _ unchanged r = r
    Later-Placed s _ (called c t u l o h) r = execute-Placed c t u h o (Later-Placed s t l r)
