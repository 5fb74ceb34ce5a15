-- ===== src/Auction/Reveals.antt =====
-- contracts/EcommerceStore.sol: what revealBid leaves and pays where it accepts a bid.
use blockchain_tutorial.Prelude.{
  ℕ, ◌+◌, ◌-◌, ◌≤◌, ◌≡◌, ◌≢◌, refl, Bool, true, false, ◌||◌, some, ◌++◌, arith, ltb, leb, ◌==◌,
  if◌then◌else◌, inl, inr, Bool-cases,
}
use blockchain_tutorial.Js.Number.{Text}
use blockchain_tutorial.Auction.{Product, Store, product_of, put_product}
use blockchain_tutorial.Auction.Bidding.{
  string_to_uint, reveal_bid, count_bid, close_bid, second_to, led_by,
}
use blockchain_tutorial.Auction.Ranking.Counted.{marked}

abbrev pub is_leading : ℕ → Product → Bool
is_leading n p = p.highest_bidder == 0 || ltb p.highest_bid n

-- What is paid to the bidder and to the one who led before.
abbrev pub returned : (value n : ℕ) → Product → ℕ
returned value n p =
    if p.highest_bidder == 0
    then value - n
    else if ltb p.highest_bid n
    then value - n + p.highest_bid
    else value

pub ltb-false : (m n : ℕ) → n ≤ m → ltb m n ≡ false
ltb-false m n l = ground arith

pub ==_false : (a : ℕ) → a ≢ 0 → (a == 0) ≡ false
==_false a o = ground arith

leb-true : (m n : ℕ) → m ≤ n → leb m n ≡ true
leb-true m n l = ground arith

module _ (receives : ℕ → ℕ → Bool) (all_receive : (b x : ℕ) → receives b x ≡ true) where
  -- A refund within the balance is paid.
  close_bid_accepts :
      (a id key refund : ℕ) (p : Product) (s : Store)
      → refund ≤ s.balance
      → (t : Store) × (close_bid receives a id key refund p s ≡ some t)
        × (product_of t id ≡ marked a key p)
        × (t.balance + refund ≡ s.balance)
  close_bid_accepts a id key refund p s l = elim (Bool-cases (refund == 0)) [
    | inl nothing ↦ (put_product id (marked a key p) s, ground arith, ground arith, ground arith)
    | inr something ↦
        let t = put_product id (marked a key p) s in
        (
          record t { balance = s.balance - refund },
          rw (something, leb-true refund s.balance l, all_receive a refund) refl,
          ground arith,
          omega arith,
        )
  ]

  -- A reveal that is counted, with the product and the payments that it leads to.
  abbrev pub Counts : (a id key n : ℕ) → Product → Store → Product → ℕ → Type 0
  Counts a id key n p s q paid =
      (t : Store) × (count_bid receives a id key n p s ≡ some t)
      × (product_of t id ≡ marked a key q)
      × (t.balance + paid ≡ s.balance)

  module _ (a id key n : ℕ) (p : Product) (s : Store) (covered : ltb (p.bids a key).value n ≡ false)
      (funded : (p.bids a key).value + p.highest_bid ≤ s.balance) where
    first-Counts :
        (p.highest_bidder == 0) ≡ true
        → Counts a id key n p s (led_by a n p.start_price p) ((p.bids a key).value - n)
    first-Counts new =
        let (t, closed, product, paid) =
          close_bid_accepts a id key ((p.bids a key).value - n) (led_by a n p.start_price p) s
            (omega arith) in
        (t, rw (covered, new) closed, product, paid)

    pub higher-Counts :
        (p.highest_bidder == 0) ≡ false
        → ltb p.highest_bid n ≡ true
        → Counts a id key n p s
            (led_by a n p.highest_bid p)
            ((p.bids a key).value - n + p.highest_bid)
    higher-Counts old above =
        let u = record s { balance = s.balance - p.highest_bid } in
        let (t, closed, product, paid) =
          close_bid_accepts a id key ((p.bids a key).value - n) (led_by a n p.highest_bid p) u
            (omega arith) in
        (
          t,
          rw
              (
                covered,
                old,
                above,
                leb-true p.highest_bid s.balance (omega arith),
                all_receive p.highest_bidder p.highest_bid,
              )
              closed,
          product,
          omega arith,
        )

    lower-Counts :
        (p.highest_bidder == 0) ≡ false
        → ltb p.highest_bid n ≡ false
        → Counts a id key n p s
            (if ltb p.second_highest_bid n then second_to n p else p)
            (p.bids a key).value
    lower-Counts old below = elim (Bool-cases (ltb p.second_highest_bid n)) [
      | inl above ↦
          let (t, closed, product, paid) =
            close_bid_accepts a id key (p.bids a key).value (second_to n p) s (omega arith) in
          (t, rw (covered, old, below, above) closed, rw above product, paid)
      | inr under ↦
          let (t, closed, product, paid) =
            close_bid_accepts a id key (p.bids a key).value p s (omega arith) in
          (t, rw (covered, old, below, under) closed, rw under product, paid)
    ]

    -- Who leads then, with how much, and what has been paid.
    pub covered_bid_counts :
        (t : Store) × (count_bid receives a id key n p s ≡ some t)
        × (((product_of t id).bids a key).revealed ≡ true)
        × ((product_of t id).highest_bidder ≡ (if is_leading n p then a else p.highest_bidder))
        × ((product_of t id).highest_bid ≡ (if is_leading n p then n else p.highest_bid))
        × (t.balance + returned (p.bids a key).value n p ≡ s.balance)
    covered_bid_counts = elim (Bool-cases (p.highest_bidder == 0)) [
      | inl new ↦
          let (t, counted, product, paid) = first-Counts new in
          (
            t,
            counted,
            rw product (ground arith),
            rw (product, new) refl,
            rw (product, new) refl,
            rw new paid,
          )
      | inr old ↦ elim (Bool-cases (ltb p.highest_bid n)) [
        | inl above ↦
            let (t, counted, product, paid) = higher-Counts old above in
            (
              t,
              counted,
              rw product (ground arith),
              rw (product, old, above) refl,
              rw (product, old, above) refl,
              rw (old, above) paid,
            )
        | inr below ↦
            let (t, counted, product, paid) = lower-Counts old below in
            (
              t,
              counted,
              rw product (ground arith),
              rw (product, old, below) (ground arith),
              rw (product, old, below) (ground arith),
              rw (old, below) paid,
            )
      ]
    ]

  pub reveal_bid-count_bid :
      (sha3 : Text → ℕ) (a now id key n : ℕ) (amount secret : Text) (s : Store)
      → sha3 (amount ++ secret) ≡ key
      → string_to_uint amount ≡ n
      → ltb now (product_of s id).auction_end_time ≡ false
      → (((product_of s id).bids a key).bidder == 0) ≡ false
      → ((product_of s id).bids a key).revealed ≡ false
      → reveal_bid receives sha3 a now id amount secret s
        ≡ count_bid receives a id key n (product_of s id) s
  unfolding reveal_bid
  reveal_bid-count_bid sha3 a now id key n amount secret s same_key same_amount over given fresh =
      rw (same_key, same_amount, over, given, fresh) refl
