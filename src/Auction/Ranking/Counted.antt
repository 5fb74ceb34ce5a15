-- ===== src/Auction/Ranking/Counted.antt =====
-- How revealBid keeps the ranking of a product's bids.
use blockchain_tutorial.Prelude.{
  ℕ, ◌-◌, ◌≡◌, ◌≢◌, ◌≤◌, ◌<◌, inl, inr, refl, Bool, true, false, Option, none, some, List, [], ◌∷◌,
  ltb, if◌then◌else◌, arith, Bool-cases, ◌==◌,
}
use blockchain_tutorial.Auction.{Product, Store, product_of, put_product, transfer, bind}
use blockchain_tutorial.Auction.Bidding.{close_bid, count_bid, with_bid, led_by, second_to}
use blockchain_tutorial.Auction.Ranking.{IsRanked, first-IsTopTwo, higher-IsTopTwo, lower-IsTopTwo}

pub bind-some :
    {A : Type 0} {B : Type 0} (o : Option A) (f : A → Option B) (b : B)
    → bind o f ≡ some b
    → (a : A) × (o ≡ some a) × (f a ≡ some b)
bind-some none f b h = cc
bind-some (some a) f b h = (a, refl, h)

pub product_of-put :
    (id j : ℕ) (p : Product) (s : Store)
    → product_of (put_product id p s) j ≡ (if j == id then p else product_of s j)
product_of-put id j p s = ground arith

-- What a call that concerns one product leaves: the other products, and this one as `p`.
abbrev pub Leaves : ℕ → Product → Store → Store → Type 0
Leaves id p s t = (j : ℕ) → product_of t j ≡ (if j == id then p else product_of s j)

transfer-product_of :
    (receives : ℕ → ℕ → Bool) (a v j : ℕ) (s t : Store)
    → transfer receives a v s ≡ some t
    → product_of t j ≡ product_of s j
transfer-product_of receives a v j s t h = ground arith

abbrev pub marked : ℕ → ℕ → Product → Product
marked sender key p =
    let b = p.bids sender key in with_bid sender key (record b { revealed = true }) p

pub close_bid-Leaves :
    (receives : ℕ → ℕ → Bool) (sender id key refund : ℕ) (p : Product) (s t : Store)
    → close_bid receives sender id key refund p s ≡ some t
    → Leaves id (marked sender key p) s t
close_bid-Leaves receives sender id key refund p s t h j = ground arith

marked-IsRanked :
    (sender key : ℕ) (p : Product) (ns : List ℕ) → IsRanked p ns → IsRanked (marked sender key p) ns
marked-IsRanked sender key p [] h = h
marked-IsRanked sender key p (n ∷ ns) h = h

close_bid-IsRanked :
    (receives : ℕ → ℕ → Bool) (sender id key refund : ℕ) (p : Product) (s t : Store) (ns : List ℕ)
    → close_bid receives sender id key refund p s ≡ some t
    → IsRanked p ns
    → IsRanked (product_of t id) ns
close_bid-IsRanked receives sender id key refund p s t ns h r =
    let same : product_of t id ≡ marked sender key p =
      ground (arith, close_bid-Leaves receives sender id key refund p s t h id) in
    rw same (marked-IsRanked sender key p ns r)

module _ (receives : ℕ → ℕ → Bool) (sender id key amount : ℕ) (s t : Store) (p : Product)
    (given : sender ≢ 0) where
  first-IsRanked :
      (ns : List ℕ)
      → p.highest_bidder ≡ 0
      → IsRanked p ns
      → IsRanked (led_by sender amount p.start_price p) (amount ∷ ns)
  first-IsRanked [] z r = (given, first-IsTopTwo p.start_price amount)
  first-IsRanked (n ∷ ns) z r = absurd (r.0 z)

  higher-IsRanked :
      (ns : List ℕ)
      → (p.highest_bidder ≡ 0 → ⊥)
      → p.highest_bid < amount
      → IsRanked p ns
      → IsRanked (led_by sender amount p.highest_bid p) (amount ∷ ns)
  higher-IsRanked [] z l r = absurd (z r)
  higher-IsRanked (n ∷ ns) z l r = (given, higher-IsTopTwo _ _ _ amount (n ∷ ns) r.1 l)

  lower-IsRanked :
      (ns : List ℕ)
      → (p.highest_bidder ≡ 0 → ⊥)
      → amount ≤ p.highest_bid
      → IsRanked p ns
      → IsRanked
          (second_to (if ltb p.second_highest_bid amount then amount else p.second_highest_bid) p)
          (amount ∷ ns)
  lower-IsRanked [] z l r = absurd (z r)
  lower-IsRanked (n ∷ ns) z l r = (r.0, lower-IsTopTwo _ _ _ amount (n ∷ ns) r.1 l)

  -- The last two branches.
  lower_bid-IsRanked :
      (ns : List ℕ)
      → (p.highest_bidder ≡ 0 → ⊥)
      → amount ≤ p.highest_bid
      → (if ltb p.second_highest_bid amount
          then close_bid receives sender id key (p.bids sender key).value (second_to amount p) s
          else close_bid receives sender id key (p.bids sender key).value p s)
        ≡ some t
      → IsRanked p ns
      → IsRanked (product_of t id) (amount ∷ ns)
  lower_bid-IsRanked ns z l h r =
      let ranked = lower-IsRanked ns z l r in
      elim (Bool-cases (ltb p.second_highest_bid amount)) [
        | inl above ↦
            close_bid-IsRanked receives sender id key _ (second_to amount p) s t (amount ∷ ns)
              (rw above at h) (rw above at ranked)
        | inr below ↦
            close_bid-IsRanked receives sender id key _ p s t (amount ∷ ns) (rw below at h)
              (rw below at ranked)
      ]

  covered_bid-IsRanked :
      (ns : List ℕ)
      → count_bid receives sender id key amount p s ≡ some t
      → ltb (p.bids sender key).value amount ≡ false
      → IsRanked p ns
      → IsRanked (product_of t id) (amount ∷ ns)
  covered_bid-IsRanked ns h covered r = elim (Bool-cases (p.highest_bidder == 0)) [
    | inl none_yet ↦
        close_bid-IsRanked receives sender id key _ (led_by sender amount p.start_price p) s t
          (amount ∷ ns) (rw (covered, none_yet) at h) (first-IsRanked ns (ground arith) r)
    | inr some_yet ↦ elim (Bool-cases (ltb p.highest_bid amount)) [
      | inl higher ↦
          let (u, paid, closed) =
            bind-some (transfer receives p.highest_bidder p.highest_bid s)
              (close_bid receives sender id key ((p.bids sender key).value - amount)
                (led_by sender amount p.highest_bid p))
              t (rw (covered, some_yet, higher) at h) in
          close_bid-IsRanked receives sender id key _ (led_by sender amount p.highest_bid p) u t
            (amount ∷ ns) closed (higher-IsRanked ns (ground arith) (ground arith) r)
      | inr lower ↦
          lower_bid-IsRanked ns (ground arith) (ground arith) (rw (covered, some_yet, lower) at h) r
    ]
  ]

  pub count_bid-IsRanked :
      (ns : List ℕ)
      → count_bid receives sender id key amount p s ≡ some t
      → IsRanked p ns
      → IsRanked
          (product_of t id)
          (if ltb (p.bids sender key).value amount then ns else amount ∷ ns)
  count_bid-IsRanked ns h r = elim (Bool-cases (ltb (p.bids sender key).value amount)) [
    | inl short ↦ rw short (close_bid-IsRanked receives sender id key _ p s t ns (rw short at h) r)
    | inr covered ↦ rw covered (covered_bid-IsRanked ns h covered r)
  ]

pub count_bid-others :
    (receives : ℕ → ℕ → Bool) (sender id key amount j : ℕ) (p : Product) (s t : Store)
    → count_bid receives sender id key amount p s ≡ some t
    → j ≢ id
    → product_of t j ≡ product_of s j
count_bid-others receives sender id key amount j p s t h o = ground arith
