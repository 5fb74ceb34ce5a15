-- ===== src/Auction/Ranking.antt =====
-- Which bids a product keeps: the highest amount, its bidder, and the price.
pub mod Counted
pub mod Reached
use blockchain_tutorial.Prelude.{
  ℕ, zero, suc, ◌+◌, ◌-◌, ◌%◌, ◌≡◌, ◌≢◌, ◌≤◌, ◌<◌, ◌⊎◌, inl, inr, refl, sym, Bool, true, false,
  Option, none, some, List, [], ◌∷◌, ◌++◌, String, ltb, if◌then◌else◌, All, arith, Bool-cases, ◌==◌,
  not,
}
use blockchain_tutorial.Js.Number.{Text}
use blockchain_tutorial.Crowdfunding.{word, assign}
use blockchain_tutorial.Auction.{
  Bid, Product, Store, product_of, put_product, empty_store, transfer, bind,
}
use blockchain_tutorial.Auction.Bidding.{
  add_product_to_store, bid, string_to_uint, reveal_bid, close_bid, count_bid, listed, with_bid,
  led_by, second_to,
}
use blockchain_tutorial.Auction.Sale.{finalize_auction, release_amount, refund_amount, sell}
use blockchain_tutorial.Auction.Calls.{
  Call, adding, bidding, revealing, finalizing, releasing, refunding, sender_of, execute, tally,
  Reaches, deployed, executed,
}

abbrev pub maximum : ℕ → List ℕ → ℕ
maximum a [] = a
maximum a (x ∷ xs) = let m = maximum a xs in if ltb m x then x else m

-- One occurrence of `a` is taken out of a list.
pub data Without (a : ℕ) : List ℕ → List ℕ → Type 0 where
  here : (xs : List ℕ) → Without a (a ∷ xs) xs
  there : (x : ℕ) (xs ys : List ℕ) → Without a xs ys → Without a (x ∷ xs) (x ∷ ys)

-- The highest of the amounts is `highest`; and if none is below the start price, `second` is the
-- highest of the others, or the start price.
pub record IsTopTwo (start highest second : ℕ) (amounts : List ℕ) : Type 0 where
  pub others : List ℕ
  pub taken : Without highest amounts others
  pub bounded : All (λ n. n ≤ highest) others
  pub price : All (λ n. start ≤ n) amounts → second ≡ maximum start others

abbrev pub IsRanked : Product → List ℕ → Type 0
IsRanked p [] = p.highest_bidder ≡ 0
IsRanked p (n ∷ ns) =
    (p.highest_bidder ≢ 0) × IsTopTwo p.start_price p.highest_bid p.second_highest_bid (n ∷ ns)

All-le : (a b : ℕ) (xs : List ℕ) → a ≤ b → All (λ n. n ≤ a) xs → All (λ n. n ≤ b) xs
All-le a b [] l h = tt
All-le a b (x ∷ xs) l h = (omega (arith, h.0), All-le a b xs l h.1)

maximum_same : (a b : ℕ) (xs : List ℕ) → All (λ n. n ≤ b) xs → a ≤ b → maximum a (b ∷ xs) ≡ b
maximum_same a b [] h l = ground arith
maximum_same a b (x ∷ xs) h l = ground (arith, maximum_same a b xs h.1 l)

module _ (P : ℕ → Type 0) where
  All-Without : (a : ℕ) (xs ys : List ℕ) → Without a xs ys → P a → All P ys → All P xs
  All-Without a [] ys w h k = elim w [ ]
  All-Without a (x ∷ xs) ys (here _) h k = (h, k)
  All-Without a (x ∷ xs) (_ ∷ ys) (there _ _ _ w) h k = (k.0, All-Without a xs ys w h k.1)

  Without-All : (a : ℕ) (xs ys : List ℕ) → Without a xs ys → All P xs → P a
  Without-All a [] ys w h = elim w [ ]
  Without-All a (x ∷ xs) ys (here _) h = h.0
  Without-All a (x ∷ xs) (_ ∷ ys) (there _ _ _ w) h = Without-All a xs ys w h.1

maximum-Without :
    (a b : ℕ) (xs ys : List ℕ) → Without b xs ys → All (λ n. n ≤ b) ys → a ≤ b → maximum a xs ≡ b
maximum-Without a b [] ys w h l = elim w [ ]
maximum-Without a b (x ∷ xs) ys (here _) h l = maximum_same a b xs h l
maximum-Without a b (x ∷ xs) (_ ∷ ys) (there _ _ _ w) h l =
    ground (arith, maximum-Without a b xs ys w h.1 l)

pub first-IsTopTwo : (start amount : ℕ) → IsTopTwo start amount start (amount ∷ [])
first-IsTopTwo start amount = record {
  others = [];
  taken = here [];
  bounded = tt;
  price = λ _. refl;
}

module _ (start highest second amount : ℕ) (ns : List ℕ)
    (h : IsTopTwo start highest second ns) where
  pub higher-IsTopTwo : highest < amount → IsTopTwo start amount highest (amount ∷ ns)
  higher-IsTopTwo l = record {
    others = ns;
    taken = here ns;
    bounded =
        All-Without (λ n. n ≤ amount) highest ns h.others h.taken (omega arith)
          (All-le highest amount h.others (omega arith) h.bounded);
    price = λ k. sym (
        maximum-Without start highest ns h.others h.taken h.bounded
          (Without-All (λ n. start ≤ n) highest ns h.others h.taken k.1));
  }

  pub lower-IsTopTwo :
      amount ≤ highest
      → IsTopTwo start highest (if ltb second amount then amount else second) (amount ∷ ns)
  lower-IsTopTwo l = record {
    others = amount ∷ h.others;
    taken = there amount ns h.others h.taken;
    bounded = (l, h.bounded);
    price = λ k. ground (arith, h.price k.1);
  }
