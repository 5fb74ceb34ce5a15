-- ===== src/Auction/Accounts/Reached.antt =====
-- The accounts of the store in every state that orderly calls reach.
use blockchain_tutorial.Prelude.{
  member, Distinct-enlist, member-enlist, ℕ, ◌+◌, ◌≡◌, ◌≢◌, ◌≤◌, ◌<◌, refl, ap, ◌∙◌, Bool, some,
  List, [], ◌∷◌, ◌++◌, String, arith, ◌==◌, Bool-cases, inl, inr,
}
use blockchain_tutorial.Js.Number.{Text}
use blockchain_tutorial.Crowdfunding.{word}
use blockchain_tutorial.Voting.Sums.{total, total_changes}
use blockchain_tutorial.Auction.{Store, product_of}
use blockchain_tutorial.Auction.Bidding.{
  string_to_uint, reveal_bid, count_bid, add_product_to_store,
}
use blockchain_tutorial.Auction.Calls.{
  adding, bidding, revealing, finalizing, releasing, refunding, execute,
}
use blockchain_tutorial.Auction.Sale.{finalize_auction}
use blockchain_tutorial.Auction.Ranking.Counted.{count_bid-others}
use blockchain_tutorial.Auction.Accounts.{
  kept, kept_for, Ledger, IsOrderly, entered, Orderly, deployed, executed, IsBalanced,
}
use blockchain_tutorial.Auction.Accounts.Moves.{
  bid_moves, add_moves, finalize_moves, release_moves, refund_moves, count_moves,
}

total_ext : (f g : ℕ → ℕ) (ids : List ℕ) → ((i : ℕ) → g i ≡ f i) → total g ids ≡ total f ids
total_ext f g [] h = refl
total_ext f g (i ∷ ids) h = omega (arith, h i, total_ext f g ids h)

-- A call that changes what is kept for no product.
even-IsBalanced :
    (s t : Store) (l m : Ledger)
    → ((j : ℕ) → kept_for t j ≡ kept_for s j)
    → ((j : ℕ) → t.product_index < j → (product_of t j).highest_bidder ≡ 0)
    → m.ids ≡ l.ids
    → t.balance + m.opened + l.deposited ≡ s.balance + l.opened + m.deposited
    → IsBalanced s l
    → IsBalanced t m
even-IsBalanced s t l m same unused ids moved r = record {
  distinct = rw ids r.distinct;
  outside = λ j o. same j ∙ r.outside j (rw ids at o);
  unused = unused;
  accounts =
      rw ids (omega (arith, moved, r.accounts, total_ext (kept_for s) (kept_for t) l.ids same));
}

-- A product that is finalized gives its bid away.
finalize-IsBalanced :
    (receives : ℕ → ℕ → Bool) (b now id : ℕ) (s t : Store) (l : Ledger)
    → finalize_auction receives b now id s ≡ some t
    → (product_of s id).second_highest_bid ≤ (product_of s id).highest_bid
    → (product_of s id).highest_bid < word
    → IsBalanced s l
    → IsBalanced t l
finalize-IsBalanced receives b now id s t l h price small r =
    let (gone, paid, index, bidder, others) = finalize_moves receives b now id s t h price small in
    let whole : t.balance + l.opened ≡ l.deposited + total (kept_for t) l.ids =
      elim (Bool-cases (member id l.ids)) [
        | inl old ↦
            let changed =
              total_changes (kept_for s) (kept_for t) id l.ids others r.distinct (r.outside id) in
            let listed = rw old at changed in omega (arith, listed, gone, paid, r.accounts)
        | inr new ↦
            let before = r.outside id new in
            let same : (j : ℕ) → kept_for t j ≡ kept_for s j = λ j. elim (Bool-cases (j == id)) [
              | inl own ↦
                  let e : j ≡ id = ground arith in
                  omega (arith, ap (kept_for t) e, ap (kept_for s) e, gone, before)
              | inr other ↦ others j (λ e. ground arith)
            ] in
            omega (arith, total_ext (kept_for s) (kept_for t) l.ids same, before, paid, r.accounts)
      ] in
    record {
      distinct = r.distinct;
      outside = λ j o. elim (Bool-cases (j == id)) [
        | inl own ↦ let e : j ≡ id = ground arith in ap (kept_for t) e ∙ gone
        | inr other ↦ others j (λ e. ground arith) ∙ r.outside j o
      ];
      unused = λ j o. bidder j ∙ r.unused j (omega (arith, index));
      accounts = whole;
    }

reveal-IsBalanced :
    (receives : ℕ → ℕ → Bool) (sha3 : Text → ℕ) (a now id : ℕ) (amount secret : Text) (s t : Store)
    (l : Ledger)
    → reveal_bid receives sha3 a now id amount secret s ≡ some t
    → IsOrderly receives sha3 (revealing a now id amount secret) s
    → IsBalanced s l
    → IsBalanced t (entered receives sha3 (revealing a now id amount secret) s l)
unfolding reveal_bid
reveal-IsBalanced receives sha3 a now id amount secret s t l h (given, known, opened) r =
    let key = sha3 (amount ++ secret) in
    let n = string_to_uint amount in
    let counted : count_bid receives a id key n (product_of s id) s ≡ some t = ground arith in
    let (paid, index) =
      count_moves receives a id key n (product_of s id) s t opened counted given in
    let others : (j : ℕ) → j ≢ id → product_of t j ≡ product_of s j =
      λ j o. count_bid-others receives a id key n j (product_of s id) s t counted o in
    let changed =
      total_changes (kept_for s) (kept_for t) id l.ids (λ j o. ap kept (others j o)) r.distinct
        (r.outside id) in
    record {
      distinct = Distinct-enlist id l.ids r.distinct;
      outside = λ j m.
          let (other, out) = member-enlist id j l.ids m in
          ap kept (others j other) ∙ r.outside j out;
      unused = λ j o.
          ap (λ p. p.highest_bidder) (others j (λ e. absurd (omega (arith, e, index))))
          ∙ r.unused j (omega (arith, index));
      accounts = omega (arith, paid, changed, r.accounts);
    }

adding-IsBalanced :
    (a : ℕ) (name category image_link desc_link : String) (start end price condition : ℕ)
    (s t : Store) (l : Ledger)
    → add_product_to_store a name category image_link desc_link start end price condition s ≡ some t
    → s.product_index + 1 < word
    → IsBalanced s l
    → IsBalanced t l
adding-IsBalanced a name category image_link desc_link start end price condition s t l h small r =
    let (others, new, paid, index) =
      add_moves a name category image_link desc_link start end price condition s t h small in
    let before : kept_for s (s.product_index + 1) ≡ 0 =
      ground (arith, r.unused (s.product_index + 1)) in
    even-IsBalanced s t l l
      (λ j. elim (Bool-cases (j == s.product_index + 1)) [
        | inl own ↦
            let e : j ≡ s.product_index + 1 = ground arith in
            omega (arith, ap (kept_for t) e, ap (kept_for s) e, new, before)
        | inr other ↦ ap kept (others j (λ e. ground arith))
      ])
      (λ j o.
        ap (λ p. p.highest_bidder) (others j (λ e. absurd (omega (arith, e, index))))
        ∙ r.unused j (omega (arith, index)))
      refl (omega (arith, paid)) r

-- In every state that a new store can reach with orderly calls, where no bid is revealed from
-- address 0, for a product that does not exist, or after its auction was finalized, where an
-- auction is only finalized with a price not above the highest bid and that below 2^256, and with
-- less than 2^256 products: the balance and the deposits of the revealed bids make up all deposits
-- and the highest bids of the products that are not finalized.
pub Orderly-IsBalanced :
    (receives : ℕ → ℕ → Bool) (sha3 : Text → ℕ) (s : Store) (l : Ledger)
    → Orderly receives sha3 s l
    → IsBalanced s l
unfolding execute
Orderly-IsBalanced receives sha3 s l deployed = record {
  distinct = tt;
  outside = λ j o. refl;
  unused = λ j o. refl;
  accounts = omega arith;
}
Orderly-IsBalanced receives sha3 _ _ (executed (adding a n c i d b e p k) s t l r o h) =
    adding-IsBalanced a n c i d b e p k s t l h o (Orderly-IsBalanced receives sha3 s l r)
Orderly-IsBalanced receives sha3 _ _ (executed (bidding a v now id k) s t l r o h) =
    let before = Orderly-IsBalanced receives sha3 s l r in
    let (same, bidder, paid, index) = bid_moves a v now id k s t h in
    even-IsBalanced s t l (record l { deposited = l.deposited + v }) same
      (λ j q. bidder j ∙ before.unused j (omega (arith, index))) refl (omega (arith, paid)) before
Orderly-IsBalanced receives sha3 _ _ (executed (revealing a now id m k) s t l r o h) =
    reveal-IsBalanced receives sha3 a now id m k s t l h o (Orderly-IsBalanced receives sha3 s l r)
Orderly-IsBalanced receives sha3 _ _ (executed (finalizing a now id) s t l r o h) =
    finalize-IsBalanced receives a now id s t l h o.0 o.1 (Orderly-IsBalanced receives sha3 s l r)
Orderly-IsBalanced receives sha3 _ _ (executed (releasing a id) s t l r o h) =
    let before = Orderly-IsBalanced receives sha3 s l r in
    let (stores, owner, paid, index) = release_moves receives a id s t h in
    even-IsBalanced s t l l (λ j. rw (stores, owner) refl)
      (λ j q. rw (stores, owner) (before.unused j (omega (arith, index)))) refl
      (omega (arith, paid)) before
Orderly-IsBalanced receives sha3 _ _ (executed (refunding a id) s t l r o h) =
    let before = Orderly-IsBalanced receives sha3 s l r in
    let (stores, owner, paid, index) = refund_moves receives a id s t h in
    even-IsBalanced s t l l (λ j. rw (stores, owner) refl)
      (λ j q. rw (stores, owner) (before.unused j (omega (arith, index)))) refl
      (omega (arith, paid)) before
