-- ===== src/Auction/Page/Sections.antt =====
-- The form that the page of a product shows, beside the calls that the contract accepts then.
use blockchain_tutorial.Prelude.{
  ℕ, ◌+◌, ◌≡◌, Bool, true, false, not, ◌&&◌, ◌||◌, Option, none, some, ◌++◌, String, arith, ltb,
  ◌==◌, str_eq, Bool-cases, inl, inr,
}
use blockchain_tutorial.Js.Number.{Text}
use blockchain_tutorial.Auction.{Store, product_of, is_open}
use blockchain_tutorial.Auction.Bidding.{bid, reveal_bid, count_bid, string_to_uint}
use blockchain_tutorial.Auction.Sale.{sell, finalize_auction}
use blockchain_tutorial.Auction.Page.Details.{section_at}

abbrev pub is_accepted : Option Store → Bool
is_accepted none = false
is_accepted (some s) = true

-- The page shows the form at this time.
abbrev pub shows : String → (now end : ℕ) → Bool
shows form now end = str_eq (section_at now end) form

shows_bidding : (now end : ℕ) → shows "#bidding" now end ≡ ltb now end
unfolding section_at
shows_bidding now end = elim (Bool-cases (ltb now end)) [
  | inl e ↦ rw e
  | inr e ↦ elim (Bool-cases (ltb now (end + 200))) [ inl k ↦ rw (e, k) | inr k ↦ rw (e, k) ]
]

shows_revealing :
    (now end : ℕ) → shows "#revealing" now end ≡ (not (ltb now end) && ltb now (end + 200))
unfolding section_at
shows_revealing now end = elim (Bool-cases (ltb now end)) [
  | inl e ↦ rw e
  | inr e ↦ elim (Bool-cases (ltb now (end + 200))) [ inl k ↦ rw (e, k) | inr k ↦ rw (e, k) ]
]

shows_finalize : (now end : ℕ) → shows "#finalize-auction" now end ≡ not (ltb now (end + 200))
unfolding section_at
shows_finalize now end = elim (Bool-cases (ltb now end)) [
  | inl e ↦ let later : ltb now (end + 200) ≡ true = ground arith in rw (e, later)
  | inr e ↦ elim (Bool-cases (ltb now (end + 200))) [ inl k ↦ rw (e, k) | inr k ↦ rw (e, k) ]
]

module _ (s : Store) (id now : ℕ) where
  bid_accepted :
      (sender value sealed : ℕ)
      → let p = product_of s id in
        is_accepted (bid sender value now id sealed s) ≡ (
          not (ltb now p.auction_start_time)
          && (shows "#bidding" now p.auction_end_time || now == p.auction_end_time)
          && ltb p.start_price value
          && (p.bids sender sealed).bidder == 0)
  unfolding bid
  bid_accepted sender value sealed =
      rw (shows_bidding now (product_of s id).auction_end_time) (ground arith)

module _ (receives : ℕ → ℕ → Bool) (sha3 : Text → ℕ) (s : Store) (id now sender : ℕ) where
  reveal_accepted :
      (amount secret : Text)
      → let p = product_of s id in
        let key = sha3 (amount ++ secret) in
        let b = p.bids sender key in
        is_accepted (reveal_bid receives sha3 sender now id amount secret s) ≡ (
          not (shows "#bidding" now p.auction_end_time)
          && not (b.bidder == 0)
          && not b.revealed
          && is_accepted (count_bid receives sender id key (string_to_uint amount) p s))
  unfolding reveal_bid
  reveal_accepted amount secret =
      rw (shows_bidding now (product_of s id).auction_end_time) (ground arith)

  finalize_accepted :
      let p = product_of s id in
      is_accepted (finalize_auction receives sender now id s) ≡ (
        (shows "#finalize-auction" now p.auction_end_time
          || (shows "#revealing" now p.auction_end_time && not (now == p.auction_end_time)))
        && is_open p.status
        && not (sender == s.product_id_in_store id)
        && not (sender == p.highest_bidder)
        && (p.highest_bidder == 0 || is_accepted (sell receives sender id p s)))
  unfolding finalize_auction
  finalize_accepted =
      rw (shows_finalize now (product_of s id).auction_end_time)
        (rw (shows_revealing now (product_of s id).auction_end_time) (ground arith))

-- At every time, for every product and caller: the contract accepts a bid exactly if the auction
-- has started, the page shows the form for bids or it is the very second of the end, the value is
-- above the start price, and the caller has not made that bid before. It accepts a reveal exactly
-- if the page does not show the form for bids, the bid was made and not revealed, and the transfers
-- that its amount asks for succeed. And it accepts the end of the auction exactly if the page shows
-- the form for it, or still that for reveals after the second of the end; the product is open, the
-- caller is neither the seller nor the highest bidder; and there is no highest bidder or the sale
-- succeeds.
pub sections_match :
    (receives : ℕ → ℕ → Bool) (sha3 : Text → ℕ) (s : Store) (id now sender value sealed : ℕ)
    (amount secret : Text)
    → let p = product_of s id in
      let end = p.auction_end_time in
      let key = sha3 (amount ++ secret) in
      (is_accepted (bid sender value now id sealed s) ≡ (
        not (ltb now p.auction_start_time)
        && (shows "#bidding" now end || now == end)
        && ltb p.start_price value
        && (p.bids sender sealed).bidder == 0))
      × (is_accepted (reveal_bid receives sha3 sender now id amount secret s) ≡ (
          not (shows "#bidding" now end)
          && not ((p.bids sender key).bidder == 0)
          && not (p.bids sender key).revealed
          && is_accepted (count_bid receives sender id key (string_to_uint amount) p s)))
      × (is_accepted (finalize_auction receives sender now id s) ≡ (
          (shows "#finalize-auction" now end || (shows "#revealing" now end && not (now == end)))
          && is_open p.status
          && not (sender == s.product_id_in_store id)
          && not (sender == p.highest_bidder)
          && (p.highest_bidder == 0 || is_accepted (sell receives sender id p s))))
sections_match receives sha3 s id now sender value sealed amount secret = (
  bid_accepted s id now sender value sealed,
  reveal_accepted receives sha3 s id now sender amount secret,
  finalize_accepted receives sha3 s id now sender,
)
