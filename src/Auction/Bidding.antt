-- ===== src/Auction/Bidding.antt =====
-- contracts/EcommerceStore.sol: how a product is added, and how its bids are made and revealed.
use blockchain_tutorial.Prelude.{
  ℕ, ◌+◌, ◌-◌, ◌*◌, ◌%◌, Bool, true, false, not, Option, none, some, [], ◌∷◌, ◌++◌, String, ltb,
  leb, ◌==◌, if◌then◌else◌,
}
use blockchain_tutorial.Js.Number.{Text, is_digit}
use blockchain_tutorial.Crowdfunding.{word, assign}
use blockchain_tutorial.Auction.{
  open_status, Condition, new_condition, used, Bid, Product, Store, product_of, put_product, bind,
  transfer,
}

-- `ProductCondition(n)`; a number that is no condition reverts the call.
abbrev condition_of : ℕ → Option Condition
condition_of n = if n == 0 then some new_condition else if n == 1 then some used else none

-- The writes of `addProductToStore`. The bids that the place held before are kept.
abbrev pub listed :
    (sender : ℕ) (name category image_link desc_link : String) (start end price : ℕ)
    → Condition
    → Store
    → Store
listed sender name category image_link desc_link start end price condition s =
    let id = (s.product_index + 1) % word in
    record s {
      product_index = id;
      stores = assign s.stores sender (
          assign (s.stores sender) id (record {
            id = id;
            name = name;
            category = category;
            image_link = image_link;
            desc_link = desc_link;
            auction_start_time = start;
            auction_end_time = end;
            start_price = price;
            highest_bidder = 0;
            highest_bid = 0;
            second_highest_bid = 0;
            total_bids = 0;
            status = open_status;
            condition = condition;
            bids = (s.stores sender id).bids;
          }));
      product_id_in_store = assign s.product_id_in_store id sender;
    }

-- `addProductToStore`
unfoldable pub add_product_to_store :
    (sender : ℕ) (name category image_link desc_link : String) (start end price condition : ℕ)
    → Store
    → Option Store
add_product_to_store sender name category image_link desc_link start end price condition s =
    if not (ltb start end)
    then none
    else bind (condition_of condition)
        (λ c. some (listed sender name category image_link desc_link start end price c s))

abbrev pub with_bid : ℕ → ℕ → Bid → Product → Product
with_bid sender key b p = record p { bids = assign p.bids sender (assign (p.bids sender) key b) }

-- `bid`; the value is in the balance before the body runs
unfoldable pub bid : (sender value now id sealed : ℕ) → Store → Option Store
bid sender value now id sealed s =
    let p = product_of s id in
    if ltb now p.auction_start_time
    then none
    else if ltb p.auction_end_time now
    then none
    else if leb value p.start_price
    then none
    else if not ((p.bids sender sealed).bidder == 0)
    then none
    else some (
        put_product id
          (with_bid sender sealed
            (record { bidder = sender; product_id = id; value = value; revealed = false })
            (record p { total_bids = (p.total_bids + 1) % word }))
          (record s { balance = s.balance + value }))

-- The loop of `stringToUint`: bytes that are no digits are skipped.
unfoldable pub read_digits : ℕ → Text → ℕ
read_digits acc [] = acc
read_digits acc (c ∷ s) = read_digits (if is_digit c then (acc * 10 + (c - b'0')) % word else acc) s

unfoldable pub string_to_uint : Text → ℕ
unfolding read_digits
string_to_uint s = read_digits 0 s

-- The writes to the product of a bid that leads, and of one that is second.
abbrev pub led_by : (sender amount second : ℕ) → Product → Product
led_by sender amount second p = record p {
  highest_bidder = sender;
  highest_bid = amount;
  second_highest_bid = second;
}

abbrev pub second_to : (amount : ℕ) → Product → Product
second_to amount p = record p { second_highest_bid = amount }

module _ (receives : ℕ → ℕ → Bool) where
  -- The end of `revealBid`: the bid is marked, and the refund paid.
  abbrev pub close_bid : (sender id key refund : ℕ) → Product → Store → Option Store
  close_bid sender id key refund p s =
      let b = p.bids sender key in
      let t = put_product id (with_bid sender key (record b { revealed = true }) p) s in
      if refund == 0 then some t else transfer receives sender refund t

  -- The four ways in which the amount of a revealed bid counts.
  abbrev pub count_bid : (sender id key amount : ℕ) → Product → Store → Option Store
  count_bid sender id key amount p s =
      let value = (p.bids sender key).value in
      if ltb value amount
      then close_bid sender id key value p s
      else if p.highest_bidder == 0
      then close_bid sender id key (value - amount) (led_by sender amount p.start_price p) s
      else if ltb p.highest_bid amount
      then bind (transfer receives p.highest_bidder p.highest_bid s)
          (close_bid sender id key (value - amount) (led_by sender amount p.highest_bid p))
      else if ltb p.second_highest_bid amount
      then close_bid sender id key value (second_to amount p) s
      else close_bid sender id key value p s

  -- `revealBid`; both texts are hashed one after the other
  unfoldable pub reveal_bid :
      (sha3 : Text → ℕ) (sender now id : ℕ) (amount secret : Text) → Store → Option Store
  unfolding string_to_uint
  reveal_bid sha3 sender now id amount secret s =
      let p = product_of s id in
      let key = sha3 (amount ++ secret) in
      if ltb now p.auction_end_time
      then none
      else if (p.bids sender key).bidder == 0
      then none
      else if (p.bids sender key).revealed
      then none
      else count_bid sender id key (string_to_uint amount) p s
