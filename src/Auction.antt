-- ===== src/Auction.antt =====
-- The auction application (以太坊教程/拍卖应用/src): the data of the contract EcommerceStore of
-- contracts/EcommerceStore.sol; its calls are in Bidding and Sale. A call that reverts is `none`.
-- The hash function, and whether an address accepts a transfer, are parameters.
pub mod Escrows
pub mod Bidding
pub mod Sale
pub mod Calls
pub mod Ranking
pub mod Digits
pub mod Reveals
pub mod Opened
pub mod Accounts
pub mod Later
pub mod Late
pub mod Seed
pub mod Countdown
pub mod Page
mod Demo
mod Tests
use blockchain_tutorial.Prelude.{
  ℕ, ◌+◌, ◌-◌, ◌*◌, ◌%◌, ◌≡◌, ◌≢◌, Bool, true, false, not, ◌&&◌, ◌||◌, Option, none, some, List, [],
  ◌∷◌, ◌++◌, String, ltb, leb, ◌==◌, if◌then◌else◌, zero, suc,
}
use blockchain_tutorial.Js.Number.{Text, is_digit}
use blockchain_tutorial.Crowdfunding.{word, assign}
use blockchain_tutorial.Auction.Escrows.{Escrow}

pub data Status : Type 0 where
  open_status sold unsold : Status

pub data Condition : Type 0 where
  new_condition used : Condition

pub record Bid : Type 0 where
  pub bidder : ℕ
  pub product_id : ℕ
  pub value : ℕ
  pub revealed : Bool

-- Bids are found by the bidder and the sealed text.
pub record Product : Type 0 where
  pub id : ℕ
  pub name : String
  pub category : String
  pub image_link : String
  pub desc_link : String
  pub auction_start_time : ℕ
  pub auction_end_time : ℕ
  pub start_price : ℕ
  pub highest_bidder : ℕ
  pub highest_bid : ℕ
  pub second_highest_bid : ℕ
  pub total_bids : ℕ
  pub status : Status
  pub condition : Condition
  pub bids : ℕ → ℕ → Bid

-- The contract's fields, and its balance. An escrow stands for its address; `none` is address 0.
pub record Store : Type 0 where
  pub product_index : ℕ
  pub product_id_in_store : ℕ → ℕ
  pub stores : ℕ → ℕ → Product
  pub product_escrow : ℕ → Option Escrow
  pub balance : ℕ

abbrev pub no_bid : Bid
no_bid = record { bidder = 0; product_id = 0; value = 0; revealed = false }

-- What a mapping holds where nothing was written.
abbrev pub no_product : Product
no_product = record {
  id = 0;
  name = "";
  category = "";
  image_link = "";
  desc_link = "";
  auction_start_time = 0;
  auction_end_time = 0;
  start_price = 0;
  highest_bidder = 0;
  highest_bid = 0;
  second_highest_bid = 0;
  total_bids = 0;
  status = open_status;
  condition = new_condition;
  bids = λ a k. no_bid;
}

-- The constructor.
abbrev pub empty_store : Store
empty_store = record {
  product_index = 0;
  product_id_in_store = λ i. 0;
  stores = λ a i. no_product;
  product_escrow = λ i. none;
  balance = 0;
}

-- `stores[productIdInStore[id]][id]`, read and written
abbrev pub product_of : Store → ℕ → Product
product_of s id = s.stores (s.product_id_in_store id) id

abbrev pub put_product : ℕ → Product → Store → Store
put_product id p s =
    let owner = s.product_id_in_store id in
    record s { stores = assign s.stores owner (assign (s.stores owner) id p) }

abbrev pub bind {ℓ κ} : {A : Type ℓ} {B : Type κ} → Option A → (A → Option B) → Option B
bind none f = none
bind (some a) f = f a

abbrev pub is_open : Status → Bool
is_open open_status = true
is_open sold = false
is_open unsold = false

module _ (receives : ℕ → ℕ → Bool) where
  -- `receiver.transfer(value)`
  abbrev pub transfer : ℕ → ℕ → Store → Option Store
  transfer receiver value s =
      if leb value s.balance && receives receiver value
      then some (record s { balance = s.balance - value })
      else none
