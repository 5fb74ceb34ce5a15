-- ===== src/Auction/Accounts.antt =====
-- Where the money of the store is, while its calls keep to the order of an auction.
pub mod Moves
pub mod Reached
use blockchain_tutorial.Prelude.{
  member, enlist, Distinct, ℕ, ◌+◌, ◌≡◌, ◌≢◌, ◌≤◌, ◌<◌, Bool, true, false, not, List, [], ◌++◌,
  Option, some, if◌then◌else◌, ◌==◌,
}
use blockchain_tutorial.Js.Number.{Text}
use blockchain_tutorial.Crowdfunding.{word}
use blockchain_tutorial.Voting.Sums.{total}
use blockchain_tutorial.Auction.{Product, Store, product_of, empty_store, is_open}
use blockchain_tutorial.Auction.Calls.{
  Call, adding, bidding, revealing, finalizing, releasing, refunding, execute,
}

-- What the store holds for a product of the bids that were revealed: the highest bid, until the
-- auction is finalized.
abbrev pub kept : Product → ℕ
kept p = if is_open p.status then (if p.highest_bidder == 0 then 0 else p.highest_bid) else 0

abbrev pub kept_for : Store → ℕ → ℕ
kept_for s id = kept (product_of s id)

-- The products with a revealed bid, the sum of all deposits, and of those whose bid was revealed.
pub record Ledger : Type 0 where
  pub ids : List ℕ
  pub deposited : ℕ
  pub opened : ℕ

module _ (receives : ℕ → ℕ → Bool) (sha3 : Text → ℕ) where
  -- No bid is revealed from address 0, for a product that was not added, or after its auction was
  -- finalized; an auction is finalized with a price that is not above the highest bid, and that
  -- below 2^256; and there are less than 2^256 products.
  abbrev pub IsOrderly : Call → Store → Type 0
  IsOrderly (adding a n c i d b e p k) s = s.product_index + 1 < word
  IsOrderly (bidding a v t id k) s = Unit
  IsOrderly (revealing a t id m k) s =
      (a ≢ 0) × (id ≤ s.product_index) × (is_open (product_of s id).status ≡ true)
  IsOrderly (finalizing a t id) s =
      ((product_of s id).second_highest_bid ≤ (product_of s id).highest_bid)
      × ((product_of s id).highest_bid < word)
  IsOrderly (releasing a id) s = Unit
  IsOrderly (refunding a id) s = Unit

  abbrev pub entered : Call → Store → Ledger → Ledger
  entered (adding a n c i d b e p k) s l = l
  entered (bidding a v t id k) s l = record l { deposited = l.deposited + v }
  entered (revealing a t id m k) s l = record l {
    ids = enlist id l.ids;
    opened = l.opened + ((product_of s id).bids a (sha3 (m ++ k))).value;
  }
  entered (finalizing a t id) s l = l
  entered (releasing a id) s l = l
  entered (refunding a id) s l = l

  pub data Orderly : Store → Ledger → Type 0 where
    deployed : Orderly empty_store (record { ids = []; deposited = 0; opened = 0 })
    executed :
        (c : Call) (s t : Store) (l : Ledger)
        → Orderly s l
        → IsOrderly c s
        → execute receives sha3 c s ≡ some t
        → Orderly t (entered c s l)

-- The balance is what was deposited with bids that are not revealed, and what is kept of those
-- that are.
pub record IsBalanced (s : Store) (l : Ledger) : Type 0 where
  pub distinct : Distinct l.ids
  pub outside : (id : ℕ) → member id l.ids ≡ false → kept_for s id ≡ 0
  pub unused : (id : ℕ) → s.product_index < id → (product_of s id).highest_bidder ≡ 0
  pub accounts : s.balance + l.opened ≡ l.deposited + total (kept_for s) l.ids
