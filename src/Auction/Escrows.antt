-- ===== src/Auction/Escrows.antt =====
-- 以太坊教程/拍卖应用/src/contracts/Escrow.sol as a state machine: the contract that holds the price
-- of a sold product. A call that reverts is `none`. Whether an address accepts a transfer is a
-- parameter.
pub mod Approvals
use blockchain_tutorial.Prelude.{
  ℕ, ◌+◌, ◌-◌, ◌%◌, Bool, true, false, not, ◌&&◌, ◌||◌, Option, none, some, List, [], ◌∷◌, leb,
  ◌==◌, if◌then◌else◌,
}
use blockchain_tutorial.Crowdfunding.{word, assign}

-- The contract's events, with their arguments in order.
pub data Log : Type 0 where
  create_escrow : (product_id seller buyer arbiter amount : ℕ) → Log
  unlock_release unlock_refund : (product_id operator : ℕ) → Log
  disburse_amount : (product_id amount beneficiary : ℕ) → Log

-- The contract's fields, its balance, and the events that it has emitted, the latest first.
pub record Escrow : Type 0 where
  pub product_id : ℕ
  pub seller : ℕ
  pub buyer : ℕ
  pub arbiter : ℕ
  pub amount : ℕ
  pub release_amount : ℕ → Bool
  pub release_count : ℕ
  pub refund_amount : ℕ → Bool
  pub refund_count : ℕ
  pub funds_disbursed : Bool
  pub balance : ℕ
  pub logs : List Log

-- The constructor, with the value that it is sent.
abbrev pub create : (product_id seller buyer arbiter value : ℕ) → Escrow
create product_id seller buyer arbiter value = record {
  product_id = product_id;
  seller = seller;
  buyer = buyer;
  arbiter = arbiter;
  amount = value;
  release_amount = λ a. false;
  release_count = 0;
  refund_amount = λ a. false;
  refund_count = 0;
  funds_disbursed = false;
  balance = value;
  logs = create_escrow product_id seller buyer arbiter value ∷ [];
}

abbrev pub is_participant : Escrow → ℕ → Bool
is_participant e caller = caller == e.seller || caller == e.buyer || caller == e.arbiter

abbrev pub unlock_for_seller : ℕ → Escrow → Escrow
unlock_for_seller caller e = if e.release_amount caller then e else record e {
  release_amount = assign e.release_amount caller true;
  release_count = (e.release_count + 1) % word;
  logs = unlock_release e.product_id caller ∷ e.logs;
}

abbrev pub unlock_for_buyer : ℕ → Escrow → Escrow
unlock_for_buyer caller e = if e.refund_amount caller then e else record e {
  refund_amount = assign e.refund_amount caller true;
  refund_count = (e.refund_count + 1) % word;
  logs = unlock_refund e.product_id caller ∷ e.logs;
}

module _ (receives : ℕ → ℕ → Bool) where
  -- `beneficiary.transfer(amount)`, and the two statements after it
  abbrev pub disburse : ℕ → Escrow → Option Escrow
  disburse beneficiary e =
      if leb e.amount e.balance && receives beneficiary e.amount
      then some (record e {
        balance = e.balance - e.amount;
        funds_disbursed = true;
        logs = disburse_amount e.product_id e.amount beneficiary ∷ e.logs;
      })
      else none

  abbrev pub pay_seller : Escrow → Option Escrow
  pay_seller e = if leb 2 e.release_count then disburse e.seller e else some e

  abbrev pub pay_buyer : Escrow → Option Escrow
  pay_buyer e = if leb 2 e.refund_count then disburse e.buyer e else some e

  -- `realseAmountToSeller`
  unfoldable pub release_amount_to_seller : ℕ → Escrow → Option Escrow
  release_amount_to_seller caller e =
      if e.funds_disbursed
      then none
      else if not (is_participant e caller)
      then none
      else pay_seller (unlock_for_seller caller e)

  -- `refundAmountToBuyer`
  unfoldable pub refund_amount_to_buyer : ℕ → Escrow → Option Escrow
  refund_amount_to_buyer caller e =
      if e.funds_disbursed
      then none
      else if not (is_participant e caller)
      then none
      else pay_buyer (unlock_for_buyer caller e)

-- What a call of the contract asks for.
pub data Choice : Type 0 where
  release refund : Choice

module _ (receives : ℕ → ℕ → Bool) where
  abbrev pub call : Choice → ℕ → Escrow → Option Escrow
  call release caller e = release_amount_to_seller receives caller e
  call refund caller e = refund_amount_to_buyer receives caller e

  abbrev pub after : Escrow → Option Escrow → Escrow
  after e none = e
  after e (some f) = f

  -- The state after calls, the latest first; one that reverts changes nothing.
  unfoldable pub run : List (Choice × ℕ) → Escrow → Escrow
  unfolding release_amount_to_seller refund_amount_to_buyer
  run [] e = e
  run ((x, caller) ∷ calls) e = let f = run calls e in after f (call x caller f)
