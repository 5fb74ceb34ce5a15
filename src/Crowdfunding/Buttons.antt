-- ===== src/Crowdfunding/Buttons.antt =====
-- The button for a payment against the contract's own tests.
use blockchain_tutorial.Prelude.{
  ℕ, ◌≡◌, refl, Bool, true, false, ◌&&◌, Option, none, some, arith, get_elem?, leb, ◌==◌,
  Bool-cases, inl, inr,
}
use blockchain_tutorial.Crowdfunding.{Payment, Project, pay, do_payment, can_do_payment}

abbrev pub is_some : Option Project → Bool
is_some none = false
is_some (some p) = true

pay-can_do_payment :
    (receives : ℕ → ℕ → Bool) (index : ℕ) (p : Project) (y : Payment)
    → is_some (pay receives index p (some y))
      ≡ (can_do_payment y p && leb y.amount p.balance && receives y.receiver y.amount)
unfolding can_do_payment
pay-can_do_payment receives index p y = ground arith

-- A call of `doPayment` for a payment of the project goes through exactly when the page shows the
-- button for it, the sender is the owner, the balance covers the amount, and the receiver accepts
-- the transfer.
pub do_payment_button :
    (receives : ℕ → ℕ → Bool) (sender index : ℕ) (p : Project) (y : Payment)
    → get_elem? p.payments index ≡ some y
    → is_some (do_payment receives sender index p) ≡ (
        sender == p.owner
        && can_do_payment y p
        && leb y.amount p.balance
        && receives y.receiver y.amount)
unfolding do_payment
do_payment_button receives sender index p y h = elim (Bool-cases (sender == p.owner)) [
  | inl own ↦ rw own (rw h (pay-can_do_payment receives index p y))
  | inr other ↦ rw other refl
]
