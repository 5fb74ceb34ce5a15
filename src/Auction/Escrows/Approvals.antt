-- ===== src/Auction/Escrows/Approvals.antt =====
-- What the escrow promises, without counters, flags or a balance: who has approved what, and what
-- two of them have decided.
use blockchain_tutorial.Prelude.{
  member, enlist, Distinct, ℕ, ◌≡◌, ◌≤◌, ◌<◌, refl, Bool, true, false, ◌||◌, Option, none, some,
  List, [], ◌∷◌, arith, leb, ◌==◌, if◌then◌else◌, length, All,
}
use blockchain_tutorial.Auction.Escrows.{
  Log, create_escrow, unlock_release, unlock_refund, disburse_amount, Escrow, create,
  release_amount_to_seller, refund_amount_to_buyer, Choice, release, refund, call, after, run,
}

pub record Ballot : Type 0 where
  pub for_release : List ℕ
  pub for_refund : List ℕ
  pub decision : Option Choice

abbrev in_favour : Choice → Ballot → List ℕ
in_favour release b = b.for_release
in_favour refund b = b.for_refund

abbrev listed : Choice → ℕ → Ballot → Ballot
listed release caller b = record b { for_release = enlist caller b.for_release }
listed refund caller b = record b { for_refund = enlist caller b.for_refund }

abbrev pub unlisted : Ballot
unlisted = record { for_release = []; for_refund = []; decision = none }

-- The participants, what the escrow holds, and who accepts money.
module _ (receives : ℕ → ℕ → Bool) (seller buyer arbiter amount : ℕ) where
  abbrev payee : Choice → ℕ
  payee release = seller
  payee refund = buyer

  abbrev takes_part : ℕ → Bool
  takes_part a = a == seller || a == buyer || a == arbiter

  -- Two who agree decide, if the one that they pay accepts the money.
  abbrev decide : Choice → Ballot → Option Ballot
  decide x b =
      if leb 2 (length (in_favour x b))
      then (if receives (payee x) amount then some (record b { decision = some x }) else none)
      else some b

  abbrev approve : Choice → ℕ → Ballot → Option Ballot
  approve x caller b = elim b.decision [
    | none ↦ if takes_part caller then decide x (listed x caller b) else none
    | some y ↦ none
  ]

  abbrev kept : Ballot → Option Ballot → Ballot
  kept b none = b
  kept b (some c) = c

  -- The ballot after calls, the latest first.
  unfoldable pub poll : List (Choice × ℕ) → Ballot
  poll [] = unlisted
  poll ((x, caller) ∷ calls) = let b = poll calls in kept b (approve x caller b)

  abbrev held : Option Choice → ℕ
  held none = amount
  held (some x) = 0

  abbrev payouts : Option Choice → List (ℕ × ℕ)
  payouts none = []
  payouts (some x) = (payee x, amount) ∷ []

abbrev is_decided : Option Choice → Bool
is_decided none = false
is_decided (some x) = true

-- The payments among the events of an escrow: beneficiary and amount.
abbrev pub disbursements : List Log → List (ℕ × ℕ)
disbursements [] = []
disbursements (create_escrow i s b a v ∷ ls) = disbursements ls
disbursements (unlock_release i o ∷ ls) = disbursements ls
disbursements (unlock_refund i o ∷ ls) = disbursements ls
disbursements (disburse_amount i v a ∷ ls) = (a, v) ∷ disbursements ls

module _ (receives : ℕ → ℕ → Bool) (seller buyer arbiter amount : ℕ) where
  pub record Refines (e : Escrow) (b : Ballot) : Type 0 where
    pub parts : (e.seller ≡ seller) × (e.buyer ≡ buyer) × (e.arbiter ≡ arbiter)
    pub sum : e.amount ≡ amount
    pub released : (a : ℕ) → e.release_amount a ≡ member a b.for_release
    pub refunded : (a : ℕ) → e.refund_amount a ≡ member a b.for_refund
    pub release_counted : e.release_count ≡ length b.for_release
    pub refund_counted : e.refund_count ≡ length b.for_refund
    pub undecided : b.decision ≡ none → (length b.for_release < 2) × (length b.for_refund < 2)
    pub decided : e.funds_disbursed ≡ is_decided b.decision
    pub money : e.balance ≡ held receives seller buyer arbiter amount b.decision
    pub paid : disbursements e.logs ≡ payouts receives seller buyer arbiter amount b.decision

  create-Refines : (id : ℕ) → Refines (create id seller buyer arbiter amount) unlisted
  create-Refines id = record {
    parts = (refl, refl, refl);
    sum = refl;
    released = λ a. refl;
    refunded = λ a. refl;
    release_counted = refl;
    refund_counted = refl;
    undecided = λ _. (omega arith, omega arith);
    decided = refl;
    money = refl;
    paid = refl;
  }

  step-Refines :
      (x : Choice) (caller : ℕ) (e : Escrow) (b : Ballot)
      → Refines e b
      → Refines (after receives e (call receives x caller e)) (
          kept receives seller buyer arbiter amount b
            (approve receives seller buyer arbiter amount x caller b))
  unfolding release_amount_to_seller refund_amount_to_buyer
  step-Refines release caller e b h = ground (arith, h.released caller)
  step-Refines refund caller e b h = ground (arith, h.refunded caller)

  abbrev Participants : List ℕ → Type 0
  Participants = All (λ a. takes_part receives seller buyer arbiter amount a ≡ true)

  -- Nobody but a participant is listed, nobody twice, and a decision has two in its favour.
  pub record IsFair (b : Ballot) : Type 0 where
    pub taking_part : Participants b.for_release × Participants b.for_refund
    pub distinct : Distinct b.for_release × Distinct b.for_refund
    pub for_seller : b.decision ≡ some release → 2 ≤ length b.for_release
    pub for_buyer : b.decision ≡ some refund → 2 ≤ length b.for_refund

  unlisted-IsFair : IsFair unlisted
  unlisted-IsFair = record {
    taking_part = (tt, tt);
    distinct = (tt, tt);
    for_seller = λ e. cc;
    for_buyer = λ e. cc;
  }

  approve-IsFair :
      (x : Choice) (caller : ℕ) (b : Ballot)
      → IsFair b
      → IsFair (
          kept receives seller buyer arbiter amount b
            (approve receives seller buyer arbiter amount x caller b))
  approve-IsFair release caller b h = ground arith
  approve-IsFair refund caller b h = ground arith

  -- For calls of an escrow in any order, by any callers, some of which are reverted: the approvals
  -- that it counts are those of distinct participants, as a ballot lists them; and it pays its
  -- amount once, to the seller or the buyer, when the first two participants agree on that and
  -- the receiver accepts the money, and nothing before or after.
  pub run-Refines :
      (id : ℕ) (calls : List (Choice × ℕ))
      → Refines
          (run receives calls (create id seller buyer arbiter amount))
          (poll receives seller buyer arbiter amount calls)
        × IsFair (poll receives seller buyer arbiter amount calls)
  unfolding run poll
  run-Refines id [] = (create-Refines id, unlisted-IsFair)
  run-Refines id ((x, caller) ∷ calls) =
      let (same, fair) = run-Refines id calls in
      (step-Refines x caller _ _ same, approve-IsFair x caller _ fair)
