-- ===== src/Crowdfunding/Page/Loaded.antt =====
-- The page of a project beside the state of its contract.
use blockchain_tutorial.Prelude.{
  ℕ, zero, suc, ◌+◌, ◌≡◌, refl, sym, ap, ◌∙◌, Bool, true, false, not, ◌&&◌, Option, none, some,
  List, [], ◌∷◌, String, arith, length, get_elem?, leb, ◌==◌, if◌then◌else◌,
}
use mathlib.Core.Path.{subst}
use blockchain_tutorial.Js.{ok}
use blockchain_tutorial.Crowdfunding as Contract
use blockchain_tutorial.Crowdfunding.{Payment, Project, can_do_payment}
use blockchain_tutorial.Crowdfunding.Buttons.{is_some, do_payment_button}
use blockchain_tutorial.Crowdfunding.Page.{
  Event, get_summary, get_payment, Summary, PaymentInfo, Wallet,
}
use blockchain_tutorial.Crowdfunding.Page.Forms.{Units}
use blockchain_tutorial.Crowdfunding.Page.Loading.{DetailProps, both, payments_from, detail_props}
use blockchain_tutorial.Crowdfunding.Page.View.{
  DetailState, Click, vote_for_payment, do_payment, Button, Row, decimal, is_at, labelled,
  render_payment_row, rows_from, render_payments,
}

module _ (name : ℕ → String) where
  -- `getSummary`, with addresses as texts
  abbrev pub summary_of : Project → Summary
  summary_of p = record {
    description = p.description;
    min_invest = p.min_invest;
    max_invest = p.max_invest;
    goal = p.goal;
    balance = p.balance;
    investor_count = p.investor_count;
    payment_count = length p.payments;
    owner = name p.owner;
  }

  -- The getter of an item of `payments`, without its mapping.
  abbrev pub info_of : Payment → PaymentInfo
  info_of y = record {
    description = y.description;
    amount = y.amount;
    receiver = name y.receiver;
    completed = y.completed;
    voter_count = y.voter_count;
  }

  abbrev infos_of : List Payment → List PaymentInfo
  infos_of [] = []
  infos_of (y ∷ ys) = info_of y ∷ infos_of ys

  abbrev pub props_of : String → Project → DetailProps
  props_of address p = record {
    address = address;
    description = p.description;
    min_invest = p.min_invest;
    max_invest = p.max_invest;
    goal = p.goal;
    balance = p.balance;
    investor_count = p.investor_count;
    payment_count = length p.payments;
    owner = name p.owner;
    payments = infos_of p.payments;
  }

  -- The wallet answers for the contract at the address, which is in the state `p`.
  pub record Serves (w : Wallet) (address : String) (p : Project) : Type 0 where
    pub summary : (t : List Event) → w.answer t (get_summary address) ≡ ok (summary_of p)
    pub payment :
        (t : List Event) (i : ℕ) (y : Payment)
        → get_elem? p.payments i ≡ some y
        → w.answer t (get_payment address i) ≡ ok (info_of y)

  payments_from-ok :
      (w : Wallet) (a : String) (ys : List Payment) (i : ℕ) (t : List Event)
      → ((j : ℕ) (y : Payment) (t : List Event)
          → get_elem? ys j ≡ some y
          → w.answer t (get_payment a (i + j)) ≡ ok (info_of y))
      → (payments_from w a i (length ys) t).0 ≡ ok (infos_of ys)
  payments_from-ok w a [] i t h = refl
  payments_from-ok w a (y ∷ ys) i t h =
      let here : i + 0 ≡ i = omega arith in
      let first = subst (λ k. w.answer t (get_payment a k) ≡ ok (info_of y)) here (h 0 y t refl) in
      let rest = payments_from-ok w a ys (i + 1) (get_payment a i ∷ t) λ j z u e.
        subst (λ k. w.answer u (get_payment a k) ≡ ok (info_of z)) (next i j) (h (suc j) z u e) in
      ap (λ o. both o (payments_from w a (i + 1) (length ys) (get_payment a i ∷ t)).0) first
      ∙ ap (both (ok (info_of y))) rest
    where
      next : (i j : ℕ) → i + suc j ≡ i + 1 + j
      next i j = omega arith

  get_elem?-rows_from :
      (u : Units) (s : DetailState) (n k i : ℕ) (ys : List Payment) (y : Payment)
      → get_elem? ys i ≡ some y
      → get_elem? (rows_from u s n k (infos_of ys)) i
        ≡ some (render_payment_row u s n (info_of y) (k + i))
  get_elem?-rows_from u s n k i [] y e = cc
  get_elem?-rows_from u s n k zero (x ∷ ys) y e =
      let here : k ≡ k + 0 = omega arith in
      let same : x ≡ y = cc in
      ap (λ z. some (render_payment_row u s n (info_of z) k)) same
      ∙ ap (λ j. some (render_payment_row u s n (info_of y) j)) here
  get_elem?-rows_from u s n k (suc i) (x ∷ ys) y e =
      let next : k + 1 + i ≡ k + suc i = omega arith in
      get_elem?-rows_from u s n (k + 1) i ys y e
      ∙ ap (λ j. some (render_payment_row u s n (info_of y) j)) next

  detail_props-ok :
      (w : Wallet) (a : String) (p : Project) (t : List Event)
      → Serves w a p
      → (detail_props w a t).0 ≡ ok (props_of a p)
  unfolding detail_props
  detail_props-ok w a p t h =
      let paid = payments_from-ok w a p.payments 0 (get_summary a ∷ t) λ j y v e.
        subst (λ k. w.answer v (get_payment a k) ≡ ok (info_of y)) (plus j) (h.payment v j y e) in
      rw (h.summary t) (rw paid refl)
    where
      plus : (j : ℕ) → j ≡ 0 + j
      plus j = omega arith

abbrev pub is_shown : Option Button → Bool
is_shown none = false
is_shown (some b) = true

abbrev pub click_of : Option Button → Option Click
click_of none = none
click_of (some b) = some b.click

shown-if : (b : Bool) (x : Button) → is_shown (if b then some x else none) ≡ b
shown-if true x = refl
shown-if false x = refl

click-if :
    (b busy : Bool) (label : String) (c : Click)
    → click_of (if b then some (labelled busy label c) else none) ≡ (if b then some c else none)
click-if true busy label c = refl
click-if false busy label c = refl

vote-click :
    (completed busy : Bool) (label : String) (c : Click)
    → click_of (if not completed then some (labelled busy label c) else none)
      ≡ (if completed then none else some c)
vote-click true busy label c = refl
vote-click false busy label c = refl

==_refl : (n : ℕ) → (n == n) ≡ true
==_refl n = ground arith

-- The row of a payment in a table.
pub record PaymentRow (name : ℕ → String) (u : Units) (receives : ℕ → ℕ → Bool) (p : Project)
    (i : ℕ) (y : Payment) (rows : List Row) : Type 0 where
  pub row : Row
  pub at : get_elem? rows i ≡ some row
  pub texts :
      (row.description ≡ y.description)
      × (row.amount ≡ u.from_wei (decimal y.amount))
      × (row.receiver ≡ name y.receiver)
  -- the buttons, each for this payment
  pub vote : click_of row.vote_button ≡ (if y.completed then none else some (vote_for_payment i))
  pub pay_click :
      click_of row.pay_button ≡ (if can_do_payment y p then some (do_payment i) else none)
  -- the call behind the button, when the owner makes it
  pub pay :
      is_some (Contract.do_payment receives p.owner i p)
      ≡ (is_shown row.pay_button && leb y.amount p.balance && receives y.receiver y.amount)

-- Where the wallet answers for a contract in some state, the page of the project is loaded with
-- that state and with all its payments, in order. The row of each payment shows its text, its
-- amount in ether and its receiver; a button that votes for this payment if it is not completed;
-- and a button that pays it exactly where `can_do_payment` says so. The owner's call behind that
-- button goes through exactly where the row has it, the balance covers the amount, and the
-- receiver accepts the transfer.
pub detail_shows :
    (name : ℕ → String) (w : Wallet) (u : Units) (receives : ℕ → ℕ → Bool) (a : String)
    (p : Project) (s : DetailState) (t : List Event) (i : ℕ) (y : Payment)
    → Serves name w a p
    → get_elem? p.payments i ≡ some y
    → ((detail_props w a t).0 ≡ ok (props_of name a p))
      × PaymentRow name u receives p i y (render_payments u (props_of name a p) s).rows
unfolding render_payments can_do_payment
detail_shows name w u receives a p s t i y h e =
    let here : 0 + i ≡ i = omega arith in
    let row_of = render_payment_row u s p.investor_count (info_of name y) in
    (
      detail_props-ok name w a p t h,
      record {
        row = row_of i;
        at =
            get_elem?-rows_from name u s p.investor_count 0 i p.payments y e
            ∙ ap (λ k. some (row_of k)) here;
        texts = (refl, refl, refl);
        vote = vote-click y.completed (is_at s.is_voting i) "投赞成票" (vote_for_payment i);
        pay_click = click-if _ (is_at s.is_paying i) "资金划转" (do_payment i);
        pay =
            do_payment_button receives p.owner i p y e
            ∙ ap
                (λ b.
                  b && can_do_payment y p && leb y.amount p.balance && receives y.receiver y.amount)
                (==_refl p.owner)
            ∙ ap (λ b. b && leb y.amount p.balance && receives y.receiver y.amount)
                (sym (shown-if (can_do_payment y p) _));
      },
    )
