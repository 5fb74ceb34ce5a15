-- ===== src/Crowdfunding/Tests.antt =====
-- The theorems about the crowdfunding application at a small project.
use blockchain_tutorial.Prelude.{
  ℕ, ◌+◌, ◌≡◌, ◌≤◌, ◌⊎◌, refl, ap, get_elem?, String, Bool, true, false, ◌&&◌, Option, some, none,
  List, [], ◌∷◌, All, ◌==◌, leb, if◌then◌else◌,
}
use blockchain_tutorial.Js.{Exception, Outcome, ok, pending, error, throw}
use blockchain_tutorial.Crowdfunding.{
  Project, Payment, create, do_payment, can_do_payment, execute, contribution, new_payment, vote,
  payment, Reaches, created, executed,
}
use blockchain_tutorial.Crowdfunding.Accounts.{paid, accounts_balance}
use blockchain_tutorial.Crowdfunding.Votes.{IsCounted, votes-IsCounted}
use blockchain_tutorial.Crowdfunding.Buttons.{is_some, do_payment_button}
use blockchain_tutorial.Crowdfunding.Page.{
  Event, Reply, PaymentInfo, get_projects, get_summary, get_payment, get_accounts, investors,
  send_vote, send_payment, alert, reload, set_voting, set_paying, send_contribution,
  send_new_project, send_new_payment, set_loading, set_error, reset_amount, open_project, Wallet,
  vote_clicked, pay_clicked,
}
use blockchain_tutorial.Js.Number.{codes}
use blockchain_tutorial.Crowdfunding.Page.Forms.{
  Units, ProjectProps, contribute_project, create_project, create_payment_submitted,
}
use blockchain_tutorial.Crowdfunding.Page.Loading.{DetailProps, detail_props}
use blockchain_tutorial.Crowdfunding.Page.View.{
  DetailState, Part, headline, message, render_basic_info, render_payments,
}
use blockchain_tutorial.Crowdfunding.Page.Loaded.{
  summary_of, info_of, props_of, Serves, PaymentRow, detail_shows,
}
use blockchain_tutorial.Crowdfunding.Page.Sends.{
  IsOver, FromOwner, payment_FromOwner, progress_ends,
}

abbrev accepts : ℕ → ℕ → Bool
accepts a n = true

abbrev fresh : Project
fresh = create 1 "a book" 0 100 1000

abbrev state_of : Option Project → Project
state_of none = fresh
state_of (some p) = p

abbrev funded : Project
funded = state_of (execute accepts (contribution 2 50) fresh)

abbrev proposed : Project
proposed = state_of (execute accepts (new_payment 1 "paper" 20 9) funded)

abbrev decided : Project
decided = state_of (execute accepts (vote 2 0) proposed)

abbrev spent : Project
spent = state_of (execute accepts (payment 1 0) decided)

history : Reaches accepts spent 50
unfolding execute
history =
    executed (payment 1 0) decided spent 50
      (executed (vote 2 0) proposed decided 50
        (executed (new_payment 1 "paper" 20 9) funded proposed 50
          (executed (contribution 2 50) fresh funded 0 (created 1 "a book" 0 100 1000) refl) refl)
        refl)
      refl

accounts_balance_example : (spent.balance + paid spent.payments ≡ 50) × (spent.balance ≤ spent.goal)
accounts_balance_example = accounts_balance accepts spent 50 history

abbrev book : Payment
book = record {
  description = "paper";
  amount = 20;
  receiver = 9;
  completed = true;
  voters = λ a. if a == 2 then true else false;
  voter_count = 1;
}

votes-IsCounted_example : IsCounted book
unfolding execute
votes-IsCounted_example = votes-IsCounted accepts spent 50 history 0 book refl

abbrev paper : Payment
paper = record {
  description = "paper";
  amount = 20;
  receiver = 9;
  completed = false;
  voters = λ a. if a == 2 then true else false;
  voter_count = 1;
}

do_payment_button_example : is_some (do_payment accepts 1 0 decided) ≡ (
    1 == decided.owner
    && can_do_payment paper decided
    && leb paper.amount decided.balance
    && accepts paper.receiver paper.amount)
unfolding execute
do_payment_button_example = do_payment_button accepts 1 0 decided paper refl

abbrev name_of : ℕ → String
name_of n = if n == 1 then "0x1" else "0x9"

abbrev asked : Option Payment → Outcome Exception PaymentInfo
asked none = throw (error "out of range")
asked (some y) = ok (info_of name_of y)

abbrev respond : List Event → (c : Event) → Outcome Exception (Reply c)
respond t get_accounts = ok ("0x1" ∷ [])
respond t get_projects = ok ("0x5" ∷ [])
respond t (get_summary _) = ok (summary_of name_of decided)
respond t (get_payment _ i) = asked (get_elem? decided.payments i)
respond t (investors _) = ok (some "0")
respond t (send_vote _ _) = throw (error "reverted")
respond t (send_payment _ _) = ok tt
respond t (alert _) = ok tt
respond t reload = ok tt
respond t (set_voting _) = ok tt
respond t (set_paying _) = ok tt
respond t (send_contribution _ _) = ok tt
respond t (send_new_project _ _ _ _ _) = throw (error "reverted")
respond t (send_new_payment _ _ _ _) = ok tt
respond t (set_loading _) = ok tt
respond t (set_error _) = ok tt
respond t reset_amount = ok tt
respond t open_project = ok tt

abbrev wallet : Wallet
wallet = record { answer = respond }

abbrev units : Units
units = record { to_wei = ok; from_wei = λ s. s; is_address = λ a. true }

abbrev book_props : ProjectProps
book_props = record { min_invest = codes "1"; max_invest = codes "5"; owner = "0x1" }

payment_FromOwner_example :
    All (FromOwner "0x1") (pay_clicked wallet "0x1" 0 []).1
    × All
        (FromOwner "0x1")
        (create_payment_submitted wallet units "0x1"
          (codes "paper")
          (codes "2")
          (some (codes "0x9"))
          []).1
payment_FromOwner_example =
    payment_FromOwner wallet units "0x1" 0 (codes "paper") (codes "2") (some (codes "0x9")) [] tt

progress_ends_example :
    (((vote_clicked wallet 0 []).0 ≡ pending)
      ⊎ ((u : List Event) × ((vote_clicked wallet 0 []).1 ≡ set_voting none ∷ u)))
    × (((pay_clicked wallet "0x1" 0 []).0 ≡ pending)
        ⊎ ((u : List Event) × ((pay_clicked wallet "0x1" 0 []).1 ≡ set_paying none ∷ u)))
    × IsOver [] (contribute_project wallet units book_props (some (codes "3")) [])
    × IsOver []
        (create_project wallet units (codes "paper") (some (codes "1")) (some (codes "5")) none [])
    × IsOver [] (
        create_payment_submitted wallet units "0x1"
          (codes "paper")
          (codes "2")
          (some (codes "0x9"))
          [])
progress_ends_example =
    progress_ends wallet units book_props 0 (codes "paper") (codes "2") (some (codes "3"))
      (some (codes "1")) (some (codes "5")) none (some (codes "0x9")) []

abbrev first_part : List Part → Part
first_part [] = message ""
first_part (x ∷ xs) = x

abbrev shown_state : DetailState
shown_state = record {
  amount = none;
  errmsg = "";
  loading = false;
  is_voting = none;
  is_paying = none;
}

served : Serves name_of wallet "0x5" decided
served = record { summary = λ t. refl; payment = λ t i y e. ap asked e }

detail_shows_example :
    ((detail_props wallet "0x5" []).0 ≡ ok (props_of name_of "0x5" decided))
    × PaymentRow name_of units accepts decided 0 paper
        (render_payments units (props_of name_of "0x5" decided) shown_state).rows
detail_shows_example =
    detail_shows name_of wallet units accepts "0x5" decided shown_state [] 0 paper served
      (unfold execute in refl)

-- The page reads a property that its data does not have.
headline_missing :
    (p : DetailProps) → first_part (render_basic_info units p shown_state) ≡ headline none
unfolding render_basic_info
headline_missing p = refl
