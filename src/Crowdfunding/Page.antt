-- ===== src/Crowdfunding/Page.antt =====
-- 以太坊教程/众筹应用/src/pages/projects/detail.js: what the two buttons of a payment do; and what
-- this page and those of the forms ask and show. The wallet and the contract are a parameter; what
-- a page shows is recorded beside the calls.
pub mod Forms
pub mod Loading
pub mod View
pub mod Loaded
pub mod Rules
pub mod Sends
use blockchain_tutorial.Prelude.{
  ℕ, ◌≡◌, ◌⊎◌, inl, inr, refl, Bool, true, false, not, Option, none, some, List, [], ◌∷◌, String,
  str_eq, arith, if◌then◌else◌, Bool-cases, All, eq_iff,
}
use blockchain_tutorial.Js.{
  Exception, error, type_error, thrown, Outcome, ok, throw, pending, Exec, pure, raise, catch,
  ◌>>=◌, ◌>>◌, is_truthy,
}
use blockchain_tutorial.Js.Number.{Text}
use blockchain_tutorial.Js.Trace.{Keeps, Keeps-if, Keeps-pure, Keeps-bind, Keeps-catch, keeps_rules}

-- What `getSummary` returns, and the getter of an item of `payments`.
pub record Summary : Type 0 where
  pub description : String
  pub min_invest : ℕ
  pub max_invest : ℕ
  pub goal : ℕ
  pub balance : ℕ
  pub investor_count : ℕ
  pub payment_count : ℕ
  pub owner : String

pub record PaymentInfo : Type 0 where
  pub description : String
  pub amount : ℕ
  pub receiver : String
  pub completed : Bool
  pub voter_count : ℕ

pub data Event : Type 0 where
  -- `web3.eth.getAccounts()` and the calls of the contract
  get_accounts : Event
  investors : Option String → Event
  send_vote send_payment : ℕ → Option String → Event
  -- what a page is loaded with
  get_projects : Event
  get_summary : (project : String) → Event
  get_payment : (project : String) (index : ℕ) → Event
  -- `window.alert`, `location.reload` after a second, and `setState`
  alert : String → Event
  reload : Event
  set_voting set_paying : Option ℕ → Event
  -- the transactions of the forms, and what these show
  send_contribution : (value : Text) (from : Option String) → Event
  send_new_project : (description min_invest max_invest goal : Text) (from : Option String) → Event
  send_new_payment : (description amount receiver : Text) (from : Option String) → Event
  set_loading : Bool → Event
  set_error : String → Event
  reset_amount open_project : Event

abbrev pub Reply : Event → Type 0
Reply get_accounts = List String
Reply (investors _) = Option String
Reply (send_vote _ _) = Unit
Reply (send_payment _ _) = Unit
Reply get_projects = List String
Reply (get_summary _) = Summary
Reply (get_payment _ _) = PaymentInfo
Reply (alert _) = Unit
Reply reload = Unit
Reply (set_voting _) = Unit
Reply (set_paying _) = Unit
Reply (send_contribution _ _) = Unit
Reply (send_new_project _ _ _ _ _) = Unit
Reply (send_new_payment _ _ _ _) = Unit
Reply (set_loading _) = Unit
Reply (set_error _) = Unit
Reply reset_amount = Unit
Reply open_project = Unit

pub record Wallet : Type 0 where
  pub answer : List Event → (c : Event) → Outcome Exception (Reply c)

abbrev pub Action : Type 0 → Type 0
Action = Exec Event Exception

abbrev pub ask : Wallet → (c : Event) → Action (Reply c)
ask w c t = (w.answer t c, c ∷ t)

-- The page's own effects do not fail.
abbrev pub show : Event → Action Unit
show c t = (ok tt, c ∷ t)

-- `accounts[0]`
abbrev pub first : List String → Option String
first [] = none
first (a ∷ as') = some a

abbrev non_empty : String → String → String
non_empty m other = if str_eq m "" then other else m

-- `err.message || err.toString()`
abbrev pub message_of : Exception → String
message_of (error m) = non_empty m "Error"
message_of (type_error m) = non_empty m "TypeError"
message_of (thrown s) = s

abbrev pub finish :
    Outcome Exception Unit → List Event → Action Unit → Outcome Exception Unit × List Event
finish (ok a) t last = last t
finish (throw e) t last = (throw e, (last t).1)
finish pending t last = (pending, t)

-- `try { m } finally { last }`, where `last` does not fail
abbrev pub finally : Action Unit → Action Unit → Action Unit
finally m last t = finish (m t).0 (m t).1 last

-- `sender !== owner`
abbrev pub is_owner : Option String → String → Bool
is_owner none owner = false
is_owner (some a) owner = str_eq a owner

module _ (w : Wallet) where
  -- `voteForPayment`
  unfoldable pub vote_clicked : ℕ → Action Unit
  vote_clicked index =
      finally
        (catch
          (do
            show (set_voting (some index))
            accounts ← ask w get_accounts
            invested ← ask w (investors (first accounts))
            if not (is_truthy invested)
                then show (alert "只有投资人才有投票权")
                else do ask w (send_vote index (first accounts)); show (alert "投票成功!"); show reload)
          (λ e. show (alert (message_of e))))
        (show (set_voting none))

  -- `doPayment`; the owner is of the page's properties
  unfoldable pub pay_clicked : String → ℕ → Action Unit
  pay_clicked owner index =
      finally
        (catch
          (do
            show (set_paying (some index))
            accounts ← ask w get_accounts
            if not (is_owner (first accounts) owner) then show (alert "只有项目方才能划转资金!") else do
              ask w (send_payment index (first accounts))
              show (alert "资金划转成功!")
              show reload)
          (λ e. show (alert (message_of e))))
        (show (set_paying none))
