-- ===== src/Crowdfunding/Page/Loading.antt =====
-- 以太坊教程/众筹应用/src/pages: what the pages are loaded with (getInitialProps of index.js,
-- projects/detail.js and projects/payments/create.js).
use blockchain_tutorial.Prelude.{ℕ, zero, suc, ◌+◌, List, [], ◌∷◌, String}
use blockchain_tutorial.Js.{Exception, Outcome, ok, throw, pending, Exec, pure, ◌>>=◌}
use blockchain_tutorial.Crowdfunding.Page.{
  get_projects, get_summary, get_payment, Summary, PaymentInfo, Wallet, Action, ask,
}

-- `Promise.all` of a promise and those after it. Where several are rejected, the error is that of
-- the first in the list.
abbrev pub both :
    {A : Type 0} → Outcome Exception A → Outcome Exception (List A) → Outcome Exception (List A)
both (ok x) (ok xs) = ok (x ∷ xs)
both (ok x) (throw e) = throw e
both (ok x) pending = pending
both (throw e) _ = throw e
both pending (throw e) = throw e
both pending _ = pending

-- Both are started, the first one first, before either is awaited.
abbrev pub along :
    {C A : Type 0} → Exec C Exception A → Exec C Exception (List A) → Exec C Exception (List A)
along m rest t = (both (m t).0 (rest (m t).1).0, (rest (m t).1).1)

-- The properties of a page about one project.
pub record DetailProps : Type 0 where
  pub address : String
  pub description : String
  pub min_invest : ℕ
  pub max_invest : ℕ
  pub goal : ℕ
  pub balance : ℕ
  pub investor_count : ℕ
  pub payment_count : ℕ
  pub owner : String
  pub payments : List PaymentInfo

-- A project in the list of projects; its text is in the property `descrition`.
pub record Listed : Type 0 where
  pub address : String
  pub descrition : String
  pub min_invest : ℕ
  pub max_invest : ℕ
  pub goal : ℕ
  pub balance : ℕ
  pub investor_count : ℕ
  pub payment_count : ℕ
  pub owner : String

pub record CreateProps : Type 0 where
  pub address : String
  pub description : String
  pub payments_count : ℕ
  pub owner : String

abbrev pub listed : List String → List Summary → List Listed
listed [] ss = []
listed (a ∷ as') [] = []
listed (a ∷ as') (s ∷ ss) =
    record {
      address = a;
      descrition = s.description;
      min_invest = s.min_invest;
      max_invest = s.max_invest;
      goal = s.goal;
      balance = s.balance;
      investor_count = s.investor_count;
      payment_count = s.payment_count;
      owner = s.owner;
    }
    ∷ listed as' ss

module _ (w : Wallet) where
  -- The calls of `payments`, with `left` of them to come from `index` on.
  abbrev pub payments_from : (address : String) (index left : ℕ) → Action (List PaymentInfo)
  payments_from address index zero = pure []
  payments_from address index (suc left) =
      along (ask w (get_payment address index)) (payments_from address (index + 1) left)

  abbrev pub summaries : List String → Action (List Summary)
  summaries [] = pure []
  summaries (a ∷ as') = along (ask w (get_summary a)) (summaries as')

  -- `getInitialProps` of detail.js
  unfoldable pub detail_props : (address : String) → Action DetailProps
  detail_props address = do
    summary ← ask w (get_summary address)
    payments ← payments_from address 0 summary.payment_count
    pure (record {
      address = address;
      description = summary.description;
      min_invest = summary.min_invest;
      max_invest = summary.max_invest;
      goal = summary.goal;
      balance = summary.balance;
      investor_count = summary.investor_count;
      payment_count = summary.payment_count;
      owner = summary.owner;
      payments = payments;
    })

  -- `getInitialProps` of index.js
  unfoldable pub index_props : Action (List Listed)
  index_props = do
    address_list ← ask w get_projects
    summary_list ← summaries address_list
    pure (listed address_list summary_list)

  -- `getInitialProps` of payments/create.js
  unfoldable pub create_props : (address : String) → Action CreateProps
  create_props address = do
    summary ← ask w (get_summary address)
    pure (record {
      address = address;
      description = summary.description;
      payments_count = summary.payment_count;
      owner = summary.owner;
    })
