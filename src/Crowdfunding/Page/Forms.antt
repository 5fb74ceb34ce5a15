-- ===== src/Crowdfunding/Page/Forms.antt =====
-- 以太坊教程/众筹应用/src/pages/projects: the forms that contribute to a project (detail.js), create
-- one (create.js) and create a payment (payments/create.js). An input is a text, or the number 0
-- that it has before anything is entered, which is `none`.
use blockchain_tutorial.Prelude.{
  Bool, true, false, not, Option, none, some, List, [], ◌∷◌, String, if◌then◌else◌,
}
use blockchain_tutorial.Js.{Exception, Outcome, lift, catch, ◌>>=◌, ◌>>◌}
use blockchain_tutorial.Js.Number.{Text, codes, parse_int}
use blockchain_tutorial.Js.Decimal.{is_at_most_zero, is_less}
use blockchain_tutorial.Crowdfunding.Page.{
  get_accounts, send_contribution, send_new_project, send_new_payment, alert, reload, set_loading,
  set_error, reset_amount, open_project, Wallet, Action, ask, show, first, message_of, finally,
  is_owner,
}

-- `web3.utils`
pub record Units : Type 0 where
  pub to_wei : Text → Outcome Exception Text
  pub from_wei : Text → Text
  pub is_address : Option Text → Bool

-- The project that a page is about: the least and greatest contribution in wei, and the owner.
pub record ProjectProps : Type 0 where
  pub min_invest : Text
  pub max_invest : Text
  pub owner : String

-- `input <= 0`
abbrev pub at_most_zero : Option Text → Bool
at_most_zero none = true
at_most_zero (some s) = is_at_most_zero s

-- The text of an input that is above 0.
abbrev pub text_of : Option Text → Text
text_of none = codes "0"
text_of (some s) = s

abbrev is_empty : Text → Bool
is_empty [] = true
is_empty (c ∷ s) = false

-- Tests that stop with a message, one after the other, before the rest.
abbrev pub guarded : List (Bool × String) → Action Unit → Action Unit
guarded [] rest = rest
guarded ((test, message) ∷ tests) rest =
    if test then show (set_error message) else guarded tests rest

-- `try { body } catch (err) { show it } finally { take the progress sign away }`
abbrev pub tried : Action Unit → Action Unit
tried body = finally (catch body (λ e. show (set_error (message_of e)))) (show (set_loading false))

module _ (w : Wallet) (u : Units) where
  abbrev pub contribute : Text → Action Unit
  contribute amount = do
    show (set_loading true)
    accounts ← ask w get_accounts
    value ← lift (u.to_wei amount)
    ask w (send_contribution value (first accounts))
    show (set_error "投资成功!")
    show reset_amount
    show reload

  abbrev pub contribution_tests : ProjectProps → Option Text → List (Bool × String)
  contribution_tests p input =
      let amount = text_of input in
      (at_most_zero input, "项目最小投资金额必须大于0")
      ∷ (is_less (parse_int amount) (parse_int (u.from_wei p.min_invest)), "投资金额必须大于最小投资金额")
      ∷ (is_less (parse_int (u.from_wei p.max_invest)) (parse_int amount), "投资金额必须小于最大投资金额")
      ∷ []

  -- `contributeProject`
  unfoldable pub contribute_project : ProjectProps → Option Text → Action Unit
  contribute_project p input =
      guarded (contribution_tests p input) (tried (contribute (text_of input)))

  abbrev pub create : (description min_in_wei max_in_wei goal_in_wei : Text) → Action Unit
  create description min_in_wei max_in_wei goal_in_wei = do
    show (set_loading true)
    accounts ← ask w get_accounts
    ask w (send_new_project description min_in_wei max_in_wei goal_in_wei (first accounts))
    show (set_error "项目创建成功!")

  abbrev pub project_tests :
      (description : Text) (min_invest max_invest goal : Option Text) → List (Bool × String)
  project_tests description min_invest max_invest goal =
      (is_empty description, "项目名称不能为空!")
      ∷ (at_most_zero min_invest, "项目最小投资金额必须大于0")
      ∷ (at_most_zero max_invest, "项目最大投资金额必须大于0")
      ∷ (
        is_less (parse_int (text_of max_invest)) (parse_int (text_of min_invest)),
        "项目最小投资金额必须小于最大投资金额",
      )
      ∷ (at_most_zero goal, "项目募资上限必须大于0")
      ∷ []

  -- The amounts are converted before the `try`.
  abbrev pub convert_and_create :
      (description : Text) (min_invest max_invest goal : Text) → Action Unit
  convert_and_create description min_invest max_invest goal = do
    min_in_wei ← lift (u.to_wei min_invest)
    max_in_wei ← lift (u.to_wei max_invest)
    goal_in_wei ← lift (u.to_wei goal)
    tried (create description min_in_wei max_in_wei goal_in_wei)

  -- `createProject`
  unfoldable pub create_project :
      (description : Text) (min_invest max_invest goal : Option Text) → Action Unit
  create_project description min_invest max_invest goal =
      guarded (project_tests description min_invest max_invest goal)
        (convert_and_create description (text_of min_invest) (text_of max_invest) (text_of goal))

  abbrev pub request : (owner : String) (description amount_in_wei receiver : Text) → Action Unit
  request owner description amount_in_wei receiver = do
    show (set_loading true)
    accounts ← ask w get_accounts
    if not (is_owner (first accounts) owner) then show (alert "只有项目方才能创建资金支出请求") else do
      ask w (send_new_payment description amount_in_wei receiver (first accounts))
      show (set_error "资金支出请求创建成功")
      show open_project

  abbrev pub payment_tests :
      (description amount : Text) (receiver : Option Text) → List (Bool × String)
  payment_tests description amount receiver =
      (is_empty description, "支出理由不能为空")
      ∷ (is_at_most_zero amount, "支出金额应大于0")
      ∷ (not (u.is_address receiver), "收款人地址不合法")
      ∷ []

  abbrev pub convert_and_request :
      (owner : String) (description amount receiver : Text) → Action Unit
  convert_and_request owner description amount receiver = do
    amount_in_wei ← lift (u.to_wei amount)
    tried (request owner description amount_in_wei receiver)

  -- `createPayment`
  unfoldable pub create_payment_submitted :
      (owner : String) (description amount : Text) (receiver : Option Text) → Action Unit
  create_payment_submitted owner description amount receiver =
      guarded (payment_tests description amount receiver)
        (convert_and_request owner description amount (text_of receiver))
