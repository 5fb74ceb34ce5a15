-- ===== src/Crowdfunding/Page/View.antt =====
-- 以太坊教程/众筹应用/src/pages: what the list of projects (index.js), the page of a project
-- (projects/detail.js) and the forms (projects/create.js, projects/payments/create.js) show,
-- without the layout.
use blockchain_tutorial.Prelude.{
  ℕ, ◌+◌, ◌*◌, Bool, false, not, ◌&&◌, Option, none, some, List, [], ◌∷◌, ◌++◌, String, str_eq, ltb,
  ◌==◌, if◌then◌else◌,
}
use blockchain_tutorial.Js.Int.{pos}
use blockchain_tutorial.Js.Number.{Text, codes, to_string, int}
use blockchain_tutorial.Crowdfunding.Page.{PaymentInfo}
use blockchain_tutorial.Crowdfunding.Page.Forms.{Units}
use blockchain_tutorial.Crowdfunding.Page.Loading.{DetailProps, Listed}

-- The state of the page of a project.
pub record DetailState : Type 0 where
  pub amount : Option Text
  pub errmsg : String
  pub loading : Bool
  pub is_voting : Option ℕ
  pub is_paying : Option ℕ

-- The states of the forms for a project and for a payment. A field that holds the number 0 is
-- `none`.
pub record ProjectForm : Type 0 where
  pub description : Text
  pub min_invest : Option Text
  pub max_invest : Option Text
  pub goal : Option Text
  pub errmsg : String
  pub loading : Bool

pub record PaymentForm : Type 0 where
  pub description : Text
  pub amount : Text
  pub receiver : Option Text
  pub errmsg : String
  pub loading : Bool

-- What a button does, and its label; `none` is the progress sign in its place.
pub data Click : Type 0 where
  contribute_project create_project create_payment : Click
  vote_for_payment do_payment : (index : ℕ) → Click
  -- the routes of a project and of its form for payments
  open_project open_create : (address : String) → Click

pub record Button : Type 0 where
  pub label : Option String
  pub click : Click

pub data Part : Type 0 where
  -- a property that the object lacks shows nothing
  headline : Option String → Part
  -- a bar at `balance / goal * 100`
  progress : (balance goal : ℕ) → Part
  info_block : (title : Text) (description : String) → Part
  text_field : (label : String) (value : Option Text) → Part
  button : Button → Part
  message : String → Part

pub record Row : Type 0 where
  pub description : String
  pub amount : Text
  pub receiver : String
  pub completed : String
  pub votes : Text
  pub vote_button : Option Button
  pub pay_button : Option Button

pub record Table : Type 0 where
  pub heads : List String
  pub rows : List Row
  pub create_button : Button

abbrev pub decimal : ℕ → Text
decimal n = to_string (int (pos n))

abbrev pub is_at : Option ℕ → ℕ → Bool
is_at none index = false
is_at (some i) index = i == index

abbrev pub labelled : (busy : Bool) → String → Click → Button
labelled busy label click = record { label = if busy then none else some label; click = click }

-- `!!errmsg && …`
abbrev pub error_part : (errmsg : String) → List Part
error_part errmsg = if str_eq errmsg "" then [] else message errmsg ∷ []

-- `render` of projects/create.js
unfoldable pub render_project_form : ProjectForm → List Part
render_project_form s =
    headline (some "创建")
    ∷ text_field "项目名称" (some s.description)
    ∷ text_field "最小投资金额" s.min_invest
    ∷ text_field "最大投资金额" s.max_invest
    ∷ text_field "募资上限" s.goal
    ∷ button (labelled s.loading "创建项目" create_project)
    ∷ error_part s.errmsg

-- `render` of projects/payments/create.js
unfoldable pub render_payment_form : PaymentForm → List Part
render_payment_form s =
    headline (some "创建资金支出请求")
    ∷ text_field "支出理由" (some s.description)
    ∷ text_field "支出金额" (some s.amount)
    ∷ text_field "收款方" s.receiver
    ∷ button (labelled s.loading "创建" create_payment)
    ∷ error_part s.errmsg

module _ (u : Units) where
  abbrev pub ether : ℕ → Text
  ether n = u.from_wei (decimal n) ++ codes " ETH"

  abbrev pub info_blocks : (goal min_invest max_invest investor_count balance : ℕ) → List Part
  info_blocks goal min_invest max_invest investor_count balance =
      info_block (ether goal) "募资上限"
      ∷ info_block (ether min_invest) "最小投资金额"
      ∷ info_block (ether max_invest) "最大投资金额"
      ∷ info_block (decimal investor_count ++ codes "人") "参投人数"
      ∷ info_block (ether balance) "已募资金额"
      ∷ []

  -- `renderBasicInfo` of detail.js, which reads the property `descrition`
  unfoldable pub render_basic_info : DetailProps → DetailState → List Part
  render_basic_info p s =
      headline none
      ∷ progress p.balance p.goal
      ∷ (info_blocks p.goal p.min_invest p.max_invest p.investor_count p.balance
          ++ (text_field "投资金额" s.amount
              ∷ button (labelled s.loading "立即投资" contribute_project)
              ∷ error_part s.errmsg))

  -- `renderPaymentRow`. As for `can_do_payment`, the quotient is above 0.5 where twice the votes
  -- are above the investors.
  abbrev pub render_payment_row :
      DetailState → (investor_count : ℕ) → PaymentInfo → (index : ℕ) → Row
  render_payment_row s investor_count y index =
      let can_vote = not y.completed in
      let can_do_payment = not y.completed && ltb investor_count (2 * y.voter_count) in
      record {
        description = y.description;
        amount = u.from_wei (decimal y.amount);
        receiver = y.receiver;
        completed = if y.completed then "是" else "否";
        votes = decimal y.voter_count ++ codes "/" ++ decimal investor_count;
        vote_button =
            if can_vote
            then some (labelled (is_at s.is_voting index) "投赞成票" (vote_for_payment index))
            else none;
        pay_button =
            if can_do_payment
            then some (labelled (is_at s.is_paying index) "资金划转" (do_payment index))
            else none;
      }

  abbrev pub rows_from : DetailState → (investor_count index : ℕ) → List PaymentInfo → List Row
  rows_from s investor_count index [] = []
  rows_from s investor_count index (y ∷ ys) =
      render_payment_row s investor_count y index ∷ rows_from s investor_count (index + 1) ys

  -- `renderPayments`
  unfoldable pub render_payments : DetailProps → DetailState → Table
  render_payments p s = record {
    heads = "用途" ∷ "金额" ∷ "收款方" ∷ "完成状态" ∷ "投票状态" ∷ "操作" ∷ [];
    rows = rows_from s p.investor_count 0 p.payments;
    create_button = labelled false "创建资金支出请求" (open_create p.address);
  }

  -- `renderProject` of index.js
  unfoldable pub render_project : Listed → List Part
  render_project p =
      headline (some p.descrition)
      ∷ progress p.balance p.goal
      ∷ (info_blocks p.goal p.min_invest p.max_invest p.investor_count p.balance
          ++ (button (labelled false "立即投资" (open_project p.address))
              ∷ button (labelled false "查看详情" (open_project p.address))
              ∷ []))
