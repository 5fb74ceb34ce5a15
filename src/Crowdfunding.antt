-- ===== src/Crowdfunding.antt =====
-- The crowdfunding application (以太坊教程/众筹应用/src): the contract Project of
-- contracts/Project.sol as a state machine, and the test of pages/projects/detail.js that shows
-- the button for a payment. A call that reverts changes nothing. Whether the receiver of a
-- transfer accepts it is a parameter.
pub mod Accounts
pub mod Votes
pub mod Buttons
pub mod Page
pub mod Scripts
mod Tests
use blockchain_tutorial.Prelude.{
  ℕ, ◌+◌, ◌-◌, ◌*◌, ◌/◌, ◌%◌, Bool, true, false, not, ◌&&◌, Option, none, some, List, [], ◌∷◌, ◌++◌,
  String, ltb, leb, ◌==◌, if◌then◌else◌, zero, suc, get_elem?, ◌≡◌,
}

-- The number of values of a `uint`.
abbrev pub word : ℕ
word = 115792089237316195423570985008687907853269984665640564039457584007913129639936

pub record Payment : Type 0 where
  pub description : String
  pub amount : ℕ
  pub receiver : ℕ
  pub completed : Bool
  pub voters : ℕ → Bool
  pub voter_count : ℕ

-- The contract's fields, and its balance. Addresses are numbers.
pub record Project : Type 0 where
  pub owner : ℕ
  pub description : String
  pub min_invest : ℕ
  pub max_invest : ℕ
  pub goal : ℕ
  pub investors : ℕ → ℕ
  pub investor_count : ℕ
  pub payments : List Payment
  pub balance : ℕ

-- An assignment to a mapping, and to a field of an array's item.
abbrev pub assign : {A : Type 0} → (ℕ → A) → ℕ → A → ℕ → A
assign f k v j = if j == k then v else f j

abbrev pub replace : List Payment → ℕ → Payment → List Payment
replace [] i x = []
replace (y ∷ ys) zero x = x ∷ ys
replace (y ∷ ys) (suc i) x = y ∷ replace ys i x

-- The constructor.
abbrev pub create : ℕ → String → ℕ → ℕ → ℕ → Project
create owner description min_invest max_invest goal = record {
  owner = owner;
  description = description;
  min_invest = min_invest;
  max_invest = max_invest;
  goal = goal;
  investors = λ a. 0;
  investor_count = 0;
  payments = [];
  balance = 0;
}

-- `createProject` of ProjectList; a project stands for its address
abbrev pub create_project : ℕ → String → ℕ → ℕ → ℕ → List Project → List Project
create_project sender description min_invest max_invest goal projects =
    projects ++ create sender description min_invest max_invest goal ∷ []

-- `contribute`; the value is in the balance before the body runs
unfoldable pub contribute : ℕ → ℕ → Project → Option Project
contribute sender value p =
    if ltb value p.min_invest
    then none
    else if ltb p.max_invest value
    then none
    else if ltb p.goal (p.balance + value)
    then none
    else some (record p {
      investor_count =
          if p.investors sender == 0 then (p.investor_count + 1) % word else p.investor_count;
      investors = assign p.investors sender ((p.investors sender + value) % word);
      balance = p.balance + value;
    })

-- `createPayment`
unfoldable pub create_payment : ℕ → String → ℕ → ℕ → Project → Option Project
create_payment sender description amount receiver p =
    if sender == p.owner
    then some (record p {
      payments =
          p.payments
          ++ record {
            description = description;
            amount = amount;
            receiver = receiver;
            completed = false;
            voters = λ a. false;
            voter_count = 0;
          }
            ∷ [];
    })
    else none

abbrev pub voted : ℕ → Payment → Payment
voted sender y = record y {
  voters = assign y.voters sender true;
  voter_count = (y.voter_count + 1) % word;
}

abbrev pub vote_on : ℕ → ℕ → Project → Option Payment → Option Project
vote_on sender index p none = none
vote_on sender index p (some y) =
    if p.investors sender == 0
    then none
    else if y.voters sender
    then none
    else some (record p { payments = replace p.payments index (voted sender y) })

-- `voteForPayment`
unfoldable pub vote_for_payment : ℕ → ℕ → Project → Option Project
vote_for_payment sender index p = vote_on sender index p (get_elem? p.payments index)

module _ (receives : ℕ → ℕ → Bool) where
  abbrev pub pay : ℕ → Project → Option Payment → Option Project
  pay index p none = none
  pay index p (some y) =
      if y.completed
      then none
      else if ltb p.balance y.amount
      then none
      else if leb y.voter_count (p.investor_count / 2)
      then none
      else if receives y.receiver y.amount
      then some (record p {
        balance = p.balance - y.amount;
        payments = replace p.payments index (record y { completed = true });
      })
      else none

  -- `doPayment`
  unfoldable pub do_payment : ℕ → ℕ → Project → Option Project
  do_payment sender index p =
      if sender == p.owner then pay index p (get_elem? p.payments index) else none

-- A call of the contract, with its sender.
pub data Message : Type 0 where
  contribution : ℕ → ℕ → Message
  new_payment : ℕ → String → ℕ → ℕ → Message
  vote : ℕ → ℕ → Message
  payment : ℕ → ℕ → Message

module _ (receives : ℕ → ℕ → Bool) where
  unfoldable pub execute : Message → Project → Option Project
  unfolding contribute create_payment vote_for_payment do_payment
  execute (contribution sender value) = contribute sender value
  execute (new_payment sender text amount receiver) = create_payment sender text amount receiver
  execute (vote sender index) = vote_for_payment sender index
  execute (payment sender index) = do_payment receives sender index

-- The value that a call brings.
abbrev pub value_of : Message → ℕ
value_of (contribution sender value) = value
value_of (new_payment sender text amount receiver) = 0
value_of (vote sender index) = 0
value_of (payment sender index) = 0

-- The states that a new contract can reach, with the sum of all accepted contributions.
pub data Reaches (receives : ℕ → ℕ → Bool) : Project → ℕ → Type 0 where
  created :
      (owner : ℕ) (text : String) (low high goal : ℕ)
      → Reaches receives (create owner text low high goal) 0
  executed :
      (m : Message) (p q : Project) (n : ℕ)
      → Reaches receives p n
      → execute receives m p ≡ some q
      → Reaches receives q (n + value_of m)

-- `!payment.completed && (payment.voterCount / project.investorCount > 0.5)`: for counts below
-- 2^53 the quotient of doubles is above 0.5 exactly where twice the votes are above the investors;
-- with no investor it is infinite or NaN, and that holds too.
unfoldable pub can_do_payment : Payment → Project → Bool
can_do_payment y p = not y.completed && ltb p.investor_count (2 * y.voter_count)
