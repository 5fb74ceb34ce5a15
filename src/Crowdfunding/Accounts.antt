-- ===== src/Crowdfunding/Accounts.antt =====
-- Where the money of a project is.
use blockchain_tutorial.Prelude.{
  ℕ, zero, suc, ◌+◌, ◌≡◌, ◌≤◌, refl, Bool, true, false, Option, none, some, List, [], ◌∷◌, ◌++◌,
  String, arith, get_elem?, if◌then◌else◌, ◌==◌, Bool-cases, inl, inr,
}
use blockchain_tutorial.Crowdfunding.{
  Payment, Project, replace, contribute, create_payment, vote_on, voted, vote_for_payment, pay,
  do_payment, Message, contribution, new_payment, vote, payment, execute, value_of, Reaches,
  created, executed,
}

-- What a payment has taken from the contract.
abbrev pub taken : Payment → ℕ
taken y = if y.completed then y.amount else 0

abbrev pub paid : List Payment → ℕ
paid [] = 0
paid (y ∷ ys) = taken y + paid ys

paid-append : (ys : List Payment) (y : Payment) → paid (ys ++ y ∷ []) ≡ paid ys + taken y
paid-append [] y = omega arith
paid-append (x ∷ ys) y = omega (arith, paid-append ys y)

paid-replace :
    (ys : List Payment) (i : ℕ) (x y : Payment)
    → get_elem? ys i ≡ some y
    → paid (replace ys i x) + taken y ≡ paid ys + taken x
paid-replace [] i x y h = cc
paid-replace (z ∷ ys) zero x y h = let same : z ≡ y = cc in rw same (omega arith)
paid-replace (z ∷ ys) (suc i) x y h = omega (arith, paid-replace ys i x y h)

-- What a call does to the accounts.
abbrev IsBalanced : ℕ → Project → Project → Type 0
IsBalanced value p q =
    (q.balance + paid q.payments ≡ p.balance + paid p.payments + value)
    × (p.balance ≤ p.goal → q.balance ≤ q.goal)

contribute-IsBalanced :
    (sender value : ℕ) (p q : Project) → contribute sender value p ≡ some q → IsBalanced value p q
unfolding contribute
contribute-IsBalanced sender value p q h = ground arith

create_payment-IsBalanced :
    (sender : ℕ) (text : String) (amount receiver : ℕ) (p q : Project)
    → create_payment sender text amount receiver p ≡ some q
    → IsBalanced 0 p q
unfolding create_payment
create_payment-IsBalanced sender text amount receiver p q h = ground (
  arith,
  paid-append p.payments (record {
    description = text;
    amount = amount;
    receiver = receiver;
    completed = false;
    voters = λ a. false;
    voter_count = 0;
  }),
)

vote_on-IsBalanced :
    (sender index : ℕ) (p q : Project) (o : Option Payment)
    → get_elem? p.payments index ≡ o
    → vote_on sender index p o ≡ some q
    → IsBalanced 0 p q
vote_on-IsBalanced sender index p q none e h = cc
vote_on-IsBalanced sender index p q (some y) e h =
    ground (arith, paid-replace p.payments index (voted sender y) y)

pay-IsBalanced :
    (receives : ℕ → ℕ → Bool) (index : ℕ) (p q : Project) (o : Option Payment)
    → get_elem? p.payments index ≡ o
    → pay receives index p o ≡ some q
    → IsBalanced 0 p q
pay-IsBalanced receives index p q none e h = cc
pay-IsBalanced receives index p q (some y) e h =
    ground (arith, paid-replace p.payments index (record y { completed = true }) y)

do_payment-IsBalanced :
    (receives : ℕ → ℕ → Bool) (sender index : ℕ) (p q : Project)
    → do_payment receives sender index p ≡ some q
    → IsBalanced 0 p q
unfolding do_payment
do_payment-IsBalanced receives sender index p q h = elim (Bool-cases (sender == p.owner)) [
  | inl own ↦ pay-IsBalanced receives index p q (get_elem? p.payments index) refl (rw own at h)
  | inr other ↦ let h' = rw other at h in cc
]

execute-IsBalanced :
    (receives : ℕ → ℕ → Bool) (m : Message) (p q : Project)
    → execute receives m p ≡ some q
    → IsBalanced (value_of m) p q
unfolding execute
execute-IsBalanced receives (contribution sender value) p q h =
    contribute-IsBalanced sender value p q h
execute-IsBalanced receives (new_payment sender text amount receiver) p q h =
    create_payment-IsBalanced sender text amount receiver p q h
execute-IsBalanced receives (vote sender index) p q h =
    unfold vote_for_payment in
    vote_on-IsBalanced sender index p q (get_elem? p.payments index) refl h
execute-IsBalanced receives (payment sender index) p q h =
    do_payment-IsBalanced receives sender index p q h

-- In every state that a new project can reach, the balance and the amounts of the completed
-- payments make up the sum of all accepted contributions; and the balance is not above the goal.
pub accounts_balance :
    (receives : ℕ → ℕ → Bool) (p : Project) (raised : ℕ)
    → Reaches receives p raised
    → (p.balance + paid p.payments ≡ raised) × (p.balance ≤ p.goal)
accounts_balance receives p raised (created owner text low high goal) = (omega arith, omega arith)
accounts_balance receives p raised (executed m before after n r e) =
    let (sum, bound) = accounts_balance receives before n r in
    let (moved, kept) = execute-IsBalanced receives m before after e in
    (omega (arith, sum, moved), kept bound)
