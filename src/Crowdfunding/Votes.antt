-- ===== src/Crowdfunding/Votes.antt =====
-- Who has voted, and how the votes and the investors are counted.
use blockchain_tutorial.Prelude.{
  ℕ, zero, suc, ◌+◌, ◌%◌, ◌≡◌, ◌↔◌, ◌⊎◌, ◌≤◌, refl, sym, ◌∙◌, Bool, true, false, Option, none, some,
  List, [], ◌∷◌, ◌++◌, String, arith, get_elem?, length, ◌==◌, Bool-cases, inl, inr,
}
use mathlib.Core.Bool.{false≢true}
use mathlib.Core.Path.{subst}
use blockchain_tutorial.Crowdfunding.{
  word, Payment, Project, assign, replace, contribute, create_payment, vote_on, voted,
  vote_for_payment, pay, do_payment, Message, contribution, new_payment, vote, payment, execute,
  Reaches, created, executed,
}

abbrev pub Occurs : ℕ → List ℕ → Type 0
Occurs a [] = ⊥
Occurs a (x ∷ xs) = (a ≡ x) ⊎ Occurs a xs

abbrev pub Distinct : List ℕ → Type 0
Distinct [] = Unit
Distinct (x ∷ xs) = (Occurs x xs → ⊥) × Distinct xs

-- The voters of a payment are listed once each, and the count is of them.
pub record IsCounted (y : Payment) : Type 0 where
  pub who : List ℕ
  pub distinct : Distinct who
  pub listed : (a : ℕ) → (y.voters a ≡ true) ↔ Occurs a who
  pub counted : y.voter_count ≡ length who % word

abbrev AllCounted : Project → Type 0
AllCounted p = (i : ℕ) (y : Payment) → get_elem? p.payments i ≡ some y → IsCounted y

get_elem?-replace :
    (ys : List Payment) (i : ℕ) (x : Payment) (j : ℕ) (z : Payment)
    → get_elem? (replace ys i x) j ≡ some z
    → (x ≡ z) ⊎ (get_elem? ys j ≡ some z)
get_elem?-replace [] i x j z h = cc
get_elem?-replace (y ∷ ys) zero x zero z h = inl cc
get_elem?-replace (y ∷ ys) zero x (suc j) z h = inr h
get_elem?-replace (y ∷ ys) (suc i) x zero z h = inr h
get_elem?-replace (y ∷ ys) (suc i) x (suc j) z h = get_elem?-replace ys i x j z h

get_elem?-append :
    (ys : List Payment) (x : Payment) (j : ℕ) (z : Payment)
    → get_elem? (ys ++ x ∷ []) j ≡ some z
    → (x ≡ z) ⊎ (get_elem? ys j ≡ some z)
get_elem?-append [] x zero z h = inl cc
get_elem?-append [] x (suc j) z h = cc
get_elem?-append (y ∷ ys) x zero z h = inr h
get_elem?-append (y ∷ ys) x (suc j) z h = get_elem?-append ys x j z h

voted-IsCounted :
    (sender : ℕ) (y : Payment) → y.voters sender ≡ false → IsCounted y → IsCounted (voted sender y)
voted-IsCounted sender y new c = record {
  who = sender ∷ c.who;
  distinct = (λ m. false≢true (sym new ∙ (c.listed sender).1 m), c.distinct);
  listed = λ a. ground (arith, c.listed a);
  counted = omega (arith, c.counted);
}

none-some : (q : Project) → ◌≡◌ {A = Option Project} none (some q) → ⊥
none-some q h = cc

-- Replacing or adding an item that is counted keeps the others.
AllCounted-replace :
    (p q : Project) (i : ℕ) (x : Payment)
    → q.payments ≡ replace p.payments i x
    → IsCounted x
    → AllCounted p
    → AllCounted q
AllCounted-replace p q i x e c h j z g = elim (get_elem?-replace p.payments i x j z (rw e at g)) [
  | inl same ↦ subst IsCounted same c
  | inr old ↦ h j z old
]

AllCounted-append :
    (p q : Project) (x : Payment)
    → q.payments ≡ p.payments ++ x ∷ []
    → IsCounted x
    → AllCounted p
    → AllCounted q
AllCounted-append p q x e c h j z g = elim (get_elem?-append p.payments x j z (rw e at g)) [
  | inl same ↦ subst IsCounted same c
  | inr old ↦ h j z old
]

contribute-AllCounted :
    (sender value : ℕ) (p q : Project)
    → contribute sender value p ≡ some q
    → AllCounted p
    → AllCounted q
unfolding contribute
contribute-AllCounted sender value p q e h j z g =
    let same : q.payments ≡ p.payments = ground arith in h j z (rw same at g)

abbrev opened : String → ℕ → ℕ → Payment
opened text amount receiver = record {
  description = text;
  amount = amount;
  receiver = receiver;
  completed = false;
  voters = λ a. false;
  voter_count = 0;
}

opened-IsCounted : (text : String) (amount receiver : ℕ) → IsCounted (opened text amount receiver)
opened-IsCounted text amount receiver = record {
  who = [];
  distinct = tt;
  listed = λ a. (λ e. false≢true e, λ m. absurd m);
  counted = omega arith;
}

create_payment-AllCounted :
    (sender : ℕ) (text : String) (amount receiver : ℕ) (p q : Project)
    → create_payment sender text amount receiver p ≡ some q
    → AllCounted p
    → AllCounted q
unfolding create_payment
create_payment-AllCounted sender text amount receiver p q e =
    let added : q.payments ≡ p.payments ++ opened text amount receiver ∷ [] = ground arith in
    AllCounted-append p q (opened text amount receiver) added
      (opened-IsCounted text amount receiver)

vote_on-AllCounted :
    (sender index : ℕ) (p q : Project) (o : Option Payment)
    → get_elem? p.payments index ≡ o
    → vote_on sender index p o ≡ some q
    → AllCounted p
    → AllCounted q
vote_on-AllCounted sender index p q none g e h = cc
vote_on-AllCounted sender index p q (some y) g e h =
    let replaced : q.payments ≡ replace p.payments index (voted sender y) = ground arith in
    let new : y.voters sender ≡ false = ground arith in
    AllCounted-replace p q index (voted sender y) replaced
      (voted-IsCounted sender y new (h index y g)) h

pay-AllCounted :
    (receives : ℕ → ℕ → Bool) (index : ℕ) (p q : Project) (o : Option Payment)
    → get_elem? p.payments index ≡ o
    → pay receives index p o ≡ some q
    → AllCounted p
    → AllCounted q
pay-AllCounted receives index p q none g e h = cc
pay-AllCounted receives index p q (some y) g e h =
    let replaced : q.payments ≡ replace p.payments index (record y { completed = true }) =
      ground arith in
    let c = h index y g in
    AllCounted-replace p q index (record y { completed = true }) replaced
      (record { who = c.who; distinct = c.distinct; listed = c.listed; counted = c.counted }) h

execute-AllCounted :
    (receives : ℕ → ℕ → Bool) (m : Message) (p q : Project)
    → execute receives m p ≡ some q
    → AllCounted p
    → AllCounted q
unfolding execute vote_for_payment do_payment
execute-AllCounted receives (contribution sender value) p q e =
    contribute-AllCounted sender value p q e
execute-AllCounted receives (new_payment sender text amount receiver) p q e =
    create_payment-AllCounted sender text amount receiver p q e
execute-AllCounted receives (vote sender index) p q e =
    vote_on-AllCounted sender index p q (get_elem? p.payments index) refl e
execute-AllCounted receives (payment sender index) p q e = elim (Bool-cases (sender == p.owner)) [
  | inl own ↦ pay-AllCounted receives index p q (get_elem? p.payments index) refl (rw own at e)
  | inr other ↦ let e' = rw other at e in λ h. absurd (none-some q e')
]

-- In every state that a new project can reach, each payment has a list of distinct addresses,
-- those that voted for it, and its count of votes is the length of that list modulo 2^256.
pub votes-IsCounted :
    (receives : ℕ → ℕ → Bool) (p : Project) (raised : ℕ)
    → Reaches receives p raised
    → (i : ℕ) (y : Payment) → get_elem? p.payments i ≡ some y
    → IsCounted y
votes-IsCounted receives p raised (created owner text low high goal) i y g = cc
votes-IsCounted receives p raised (executed m before after n r e) i y g =
    execute-AllCounted receives m before after e (votes-IsCounted receives before n r) i y g

-- With no minimum, an address with nothing invested is counted as one more investor each time it
-- contributes nothing, and still has nothing invested.
pub empty_contribution_counts :
    (sender : ℕ) (p : Project)
    → p.min_invest ≡ 0
    → p.balance ≤ p.goal
    → p.investors sender ≡ 0
    → (q : Project) × (contribute sender 0 p ≡ some q)
      × (q.investor_count ≡ (p.investor_count + 1) % word)
      × (q.investors sender ≡ 0)
unfolding contribute
empty_contribution_counts sender p low bound none_yet = (
  record p {
    investor_count = (p.investor_count + 1) % word;
    investors = assign p.investors sender ((p.investors sender + 0) % word);
    balance = p.balance + 0;
  },
  ground arith,
  refl,
  ground arith,
)
