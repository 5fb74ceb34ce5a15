-- ===== src/Voting/Cast.antt =====
-- What a vote changes.
use blockchain_tutorial.Prelude.{
  ℕ, ◌+◌, ◌%◌, ◌≡◌, ◌≢◌, ◌≤◌, ◌<◌, refl, ap, ◌∙◌, some, List, [], ◌∷◌, arith, ◌==◌, length,
  Bool-cases, inl, inr,
}
use blockchain_tutorial.Crowdfunding.{word}
use blockchain_tutorial.Voting.{Voting, index_from, padded, add_at, total_used_tokens, cast_votes}
use blockchain_tutorial.Voting.Sums.{
  sum, nth, total_used_tokens-sum, sum-zeros, nth-zeros, sum-add_at, nth-add_at_same,
  nth-add_at_other,
}
use blockchain_tutorial.Voting.Tokens.{bought, put_on, spent}

index_from_ge : (k c i : ℕ) (cs : List ℕ) → index_from k c cs ≡ some i → k ≤ i
index_from_ge k c i [] h = cc
index_from_ge k c i (x ∷ cs) h = elim (Bool-cases (c == x)) [
  | inl here ↦ ground arith
  | inr later ↦ omega (arith, index_from_ge (k + 1) c i cs (rw later at h))
]

-- Two candidates do not share an index.
pub index_from_unique :
    (k c d i : ℕ) (cs : List ℕ) → index_from k c cs ≡ some i → index_from k d cs ≡ some i → c ≡ d
index_from_unique k c d i [] h g = cc
index_from_unique k c d i (x ∷ cs) h g = elim (Bool-cases (c == x)) [
  | inl here ↦ elim (Bool-cases (d == x)) [
    | inl there ↦ ground arith
    | inr later ↦ let bound = index_from_ge (k + 1) d i cs (rw later at g) in ground arith
  ]
  | inr after ↦ elim (Bool-cases (d == x)) [
    | inl there ↦ let bound = index_from_ge (k + 1) c i cs (rw after at h) in ground arith
    | inr later ↦ index_from_unique (k + 1) c d i cs (rw after at h) (rw later at g)
  ]
]

sum-padded : (s : Voting) (ns : List ℕ) → sum (padded s ns) ≡ sum ns
sum-padded s [] = sum-zeros s.candidate_list
sum-padded s (n ∷ ns) = refl

nth-padded : (s : Voting) (ns : List ℕ) (i : ℕ) → nth (padded s ns) i ≡ nth ns i
nth-padded s [] i = nth-zeros s.candidate_list i
nth-padded s (n ∷ ns) i = refl

-- What an accepted vote was, and has changed.
pub record Voted (a c n index : ℕ) (s t : Voting) : Type 0 where
  pub covered : spent s a + n ≤ bought s a
  pub spent_more : spent t a ≡ spent s a + n
  pub put_more : put_on t index a ≡ put_on s index a + n
  pub put_same : (i : ℕ) → index ≢ i → put_on t i a ≡ put_on s i a
  pub others : (b : ℕ) → b ≢ a → t.voter_info b ≡ s.voter_info b
  pub bought_same : (b : ℕ) → bought t b ≡ bought s b
  pub votes : t.votes_received c ≡ (s.votes_received c + n) % word
  pub votes_same : (d : ℕ) → d ≢ c → t.votes_received d ≡ s.votes_received d
  pub rest :
      (t.token_balance ≡ s.token_balance)
      × (t.total_tokens ≡ s.total_tokens)
      × (t.candidate_list ≡ s.candidate_list)

pub cast_votes-Voted :
    (a c n index : ℕ) (s t : Voting)
    → spent s a ≤ bought s a
    → bought s a < word
    → cast_votes a c n index s ≡ some t
    → Voted a c n index s t
cast_votes-Voted a c n index s t within small h =
    let ns = (s.voter_info a).tokens_vote_for_candidates in
    let used : total_used_tokens (padded s ns) ≡ spent s a = omega (
      arith,
      total_used_tokens-sum (padded s ns) (omega (arith, sum-padded s ns)),
      sum-padded s ns,
    ) in
    let room : index < length (padded s ns) = ground arith in
    let covers : spent s a + n ≤ bought s a = ground (arith, used) in
    let now : (t.voter_info a).tokens_vote_for_candidates ≡ add_at (padded s ns) index n =
      ground arith in
    record {
      covered = covers;
      spent_more = omega (
        arith,
        ap sum now,
        sum-add_at (padded s ns) index n room (omega (arith, sum-padded s ns)),
        sum-padded s ns,
      );
      put_more = omega (
        arith,
        ap (λ ms. nth ms index) now,
        nth-add_at_same (padded s ns) index n room (omega (arith, sum-padded s ns)),
        nth-padded s ns index,
      );
      put_same = λ i o.
          ap (λ ms. nth ms i) now ∙ nth-add_at_other (padded s ns) index i n o ∙ nth-padded s ns i;
      others = λ b o. ground arith;
      bought_same = λ b. ground arith;
      votes = ground arith;
      votes_same = λ d o. ground arith;
      rest = ground arith;
    }
