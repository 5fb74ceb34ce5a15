-- ===== src/Voting/Reached.antt =====
-- Tokens and votes in every state that the contract Voting can reach.
use blockchain_tutorial.Prelude.{
  enlist, Distinct-enlist, member-enlist, ℕ, ◌+◌, ◌≡◌, ◌≢◌, ◌≤◌, ◌<◌, refl, ap, ◌∙◌, Bool, Option,
  none, some, List, arith, ◌==◌, Bool-cases, inl, inr,
}
use blockchain_tutorial.Crowdfunding.{word}
use blockchain_tutorial.Voting.{
  Voting, index_of_candidate, cast_at, vote_for_candidate, transfer, buying, voting, transferring,
  execute, Reaches, deployed, executed,
}
use blockchain_tutorial.Voting.Sums.{total, sum, nth, total_changes, total_part, total_mono, nth_le}
use blockchain_tutorial.Voting.Tokens.{bought, put_on, spent, IsSound, buy-IsSound}
use blockchain_tutorial.Voting.Cast.{index_from_unique, Voted, cast_votes-Voted}

total-bought :
    (a : ℕ) (s t : Voting) (who : List ℕ)
    → ((b : ℕ) → bought t b ≡ bought s b)
    → IsSound s who
    → total (bought t) (enlist a who) ≡ total (bought s) who
total-bought a s t who same r = omega (
  arith,
  total_changes (bought s) (bought t) a who (λ b o. same b) r.distinct (λ m. (r.outside a m).0),
  same a,
)

module _ (a c n index : ℕ) (s t : Voting) (who : List ℕ) (r : IsSound s who)
    (v : Voted a c n index s t) (indexed : index_of_candidate c s ≡ some index) where
  put_total :
      (i : ℕ)
      → total (put_on t i) (enlist a who) + put_on s i a ≡ total (put_on s i) who + put_on t i a
  put_total i =
      total_changes (put_on s i) (put_on t i) a who
        (λ b o. ap (λ w. nth w.tokens_vote_for_candidates i) (v.others b o)) r.distinct
        (λ m.
          omega (arith, nth_le (s.voter_info a).tokens_vote_for_candidates i, (r.outside a m).1))

  spent_within : (b : ℕ) → spent t b ≤ bought t b
  spent_within b = elim (Bool-cases (b == a)) [
    | inl own ↦
        let e : b ≡ a = ground arith in
        omega (arith, ap (spent t) e, ap (bought s) e, v.bought_same b, v.spent_more, v.covered)
    | inr other ↦ omega (
      arith,
      ap (λ w. sum w.tokens_vote_for_candidates) (v.others b (λ e. ground arith)),
      v.bought_same b,
      r.within b,
    )
  ]

  -- The votes for a candidate are within what was sold.
  votes_bounded : (i : ℕ) → total (put_on t i) (enlist a who) ≤ s.total_tokens
  votes_bounded i = omega (
    arith,
    total_mono (put_on t i) (bought t) (enlist a who)
        (λ b. omega (arith, nth_le (t.voter_info b).tokens_vote_for_candidates i, spent_within b)),
    total-bought a s t who v.bought_same r,
    r.sold,
  )

  own_votes_counted : t.votes_received c ≡ total (put_on t index) (enlist a who)
  own_votes_counted = omega (
    arith,
    v.votes,
    v.put_more,
    put_total index,
    votes_bounded index,
    r.counted c index indexed,
    r.small,
  )

  votes_counted :
      (d i : ℕ)
      → index_of_candidate d s ≡ some i
      → t.votes_received d ≡ total (put_on t i) (enlist a who)
  votes_counted d i e = elim (Bool-cases (d == c)) [
    | inl own ↦
        let same : d ≡ c = ground arith in
        let at = rw same at e in
        let same_index : i ≡ index = cc in rw (same, same_index) own_votes_counted
    | inr other ↦
        let distinct_index : index ≢ i =
          λ same. ground (arith, index_from_unique 0 d c i s.candidate_list) in
        omega (
          arith,
          v.votes_same d (λ same. ground arith),
          v.put_same i distinct_index,
          put_total i,
          r.counted d i e,
        )
  ]

  Voted-IsSound : IsSound t (enlist a who)
  Voted-IsSound = record {
    distinct = Distinct-enlist a who r.distinct;
    outside = λ b m.
        let (other, out) = member-enlist a b who m in
        (
          v.bought_same b ∙ (r.outside b out).0,
          ap (λ w. sum w.tokens_vote_for_candidates) (v.others b other) ∙ (r.outside b out).1,
        );
    small = omega (arith, v.rest.1, r.small);
    sold = omega (arith, v.rest.0, v.rest.1, total-bought a s t who v.bought_same r, r.sold);
    within = spent_within;
    counted = λ d i e. votes_counted d i (rw (v.rest.2) at e);
  }

cast_at-IsSound :
    (a c n : ℕ) (s t : Voting) (who : List ℕ) (o : Option ℕ)
    → index_of_candidate c s ≡ o
    → cast_at a c n s o ≡ some t
    → IsSound s who
    → IsSound t (enlist a who)
cast_at-IsSound a c n s t who none e h r = cc
cast_at-IsSound a c n s t who (some index) e h r =
    let below : bought s a < word =
      omega (arith, total_part (bought s) a who (λ m. (r.outside a m).0), r.sold, r.small) in
    Voted-IsSound a c n index s t who r (cast_votes-Voted a c n index s t (r.within a) below h) e

transfer-IsSound :
    (receives : ℕ → ℕ → Bool) (a to : ℕ) (s t : Voting) (who : List ℕ)
    → transfer receives a to s ≡ some t
    → IsSound s who
    → IsSound t who
unfolding transfer
transfer-IsSound receives a to s t who h r = ground arith

-- In every state that a new contract with a total supply below 2^256 can reach, with the distinct
-- addresses that have bought or voted: the tokens left and the tokens of these addresses make up
-- the supply, no voter has put more tokens on candidates than it has bought, and the votes
-- received by a candidate are the sum of what these addresses put on it.
pub votes-IsSound :
    (receives : ℕ → ℕ → Bool) (s : Voting) (who : List ℕ) → Reaches receives s who → IsSound s who
unfolding execute
votes-IsSound receives s who (deployed supply price names small) = record {
  distinct = tt;
  outside = λ a m. (refl, refl);
  small = small;
  sold = omega arith;
  within = λ a. omega arith;
  counted = λ c i e. refl;
}
votes-IsSound receives _ _ (executed (buying a v) s t who r h) =
    buy-IsSound a v s t who h (votes-IsSound receives s who r)
votes-IsSound receives _ _ (executed (voting a c n) s t who r h) =
    unfold vote_for_candidate in
    cast_at-IsSound a c n s t who (index_of_candidate c s) refl h (votes-IsSound receives s who r)
votes-IsSound receives _ _ (executed (transferring a to) s t who r h) =
    transfer-IsSound receives a to s t who h (votes-IsSound receives s who r)
