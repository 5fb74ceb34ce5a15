-- ===== src/Voting/Tokens.antt =====
-- Tokens and votes of the contract Voting add up.
use blockchain_tutorial.Prelude.{
  member, enlist, Distinct, Distinct-enlist, member-enlist, ℕ, ◌+◌, ◌/◌, ◌%◌, ◌≡◌, ◌≢◌, ◌≤◌, ◌<◌,
  ap, ◌∙◌, false, some, List, arith, ◌==◌, Bool-cases, inl, inr,
}
use blockchain_tutorial.Crowdfunding.{word}
use blockchain_tutorial.Voting.{Voting, buy, index_of_candidate}
use blockchain_tutorial.Voting.Sums.{total, sum, nth, total_changes, total_part, nth_le}

abbrev pub bought : Voting → ℕ → ℕ
bought s a = (s.voter_info a).token_num

-- What a voter has put on the candidate at an index.
abbrev pub put_on : Voting → ℕ → ℕ → ℕ
put_on s i a = nth (s.voter_info a).tokens_vote_for_candidates i

abbrev pub spent : Voting → ℕ → ℕ
spent s a = sum (s.voter_info a).tokens_vote_for_candidates

pub record IsSound (s : Voting) (who : List ℕ) : Type 0 where
  pub distinct : Distinct who
  pub outside : (a : ℕ) → member a who ≡ false → (bought s a ≡ 0) × (spent s a ≡ 0)
  pub small : s.total_tokens < word
  pub sold : s.token_balance + total (bought s) who ≡ s.total_tokens
  pub within : (a : ℕ) → spent s a ≤ bought s a
  pub counted :
      (c i : ℕ) → index_of_candidate c s ≡ some i → s.votes_received c ≡ total (put_on s i) who

pub buy-IsSound :
    (a v : ℕ) (s t : Voting) (who : List ℕ)
    → buy a v s ≡ some t
    → IsSound s who
    → IsSound t (enlist a who)
unfolding buy
buy-IsSound a v s t who h r =
    let k = v / s.token_price in
    let own : bought t a ≡ (bought s a + k) % word = ground arith in
    let others : (b : ℕ) → b ≢ a → bought t b ≡ bought s b = λ b o. ground arith in
    let same : (b : ℕ)
        → (t.voter_info b).tokens_vote_for_candidates
          ≡ (s.voter_info b).tokens_vote_for_candidates =
      λ b. ground arith in
    let left : t.token_balance + k ≡ s.token_balance = ground arith in
    let part = total_part (bought s) a who (λ m. (r.outside a m).0) in
    let fits : bought t a ≡ bought s a + k = omega (arith, own, left, part, r.sold, r.small) in
    let changed =
      total_changes (bought s) (bought t) a who others r.distinct (λ m. (r.outside a m).0) in
    record {
      distinct = Distinct-enlist a who r.distinct;
      outside = λ b m.
          let (other, out) = member-enlist a b who m in
          (others b other ∙ (r.outside b out).0, ap sum (same b) ∙ (r.outside b out).1);
      small = ground (arith, r.small);
      sold =
          let kept : t.total_tokens ≡ s.total_tokens = ground arith in
          omega (arith, kept, left, fits, changed, r.sold);
      within = λ b. elim (Bool-cases (b == a)) [
        | inl own_one ↦
            let e : b ≡ a = ground arith in
            omega (arith, ap (bought t) e, ap (bought s) e, fits, ap sum (same b), r.within b)
        | inr other ↦ omega (arith, others b (λ e. ground arith), ap sum (same b), r.within b)
      ];
      counted = λ c i e.
          let votes : t.votes_received c ≡ s.votes_received c = ground arith in
          let listed : t.candidate_list ≡ s.candidate_list = ground arith in
          let put =
            total_changes (put_on s i) (put_on t i) a who (λ b o. ap (λ ns. nth ns i) (same b))
              r.distinct
              (λ m.
                omega (
                  arith,
                  nth_le (s.voter_info a).tokens_vote_for_candidates i,
                  (r.outside a m).1,
                )) in
          omega (arith, votes, put, ap (λ ns. nth ns i) (same a), r.counted c i (rw listed at e));
    }
