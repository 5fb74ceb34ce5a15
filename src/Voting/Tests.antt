-- ===== src/Voting/Tests.antt =====
-- The theorem about the voting example at a small vote.
use blockchain_tutorial.Prelude.{
  ℕ, ◌+◌, ◌%◌, ◌≡◌, ◌⊎◌, refl, Bool, true, Option, none, some, List, [], ◌∷◌, arith, length, ◌==◌,
  if◌then◌else◌,
}
use blockchain_tutorial.Js.{Exception, Outcome, ok}
use blockchain_tutorial.Js.Number.{Text, codes}
use blockchain_tutorial.Crowdfunding.{word}
use blockchain_tutorial.Voting as Contract
use blockchain_tutorial.Voting.Page
use blockchain_tutorial.Voting.Page.LookedUp.{with_lines, before_votes, lookup_shows}
use blockchain_tutorial.Voting.Page.{
  Event, Reply, Candidates, Surroundings, html, append, empty, val, set_val,
  deployed as page_deployed, send_vote, set_token_price, send_buy, total_votes_for, voter_details,
  all_candidate, total_tokens, token_sold, token_price, get_balance,
}
use blockchain_tutorial.Voting.Page.Shown.{
  Serves, reply_of, state_after, before_vote, record_after, vote_shows,
}
use blockchain_tutorial.Voting.{vote_for_candidate}
use blockchain_tutorial.Voting.{
  Voting, create, Call, buying, voting, transferring, execute, Reaches, deployed, executed,
}
use blockchain_tutorial.Voting.Tokens.{IsSound}
use blockchain_tutorial.Voting.Reached.{votes-IsSound}

abbrev accepts : ℕ → ℕ → Bool
accepts a n = true

abbrev opened : Voting
opened = create 100 10 (5 ∷ 6 ∷ [])

abbrev after : Call → Voting → Voting
after c s = elim (execute accepts c s) [ none ↦ opened | some t ↦ t ]

abbrev funded : Voting
funded = after (buying 1 205) opened

abbrev cast : Voting
cast = after (voting 1 6 12) funded

abbrev emptied : Voting
emptied = after (transferring 9 9) cast

counted : (emptied.votes_received 6 ≡ 12) × (emptied.balance ≡ 0) × (emptied.token_balance ≡ 80)
unfolding execute
counted = (refl, refl, refl)

overdrawn : execute accepts (voting 1 5 9) cast ≡ none
unfolding execute
overdrawn = refl

cast_history : Reaches accepts cast (1 ∷ [])
unfolding execute
cast_history =
    executed (voting 1 6 12) funded cast (1 ∷ [])
      (executed (buying 1 205) opened funded [] (deployed 100 10 (5 ∷ 6 ∷ []) (omega arith)) refl)
      refl

history : Reaches accepts emptied (1 ∷ [])
unfolding execute
history = executed (transferring 9 9) cast emptied (1 ∷ []) cast_history refl

votes-IsSound_example : IsSound emptied (1 ∷ [])
votes-IsSound_example = votes-IsSound accepts emptied (1 ∷ []) history

-- A wallet before the contract, for addresses and names that are read off their texts' lengths.
abbrev as_number : Text → ℕ
as_number s = length s

abbrev as_address : Option Text → ℕ
as_address none = 0
as_address (some s) = length s

abbrev state_at : List Event → Voting
state_at [] = funded
state_at (send_vote c n from ∷ t) =
    state_after (state_at t)
      (vote_for_candidate (as_address from) (as_number c) (as_number n) (state_at t))
state_at (_ ∷ t) = state_at t

abbrev respond : List Event → (c : Event) → Outcome Exception (Reply c)
respond t (val selector) = ok (if length selector == 10 then codes "Alicia" else codes "three")
respond t (total_votes_for c) = ok ((state_at t).votes_received (as_number c))
respond t (send_vote c n from) =
    reply_of (vote_for_candidate (as_address from) (as_number c) (as_number n) (state_at t))
respond t (voter_details _) = ok (Contract.voter_details 1 cast)
respond t all_candidate = ok []
respond t total_tokens = ok 100
respond t token_sold = ok 0
respond t token_price = ok 10
respond t get_balance = ok 0
respond t (html _ _) = ok tt
respond t (append _ _) = ok tt
respond t (empty _) = ok tt
respond t (set_val _ _) = ok tt
respond t (set_token_price _) = ok tt
respond t (send_buy _ _) = ok tt
respond t page_deployed = ok tt

abbrev page : Surroundings
page = record {
  answer = respond;
  account = λ t. some (codes "x");
  to_utf8 = λ s. s;
  from_wei = λ n. [];
  to_wei = ok;
  times = λ s p. s;
}

served : Serves page as_number as_number as_address state_at
served = record {
  found = λ t. refl;
  vote = λ t c n from. refl;
  voted = λ t c n from. refl;
  count = λ t c. refl;
  read = λ t selector. refl;
  cleared = λ t selector s. refl;
  asked = λ t. refl;
}

abbrev rows : Candidates
rows = (codes "Alicia", codes "candidate-0") ∷ []

abbrev cast_page : Option Voting
cast_page = vote_for_candidate 1 6 5 funded

vote_shows_example :
    (Page.vote_for_candidate page rows []).1
    ≡ record_after
        (codes "#candidate-0")
        (codes "Alicia")
        ((funded.votes_received 6 + 5) % word)
        cast_page
        (send_vote (codes "Alicia") (codes "three") (some (codes "x")) ∷ before_vote [])
unfolding execute
vote_shows_example =
    vote_shows page as_number as_number as_address state_at rows [] (codes "Alicia") (codes "three")
      served refl refl

abbrev two_rows : Candidates
two_rows = (codes "Alicia", codes "candidate-0") ∷ (codes "Bob", codes "candidate-1") ∷ []

lookup_shows_example :
    let v = cast.voter_info 1 in
    let told = before_votes (codes "three") v.token_num [] in
    (length v.tokens_vote_for_candidates ≡ length two_rows
      × ((Page.lookup_voter_info page two_rows []).1
          ≡ with_lines two_rows v.tokens_vote_for_candidates told))
    ⊎ ((v.tokens_vote_for_candidates ≡ []) × ((Page.lookup_voter_info page two_rows []).1 ≡ told))
unfolding execute
lookup_shows_example =
    lookup_shows accepts cast (1 ∷ []) page 1 two_rows (codes "three") [] cast_history refl refl
      refl refl
