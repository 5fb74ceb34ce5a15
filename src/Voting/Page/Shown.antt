-- ===== src/Voting/Page/Shown.antt =====
-- A vote from the page to the contract and back.
use blockchain_tutorial.Prelude.{
  ℕ, ◌+◌, ◌%◌, ◌≡◌, sym, ap, ◌∙◌, Option, none, some, List, [], ◌∷◌, ◌++◌, arith, Option-cases, inl,
  inr,
}
use blockchain_tutorial.Js.{Exception, error, Outcome, ok, throw}
use blockchain_tutorial.Js.Number.{Text, codes}
use blockchain_tutorial.Crowdfunding.{word}
use blockchain_tutorial.Voting as Contract
use blockchain_tutorial.Voting.{Voting, cast_at, cast_votes, index_of_candidate}
use blockchain_tutorial.Voting.Page.{
  Candidates, Event, html, val, set_val, deployed, send_vote, total_votes_for, Surroundings, shown,
  row_of, vote_for_candidate,
}

cast_votes-received :
    (a c n i : ℕ) (s t : Voting)
    → cast_votes a c n i s ≡ some t
    → t.votes_received c ≡ (s.votes_received c + n) % word
cast_votes-received a c n i s t h = ground arith

-- What an accepted vote adds.
vote-received :
    (a c n : ℕ) (s t : Voting)
    → Contract.vote_for_candidate a c n s ≡ some t
    → t.votes_received c ≡ (s.votes_received c + n) % word
unfolding Contract.vote_for_candidate
vote-received a c n s t h = elim (Option-cases (index_of_candidate c s)) [
  | inl missing ↦ let e = rw missing at h in cc
  | inr (i, found) ↦ cast_votes-received a c n i s t (sym (ap (cast_at a c n s) found) ∙ h)
]

abbrev pub reply_of : Option Voting → Outcome Exception Unit
reply_of none = throw (error "revert")
reply_of (some s) = ok tt

abbrev pub state_after : Voting → Option Voting → Voting
state_after s none = s
state_after s (some t) = t

-- The wallet stands before a contract whose state after the calls made so far is given. Names of
-- candidates, numbers and addresses are what web3 makes of texts.
pub record Serves (w : Surroundings) (bytes32 number : Text → ℕ) (address : Option Text → ℕ)
    (state : List Event → Voting) : Type 0 where
  pub found : (t : List Event) → w.answer t deployed ≡ ok tt
  pub vote :
      (t : List Event) (c n : Text) (from : Option Text)
      → w.answer t (send_vote c n from)
        ≡ reply_of (Contract.vote_for_candidate (address from) (bytes32 c) (number n) (state t))
  pub voted :
      (t : List Event) (c n : Text) (from : Option Text)
      → state (send_vote c n from ∷ t)
        ≡ state_after
            (state t)
            (Contract.vote_for_candidate (address from) (bytes32 c) (number n) (state t))
  pub count :
      (t : List Event) (c : Text)
      → w.answer t (total_votes_for c) ≡ ok ((state t).votes_received (bytes32 c))
  pub read : (t : List Event) (selector : Text) → state (val selector ∷ t) ≡ state t
  pub cleared : (t : List Event) (selector s : Text) → state (set_val selector s ∷ t) ≡ state t
  pub asked : (t : List Event) → state (deployed ∷ t) ≡ state t

-- What the page has done when it sends the vote.
abbrev before_deployed : List Event → List Event
before_deployed t =
    set_val (codes "#vote-tokens") []
    ∷ set_val (codes "#candidate") []
    ∷ val (codes "#vote-tokens")
    ∷ val (codes "#candidate")
    ∷ t

abbrev pub before_vote : List Event → List Event
before_vote t = deployed ∷ before_deployed t

-- What it has done in the end: where the contract has reverted, nothing more.
abbrev pub record_after :
    (selector : Text) (name : Text) (count : ℕ) → Option Voting → List Event → List Event
record_after selector name count none t = t
record_after selector name count (some s) t = html selector (shown count) ∷ total_votes_for name ∷ t

module _ (w : Surroundings) (bytes32 number : Text → ℕ) (address : Option Text → ℕ)
    (state : List Event → Voting) (served : Serves w bytes32 number address state) (t : List Event)
    (name tokens : Text) where
  abbrev from : Option Text
  from = w.account (before_vote t)

  abbrev sent : List Event
  sent = send_vote name tokens from ∷ before_vote t

  abbrev result : Option Voting
  result = Contract.vote_for_candidate (address from) (bytes32 name) (number tokens) (state t)

  unchanged : state (before_vote t) ≡ state t
  unchanged =
      served.asked _
      ∙ served.cleared _ (codes "#vote-tokens") []
      ∙ served.cleared _ (codes "#candidate") []
      ∙ served.read _ (codes "#vote-tokens")
      ∙ served.read t (codes "#candidate")

  sent-reply : w.answer (before_vote t) (send_vote name tokens from) ≡ reply_of result
  sent-reply =
      served.vote (before_vote t) name tokens from
      ∙ ap
          (λ s.
            reply_of (Contract.vote_for_candidate (address from) (bytes32 name) (number tokens) s))
          unchanged

  sent-state : state sent ≡ state_after (state t) result
  sent-state =
      served.voted (before_vote t) name tokens from
      ∙ ap
          (λ s.
            state_after s
              (Contract.vote_for_candidate (address from) (bytes32 name) (number tokens) s))
          unchanged

  sent-count :
      (s : Voting)
      → result ≡ some s
      → w.answer sent (total_votes_for name)
        ≡ ok (((state t).votes_received (bytes32 name) + number tokens) % word)
  sent-count s e =
      served.count sent name
      ∙ ap (λ v. ok (v.votes_received (bytes32 name))) (sent-state ∙ ap (state_after (state t)) e)
      ∙ ap ok (vote-received (address from) (bytes32 name) (number tokens) (state t) s e)

-- The page's handler for a vote, before the contract in some state. What it does after sending the
-- vote is decided by the contract's own function on that state: if that reverts, the page shows
-- nothing; if not, it asks for the candidate's votes and shows, in the candidate's row, the votes
-- before and the tokens of this vote together, modulo 2^256.
pub vote_shows :
    (w : Surroundings) (bytes32 number : Text → ℕ) (address : Option Text → ℕ)
    (state : List Event → Voting) (candidates : Candidates) (t : List Event) (name tokens : Text)
    → Serves w bytes32 number address state
    → w.answer t (val (codes "#candidate")) ≡ ok name
    → w.answer (val (codes "#candidate") ∷ t) (val (codes "#vote-tokens")) ≡ ok tokens
    → let from = w.account (before_vote t) in
      (vote_for_candidate w candidates t).1
      ≡ record_after
          (codes "#" ++ row_of name candidates)
          name
          (((state t).votes_received (bytes32 name) + number tokens) % word)
          (Contract.vote_for_candidate (address from) (bytes32 name) (number tokens) (state t))
          (send_vote name tokens from ∷ before_vote t)
unfolding vote_for_candidate
vote_shows w bytes32 number address state candidates t name tokens served en et =
    let called = before_deployed t in
    let selector = codes "#" ++ row_of name candidates in
    let votes = ((state t).votes_received (bytes32 name) + number tokens) % word in
    let after = λ (r : Option Voting).
      record_after selector name votes r
        (send_vote name tokens (w.account (before_vote t)) ∷ before_vote t) in
    let reply = sent-reply w bytes32 number address state served t name tokens in
    elim (Option-cases (result w bytes32 number address state served t name tokens)) [
      | inl e ↦
          rw en (rw et (rw (served.found called) (rw (reply ∙ ap reply_of e) (ap after (sym e)))))
      | inr (s, e) ↦
          let count = sent-count w bytes32 number address state served t name tokens s e in
          rw en (
            rw et
              (rw (served.found called) (rw (reply ∙ ap reply_of e) (rw count (ap after (sym e))))))
    ]
