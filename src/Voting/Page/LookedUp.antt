-- ===== src/Voting/Page/LookedUp.antt =====
-- The look-up of a voter from the page to the contract.
use blockchain_tutorial.Prelude.{
  ℕ, zero, suc, ◌≡◌, ◌⊎◌, inl, inr, refl, sym, ap, ◌∙◌, Bool, some, List, [], ◌∷◌, ◌++◌, arith,
  length, get_elem?, ◌==◌, Bool-cases, Option-cases,
}
use blockchain_tutorial.Js.{ok}
use blockchain_tutorial.Js.Number.{Text, codes}
use blockchain_tutorial.Voting as Contract
use blockchain_tutorial.Voting.{
  Voting, Reaches, deployed, executed, buying, voting, transferring, execute, buy,
  vote_for_candidate, transfer, zeros, padded, add_at, cast_votes, cast_at, index_of_candidate,
}
use blockchain_tutorial.Voting.Page.{
  Candidates, Event, html, append, empty, val, deployed as found, voter_details, Surroundings,
  shown, show_cast, lookup_voter_info,
}

abbrev votes_of : Voting → ℕ → List ℕ
votes_of s a = (s.voter_info a).tokens_vote_for_candidates

length-zeros : (cs : List ℕ) → length (zeros cs) ≡ length cs
length-zeros [] = refl
length-zeros (c ∷ cs) = ap suc (length-zeros cs)

length-add_at : (ns : List ℕ) (i n : ℕ) → length (add_at ns i n) ≡ length ns
length-add_at [] i n = refl
length-add_at (x ∷ ns) zero n = refl
length-add_at (x ∷ ns) (suc i) n = ap suc (length-add_at ns i n)

-- A list of votes that has a place for each candidate, or is empty.
abbrev Fits : Voting → List ℕ → Type 0
Fits s ns = (ns ≡ []) ⊎ (length ns ≡ length s.candidate_list)

AllFit : Voting → Type 0
AllFit s = (a : ℕ) → Fits s (votes_of s a)

length-padded :
    (s : Voting) (ns : List ℕ) → Fits s ns → length (padded s ns) ≡ length s.candidate_list
length-padded s [] f = length-zeros s.candidate_list
length-padded s (n ∷ ns) (inl e) = ground arith
length-padded s (n ∷ ns) (inr e) = e

kept-AllFit :
    (s t : Voting)
    → ((a : ℕ) → votes_of t a ≡ votes_of s a)
    → t.candidate_list ≡ s.candidate_list
    → AllFit s
    → AllFit t
unfolding AllFit
kept-AllFit s t v c h a = elim (h a) [
  | inl e ↦ inl (v a ∙ e)
  | inr e ↦ inr (ap length (v a) ∙ e ∙ ap length (sym c))
]

cast-AllFit : (a c n i : ℕ) (s t : Voting) → cast_votes a c n i s ≡ some t → AllFit s → AllFit t
unfolding AllFit
cast-AllFit a c n i s t h f b =
    let names : t.candidate_list ≡ s.candidate_list = ground arith in
    elim (Bool-cases (b == a)) [
      | inl own ↦
          let now : votes_of t b ≡ add_at (padded s (votes_of s a)) i n = ground arith in
          inr (
            ap length now
            ∙ length-add_at _ i n
            ∙ length-padded s (votes_of s a) (f a)
            ∙ ap length (sym names))
      | inr other ↦
          let same : votes_of t b ≡ votes_of s b = ground arith in
          elim (f b) [
            | inl e ↦ inl (same ∙ e)
            | inr e ↦ inr (ap length same ∙ e ∙ ap length (sym names))
          ]
    ]

buy-AllFit : (a v : ℕ) (s t : Voting) → buy a v s ≡ some t → AllFit s → AllFit t
unfolding buy
buy-AllFit a v s t h f = kept-AllFit s t (λ b. ground arith) (ground arith) f

transfer-AllFit :
    (receives : ℕ → ℕ → Bool) (a to : ℕ) (s t : Voting)
    → transfer receives a to s ≡ some t
    → AllFit s
    → AllFit t
unfolding transfer
transfer-AllFit receives a to s t h f = kept-AllFit s t (λ b. ground arith) (ground arith) f

vote-AllFit : (a c n : ℕ) (s t : Voting) → vote_for_candidate a c n s ≡ some t → AllFit s → AllFit t
unfolding vote_for_candidate
vote-AllFit a c n s t h f = elim (Option-cases (index_of_candidate c s)) [
  | inl missing ↦ let e = rw missing at h in cc
  | inr (i, at) ↦ cast-AllFit a c n i s t (sym (ap (cast_at a c n s) at) ∙ h) f
]

reached-AllFit :
    (receives : ℕ → ℕ → Bool) (s : Voting) (who : List ℕ) → Reaches receives s who → AllFit s
unfolding execute AllFit
reached-AllFit receives s who (deployed supply price names small) = λ a. inl refl
reached-AllFit receives _ _ (executed (buying a v) s t who r h) =
    buy-AllFit a v s t h (reached-AllFit receives s who r)
reached-AllFit receives _ _ (executed (voting a c n) s t who r h) =
    vote-AllFit a c n s t h (reached-AllFit receives s who r)
reached-AllFit receives _ _ (executed (transferring a to) s t who r h) =
    transfer-AllFit receives a to s t h (reached-AllFit receives s who r)

abbrev from : ℕ → List ℕ → List ℕ
from zero ns = ns
from (suc i) [] = []
from (suc i) (n ∷ ns) = from i ns

from-cons :
    (i n : ℕ) (all ns : List ℕ)
    → from i all ≡ n ∷ ns
    → (get_elem? all i ≡ some n) × (from (suc i) all ≡ ns)
from-cons zero n [] ns h = cc
from-cons zero n (x ∷ all) ns h = (ground arith, ground arith)
from-cons (suc i) n [] ns h = cc
from-cons (suc i) n (x ∷ all) ns h = from-cons i n all ns h

-- A line for each candidate with its count, under the lines that are there.
abbrev pub with_lines : Candidates → List ℕ → List Event → List Event
with_lines [] ns t = t
with_lines (c ∷ cs) [] t = t
with_lines ((name, row) ∷ cs) (n ∷ ns) t =
    with_lines cs ns
      (append (codes "#votes-cast") (name ++ codes ": " ++ shown n ++ codes "<br>") ∷ t)

module _ (w : Surroundings) where
  show_cast-lines :
      (cs : Candidates) (i : ℕ) (all ns : List ℕ) (t : List Event)
      → from i all ≡ ns
      → length ns ≡ length cs
      → (show_cast w i cs all t).1 ≡ with_lines cs ns t
  show_cast-lines [] i all ns t h k = refl
  show_cast-lines (c ∷ cs) i all [] t h k = ground arith
  show_cast-lines ((name, row) ∷ cs) i all (n ∷ ns) t h k =
      let (here, later) = from-cons i n all ns h in
      rw (here, show_cast) (show_cast-lines cs (suc i) all ns _ later (omega (arith, k)))

  show_cast-none : (cs : Candidates) (t : List Event) → (show_cast w 0 cs [] t).1 ≡ t
  show_cast-none [] t = refl
  show_cast-none (c ∷ cs) t = refl

-- What the page has done before it shows the votes.
abbrev pub before_votes : (address : Text) (bought : ℕ) → List Event → List Event
before_votes address bought t =
    append (codes "#votes-cast") (codes "Votes cast per candidate: <br>")
    ∷ empty (codes "#votes-cast")
    ∷ html (codes "#tokens-bought") (codes "Tokens Bought: " ++ shown bought)
    ∷ voter_details address
    ∷ found
    ∷ val (codes "#voter-info")
    ∷ t

-- The page's look-up of a voter, before the contract in a state that it can reach, with as many
-- candidates on the page as in the contract: the page shows the tokens that the voter has bought;
-- and either the voter has a count for each candidate, and it shows a line for each, or the list of
-- counts is empty, and it shows no line.
pub lookup_shows :
    (receives : ℕ → ℕ → Bool) (s : Voting) (who : List ℕ) (w : Surroundings) (voter : ℕ)
    (candidates : Candidates) (address : Text) (t : List Event)
    → Reaches receives s who
    → length candidates ≡ length s.candidate_list
    → w.answer t (val (codes "#voter-info")) ≡ ok address
    → w.answer (val (codes "#voter-info") ∷ t) found ≡ ok tt
    → w.answer (found ∷ val (codes "#voter-info") ∷ t) (voter_details address)
      ≡ ok (Contract.voter_details voter s)
    → let v = s.voter_info voter in
      let told = before_votes address v.token_num t in
      (length v.tokens_vote_for_candidates ≡ length candidates
        × ((lookup_voter_info w candidates t).1
            ≡ with_lines candidates v.tokens_vote_for_candidates told))
      ⊎ ((v.tokens_vote_for_candidates ≡ []) × ((lookup_voter_info w candidates t).1 ≡ told))
unfolding lookup_voter_info AllFit
lookup_shows receives s who w voter candidates address t r n ea ed ev =
    let v = s.voter_info voter in
    let told = before_votes address v.token_num t in
    elim (reached-AllFit receives s who r voter) [
      | inl none_cast ↦
          inr (none_cast, rw ea (rw ed (rw ev (rw none_cast (show_cast-none w candidates _)))))
      | inr each ↦ inl (
        each ∙ sym n,
        rw ea (rw ed (rw ev (show_cast-lines w candidates 0 _ _ _ refl (each ∙ sym n)))),
      )
    ]
