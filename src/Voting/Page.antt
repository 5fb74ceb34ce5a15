-- ===== src/Voting/Page.antt =====
-- 以太坊教程/拍卖应用/src/app/scripts/index0.js: the page of the voting example. The wallet and the contract are a parameter; what the page asks and shows is recorded.
-- The object `candidates` is a list of names with their rows, in the order in which the names were
-- first assigned; names are taken not to be numerals, which JavaScript would list first.
pub mod LookedUp
pub mod Shown
use blockchain_tutorial.Prelude.{
  ℕ, suc, Option, none, some, List, [], ◌∷◌, ◌++◌, get_elem?, if◌then◌else◌,
}
use blockchain_tutorial.Js.{
  Exception, type_error, Outcome, ok, Exec, pure, raise, lift, ◌>>=◌, ◌>>◌,
}
use blockchain_tutorial.Js.Json.{same_text, put}
use blockchain_tutorial.Js.Int.{pos}
use blockchain_tutorial.Js.Number.{Text, codes, to_string, int}

-- `candidates`: names, and the elements for their votes
abbrev pub Candidates : Type 0
Candidates = List (Text × Text)

pub data Event : Type 0 where
  html append : (selector : Text) (content : Text) → Event
  empty : (selector : Text) → Event
  val : (selector : Text) → Event
  set_val : (selector content : Text) → Event
  deployed : Event
  -- the assignment `tokenPrice = price`
  set_token_price : (price : Text) → Event
  send_buy : (value : Text) (from : Option Text) → Event
  send_vote : (candidate vote_tokens : Text) (from : Option Text) → Event
  total_votes_for : (candidate : Text) → Event
  voter_details : (address : Text) → Event
  all_candidate total_tokens token_sold token_price get_balance : Event

abbrev pub Reply : Event → Type 0
Reply (val _) = Text
Reply (total_votes_for _) = ℕ
Reply (voter_details _) = ℕ × List ℕ
Reply all_candidate = List Text
Reply total_tokens = ℕ
Reply token_sold = ℕ
Reply token_price = ℕ
Reply get_balance = ℕ
Reply _ = Unit

-- The answers, `web3.eth.accounts[0]`, `web3.toUtf8`, `web3.fromWei(n, 'ether')` and
-- `web3.toWei(v, 'ether')`; and the product of a text and a price that may be null, as doubles, by
-- the text that it prints as.
pub record Surroundings : Type 0 where
  pub answer : List Event → (c : Event) → Outcome Exception (Reply c)
  pub account : List Event → Option Text
  pub to_utf8 : Text → Text
  pub from_wei : ℕ → Text
  pub to_wei : Text → Outcome Exception Text
  pub times : Text → Option Text → Text

abbrev pub Action : Type 0 → Type 0
Action = Exec Event Exception

abbrev pub ask : Surroundings → (c : Event) → Action (Reply c)
ask w c t = (w.answer t c, c ∷ t)

abbrev pub effect : Event → Action Unit
effect c t = (ok tt, c ∷ t)

-- A chain of promises that nobody waits for.
abbrev pub start : Action Unit → Action Unit
start m t = (ok tt, (m t).1)

abbrev shown : ℕ → Text
shown n = to_string (int (pos n))

-- `candidates[name]` in a text
abbrev pub row_of : Text → Candidates → Text
row_of name [] = codes "undefined"
row_of name ((n, r) ∷ cs) = let rest = row_of name cs in if same_text name n then r else rest

-- The variable `tokenPrice`: what was assigned last, or null.
abbrev pub token_price_after : List Event → Option Text
token_price_after [] = none
token_price_after (set_token_price price ∷ t) = some price
token_price_after (_ ∷ t) = token_price_after t

-- `tokenPrice`, read
abbrev pub token_price_now : Action (Option Text)
token_price_now t = (ok (token_price_after t), t)

module _ (w : Surroundings) where
  abbrev account : Action (Option Text)
  account t = (ok (w.account t), t)

  abbrev show_votes : Candidates → Text → Action Unit
  show_votes candidates name = do
    count ← ask w (total_votes_for name)
    effect (html (codes "#" ++ row_of name candidates) (shown count))

  abbrev pub show_tokens_sold : Action Unit
  show_tokens_sold = do
    amount ← ask w token_sold
    effect (html (codes "#tokens-sold") (shown amount))

  abbrev pub show_balance : Action Unit
  show_balance = do
    balance ← ask w get_balance
    effect (html (codes "#contract-balance") (w.from_wei balance ++ codes "ETH"))

  -- `buyTokens`
  unfoldable pub buy_tokens : Action Unit
  buy_tokens = do
    tokens_to_buy ← ask w (val (codes "#buy"))
    price ← token_price_now
    start (do
      ask w deployed
      value ← lift (w.to_wei (w.times tokens_to_buy price))
      from ← account
      ask w (send_buy value from)
      start show_tokens_sold
      start show_balance)

  -- `voteForCandidate`
  unfoldable pub vote_for_candidate : Candidates → Action Unit
  vote_for_candidate candidates = do
    candidate_name ← ask w (val (codes "#candidate"))
    vote_tokens ← ask w (val (codes "#vote-tokens"))
    effect (set_val (codes "#candidate") [])
    effect (set_val (codes "#vote-tokens") [])
    start (do
      ask w deployed
      from ← account
      ask w (send_vote candidate_name vote_tokens from)
      start (show_votes candidates candidate_name))

  -- The loop of `lookupVoterInfo`; a missing count has no `toString`.
  abbrev pub show_cast : (i : ℕ) → Candidates → List ℕ → Action Unit
  show_cast i [] counts = pure tt
  show_cast i ((name, row) ∷ cs) counts =
      let rest = show_cast (suc i) cs counts in
      elim (get_elem? counts i) [
        | none ↦ raise (type_error "Cannot read property 'toString' of undefined")
        | some n ↦
            effect (append (codes "#votes-cast") (name ++ codes ": " ++ shown n ++ codes "<br>"))
            >> rest
      ]

  -- `lookupVoterInfo`
  unfoldable pub lookup_voter_info : Candidates → Action Unit
  lookup_voter_info candidates = do
    address ← ask w (val (codes "#voter-info"))
    start (do
      ask w deployed
      details ← ask w (voter_details address)
      effect (html (codes "#tokens-bought") (codes "Tokens Bought: " ++ shown details.0))
      effect (empty (codes "#votes-cast"))
      effect (append (codes "#votes-cast") (codes "Votes cast per candidate: <br>"))
      show_cast 0 candidates details.1)

  -- The loop of `populateCandidates`.
  abbrev pub with_rows : (i : ℕ) → List Text → Candidates → Candidates
  with_rows i [] candidates = candidates
  with_rows i (name ∷ names) candidates =
      with_rows (suc i) names (put (w.to_utf8 name) (codes "candidate-" ++ shown i) candidates)

  -- `setupCandidateRows`
  abbrev pub setup_candidate_rows : Candidates → Action Unit
  setup_candidate_rows [] = pure tt
  setup_candidate_rows ((name, row) ∷ cs) =
      effect (
        append (codes "#candidate-rows")
          (codes "<tr><td>" ++ name ++ codes "</td><td id='" ++ row ++ codes "'></td></tr>"))
      >> setup_candidate_rows cs

  -- `populateCandidateVotes`, over the names that are left
  abbrev pub populate_candidate_votes : Candidates → Candidates → Action Unit
  populate_candidate_votes candidates [] = pure tt
  populate_candidate_votes candidates ((name, row) ∷ cs) =
      start (ask w deployed >> start (show_votes candidates name))
      >> populate_candidate_votes candidates cs

  -- `populateTokenData`
  abbrev pub populate_token_data : Action Unit
  populate_token_data = start (do
    ask w deployed
    start (do amount ← ask w total_tokens; effect (html (codes "#tokens-total") (shown amount)))
    start show_tokens_sold
    start (do
      price ← ask w token_price
      effect (set_token_price (w.from_wei price))
      effect (html (codes "#token-cost") (w.from_wei price ++ codes "ETH")))
    start show_balance)

  -- `populateCandidates`, from the candidates known before
  unfoldable pub populate_candidates : Candidates → Action Unit
  populate_candidates known = start (do
    ask w deployed
    names ← ask w all_candidate
    setup_candidate_rows (with_rows 0 names known)
    populate_candidate_votes (with_rows 0 names known) (with_rows 0 names known)
    populate_token_data)
