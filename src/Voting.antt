-- ===== src/Voting.antt =====
-- The voting example (以太坊教程/拍卖应用/src): the contract Voting of contracts/Voting.sol as a state
-- machine. A call that reverts is `none`. Whether an address accepts a transfer is a parameter.
pub mod Sums
pub mod Tokens
pub mod Cast
pub mod Reached
pub mod Page
mod Tests
use blockchain_tutorial.Prelude.{
  enlist, ℕ, zero, suc, ◌+◌, ◌-◌, ◌/◌, ◌%◌, ◌≡◌, ◌<◌, Bool, true, false, not, ◌||◌, Option, none,
  some, List, [], ◌∷◌, ltb, ◌==◌, length, if◌then◌else◌,
}
use blockchain_tutorial.Crowdfunding.{word, assign}

pub record Voter : Type 0 where
  pub voter_address : ℕ
  pub token_num : ℕ
  pub tokens_vote_for_candidates : List ℕ

-- The contract's fields, and its balance. Names of candidates are numbers of 32 bytes.
pub record Voting : Type 0 where
  pub total_tokens : ℕ
  pub token_balance : ℕ
  pub token_price : ℕ
  pub candidate_list : List ℕ
  pub votes_received : ℕ → ℕ
  pub voter_info : ℕ → Voter
  pub balance : ℕ

abbrev pub no_voter : Voter
no_voter = record { voter_address = 0; token_num = 0; tokens_vote_for_candidates = [] }

-- The constructor.
abbrev pub create : (total_supply price : ℕ) (candidate_names : List ℕ) → Voting
create total_supply price candidate_names = record {
  total_tokens = total_supply;
  token_balance = total_supply;
  token_price = price;
  candidate_list = candidate_names;
  votes_received = λ c. 0;
  voter_info = λ a. no_voter;
  balance = 0;
}

-- `buy`; a division by 0 reverts, and the value is in the balance before the body runs
unfoldable pub buy : (sender value : ℕ) → Voting → Option Voting
buy sender value s =
    let tokens_to_buy = value / s.token_price in
    let v = s.voter_info sender in
    if s.token_price == 0
    then none
    else if ltb s.token_balance tokens_to_buy
    then none
    else some (record s {
      voter_info =
          assign s.voter_info sender
            (record v { voter_address = sender; token_num = (v.token_num + tokens_to_buy) % word });
      token_balance = s.token_balance - tokens_to_buy;
      balance = s.balance + value;
    })

-- `indexOfCandidate`, from an index on; `none` is `uint(-1)`
abbrev pub index_from : (i candidate : ℕ) → List ℕ → Option ℕ
index_from i candidate [] = none
index_from i candidate (c ∷ cs) =
    let later = index_from (i + 1) candidate cs in if candidate == c then some i else later

abbrev pub index_of_candidate : (candidate : ℕ) → Voting → Option ℕ
index_of_candidate candidate s = index_from 0 candidate s.candidate_list

-- The loop of `totalUsedTokens`.
abbrev pub used_from : ℕ → List ℕ → ℕ
used_from used [] = used
used_from used (n ∷ ns) = used_from ((used + n) % word) ns

abbrev pub total_used_tokens : List ℕ → ℕ
total_used_tokens ns = used_from 0 ns

-- `0` pushed for each candidate
abbrev pub zeros : List ℕ → List ℕ
zeros [] = []
zeros (c ∷ cs) = 0 ∷ zeros cs

abbrev pub padded : Voting → List ℕ → List ℕ
padded s [] = zeros s.candidate_list
padded s (n ∷ ns) = n ∷ ns

-- `array[index] += n`
abbrev pub add_at : List ℕ → (index n : ℕ) → List ℕ
add_at [] i n = []
add_at (x ∷ xs) zero n = (x + n) % word ∷ xs
add_at (x ∷ xs) (suc i) n = x ∷ add_at xs i n

abbrev pub cast_votes : (sender candidate vote_tokens index : ℕ) → Voting → Option Voting
cast_votes sender candidate vote_tokens index s =
    let v = s.voter_info sender in
    let tokens = padded s v.tokens_vote_for_candidates in
    let available_tokens = (v.token_num + word - total_used_tokens tokens) % word in
    if ltb available_tokens vote_tokens
    then none
    else if not (ltb index (length tokens))
    then none
    else some (record s {
      votes_received =
          assign s.votes_received candidate ((s.votes_received candidate + vote_tokens) % word);
      voter_info =
          assign s.voter_info sender
            (record v { tokens_vote_for_candidates = add_at tokens index vote_tokens });
    })

abbrev pub cast_at : (sender candidate vote_tokens : ℕ) → Voting → Option ℕ → Option Voting
cast_at sender candidate vote_tokens s none = none
cast_at sender candidate vote_tokens s (some index) =
    cast_votes sender candidate vote_tokens index s

-- `voteForCandidate`
unfoldable pub vote_for_candidate : (sender candidate vote_tokens : ℕ) → Voting → Option Voting
vote_for_candidate sender candidate vote_tokens s =
    cast_at sender candidate vote_tokens s (index_of_candidate candidate s)

-- `voterDetails`
abbrev pub voter_details : (voter : ℕ) → Voting → ℕ × List ℕ
voter_details voter s =
    ((s.voter_info voter).token_num, (s.voter_info voter).tokens_vote_for_candidates)

-- `transfer`; it does not look at who calls it
unfoldable pub transfer : (receives : ℕ → ℕ → Bool) (sender to : ℕ) → Voting → Option Voting
transfer receives sender to s =
    if receives to s.balance then some (record s { balance = 0 }) else none

-- A call of the contract, with its sender.
pub data Call : Type 0 where
  buying : (sender value : ℕ) → Call
  voting : (sender candidate vote_tokens : ℕ) → Call
  transferring : (sender to : ℕ) → Call

module _ (receives : ℕ → ℕ → Bool) where
  unfoldable pub execute : Call → Voting → Option Voting
  unfolding buy vote_for_candidate transfer
  execute (buying a v) s = buy a v s
  execute (voting a c n) s = vote_for_candidate a c n s
  execute (transferring a to) s = transfer receives a to s

abbrev pub callers : Call → List ℕ → List ℕ
callers (buying a v) who = enlist a who
callers (voting a c n) who = enlist a who
callers (transferring a to) who = who

-- The states that a new contract can reach, with the distinct addresses that bought or voted.
pub data Reaches (receives : ℕ → ℕ → Bool) : Voting → List ℕ → Type 0 where
  deployed :
      (total price : ℕ) (names : List ℕ)
      → total < word
      → Reaches receives (create total price names) []
  executed :
      (c : Call) (s t : Voting) (who : List ℕ)
      → Reaches receives s who
      → execute receives c s ≡ some t
      → Reaches receives t (callers c who)
