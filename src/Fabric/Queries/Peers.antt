-- ===== src/Fabric/Queries/Peers.antt =====
-- balance-transfer/app/query.js: what a query for a block asks, and how it ends.
use blockchain_tutorial.Prelude.{ℕ, ◌≡◌, refl, Option, none, some, List, ◌∷◌, String, All}
use blockchain_tutorial.Js.{
  Exception, Outcome, ok, throw, pending, pure, settle, continue, ◌>>=◌, to_text,
}
use blockchain_tutorial.Js.Int.{ℤ}
use blockchain_tutorial.Js.Decimal.{radix_of}
use blockchain_tutorial.Js.Number.{Number, int, IsSafe, codes, parse_int_radix, to_string}
use blockchain_tutorial.Js.Number.RoundTrip.{parse_int-to_string}
use blockchain_tutorial.Fabric.{Call, query_block, Sdk, call}
use blockchain_tutorial.Fabric.Client.{open_channel}
use blockchain_tutorial.Fabric.Calls.{IsQuiet}
use blockchain_tutorial.Fabric.Queries.Rules.{get_block_by_number-Keeps}
use blockchain_tutorial.Fabric.Queries.{Reply, text, payload, found, get_block_by_number}

-- A call for a block is for the number `n`.
abbrev pub AsksBlock : Number → Call → Type 0
AsksBlock n (query_block m) = m ≡ n
AsksBlock n _ = Unit

quiet_asks : (n : Number) (c : Call) → IsQuiet c → AsksBlock n c
quiet_asks n (query_block m) h = absurd h
quiet_asks n _ h = tt

parse_int_radix-zero :
    (r : ℕ) (s : String) (x : ℤ)
    → r ≡ 0
    → codes s ≡ to_string (int x)
    → parse_int_radix r (codes s) ≡ int x
unfolding parse_int_radix
parse_int_radix-zero r s x e p = rw e (rw p (parse_int-to_string x))

-- What the query answers where the SDK has been asked for the block.
abbrev pub answered : Outcome Exception (Option String) → Outcome Exception Reply
answered (ok none) = ok (text "response_payload is null")
answered (ok (some block)) = ok (payload block)
answered (throw e) = ok (text (to_text e))
answered pending = pending

-- How the query ends, from how the channel was opened.
abbrev pub asked :
    Sdk → Number → Outcome Exception Unit → List Call → Outcome Exception Reply × List Call
asked sdk n (ok opened) t = (answered (sdk.answer t (query_block n)), query_block n ∷ t)
asked sdk n (throw e) t = (ok (text (to_text e)), t)
asked sdk n pending t = (pending, t)

answered-caught :
    (sdk : Sdk) (n : Number) (o : Outcome Exception (Option String)) (t : List Call)
    → let r = continue o t found in settle r.0 r.1 (λ e. pure (text (to_text e))) ≡ (answered o, t)
answered-caught sdk n (ok none) t = refl
answered-caught sdk n (ok (some block)) t = refl
answered-caught sdk n (throw e) t = refl
answered-caught sdk n pending t = refl

asked-caught :
    (sdk : Sdk) (n : Number) (o : Outcome Exception Unit) (t : List Call)
    → let r = continue o t (λ _. call sdk (query_block n) >>= found) in
      settle r.0 r.1 (λ e. pure (text (to_text e))) ≡ asked sdk n o t
asked-caught sdk n (ok opened) t =
    answered-caught sdk n (sdk.answer t (query_block n)) (query_block n ∷ t)
asked-caught sdk n (throw e) t = refl
asked-caught sdk n pending t = refl

-- `getBlockByNumber` at the decimal digits of `x`, a number of magnitude below 2^53, with a peer
-- that is absent or whose name is no numeral. If the channel is opened, the next and last call asks
-- for the block `x`, and the reply is the SDK's block, the text for an absent one, or the text of
-- the error; if opening it throws, nothing more is asked, and the reply is the text of that error.
-- It waits for ever where the SDK does. No other block is asked for, where the calls before asked
-- for no other.
pub block_asked_by_number :
    (sdk : Sdk) (peer : Option String) (channel number : String) (username org : Option String)
    (x : ℤ) (t : List Call)
    → radix_of peer ≡ 0
    → codes number ≡ to_string (int x)
    → IsSafe x
    → All (AsksBlock (int x)) t
    → let opened = open_channel sdk org username (some channel) t in
      (get_block_by_number sdk peer channel number username org t
        ≡ asked sdk (int x) opened.0 opened.1)
      × All (AsksBlock (int x)) (get_block_by_number sdk peer channel number username org t).1
unfolding get_block_by_number
block_asked_by_number sdk peer channel number username org x t r c safe h =
    let opened = open_channel sdk org username (some channel) t in
    let n = parse_int_radix-zero (radix_of peer) number x r c in
    (
      rw n (asked-caught sdk (int x) opened.0 opened.1),
      (get_block_by_number-Keeps sdk (AsksBlock (int x)) (quiet_asks (int x)) peer username org
            channel number n).at
          t h,
    )
