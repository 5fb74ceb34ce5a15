-- ===== src/Auction/Demo.antt =====
-- A small auction, and a page with a wallet that accepts all.
use blockchain_tutorial.Prelude.{ℕ, ◌+◌, ◌*◌, Bool, true, false, Option, none, some, List, [], ◌∷◌}
use blockchain_tutorial.Js.{Exception, Outcome, ok}
use blockchain_tutorial.Js.Number.{Text, codes, nan}
use blockchain_tutorial.Auction.{Store, empty_store}
use blockchain_tutorial.Auction.Calls.{Call, adding, bidding, revealing, finalizing, execute}
use blockchain_tutorial.Auction.Countdown.{shown}
use blockchain_tutorial.Auction.Page.Saving.{Params}
use blockchain_tutorial.Auction.Page.Serialized.{serialized}
use blockchain_tutorial.Auction.Page.Filled.{form_fields}
use blockchain_tutorial.Auction.Page.{
  Event, Reply, Surroundings, val, get_product, highest_bidder_info, escrow_info, cat, add, show,
  hide, html, append, set_val, alert, reload, serialize, prevent_default,
  deployed as contract_deployed, send_bid, send_reveal, send_finalize, send_release, send_refund,
  send_product,
}

abbrev pub accepts : ℕ → ℕ → Bool
accepts a n = true

-- A hash function for the tests.
abbrev pub hash : Text → ℕ
hash [] = 7
hash (c ∷ s) = c + 257 * hash s

abbrev pub state_of : Option Store → Store
state_of none = empty_store
state_of (some s) = s

abbrev pub after : Call → Store → Store
after c s = state_of (execute accepts hash c s)

abbrev pub offer : Call
offer = adding 1 "a" "b" "c" "d" 10 20 5 0

abbrev pub bid_of : ℕ → ℕ → Text → Call
bid_of a v sealed = bidding a v 12 1 (hash sealed)

abbrev pub shown_bid : ℕ → Text → Call
shown_bid a m = revealing a 21 1 m (codes "x")

abbrev pub offered : Store
offered = after offer empty_store

abbrev pub one_bid : Store
one_bid = after (bid_of 2 30 (codes "20x")) offered

abbrev pub two_bids : Store
two_bids = after (bid_of 3 30 (codes "8x")) one_bid

abbrev pub three_bids : Store
three_bids = after (bid_of 4 30 (codes "25x")) two_bids

abbrev pub four_bids : Store
four_bids = after (bid_of 5 40 (codes "30y")) three_bids

abbrev pub one_revealed : Store
one_revealed = after (shown_bid 3 (codes "8")) four_bids

abbrev pub two_revealed : Store
two_revealed = after (shown_bid 2 (codes "20")) one_revealed

abbrev pub finalized : Store
finalized = after (finalizing 9 25 1) two_revealed

abbrev pub bicycle : Params
bicycle = record {
  product_name = codes "bicycle";
  product_category = codes "Others";
  product_description = codes "red, 21 gears";
  product_auction_start = codes "2018-09-01T10:00";
  product_auction_end = codes "7";
  product_price = codes "5";
  product_condition = codes "1";
}

-- A page with a wallet that accepts all, and whose amounts are in wei.
abbrev pub answers : List Event → (c : Event) → Outcome Exception (Reply c)
answers t (show _) = ok tt
answers t (hide _) = ok tt
answers t (html _ _) = ok tt
answers t (append _ _) = ok tt
answers t (val _) = ok (codes "1")
answers t (set_val _ _) = ok tt
answers t (alert _) = ok tt
answers t reload = ok tt
answers t serialize = ok (serialized (form_fields bicycle))
answers t prevent_default = ok tt
answers t contract_deployed = ok tt
answers t (get_product _) = ok (record {
  id = 1;
  name = [];
  category = [];
  image_link = [];
  desc_link = [];
  auction_start_time = 10;
  auction_end_time = 20;
  start_price = 5;
  status = 0;
  condition = 0;
})
answers t (highest_bidder_info _) =
    ok (record { highest_bidder = []; highest_bid = 0; second_highest_bid = 0 })
answers t (escrow_info _) = ok (record {
  seller = [];
  buyer = [];
  arbiter = [];
  funds_disbursed = false;
  release_count = 0;
  refund_count = 0;
})
answers t (send_bid _ _ _ _) = ok tt
answers t (send_reveal _ _ _ _) = ok tt
answers t (send_finalize _ _) = ok tt
answers t (send_release _ _) = ok tt
answers t (send_refund _ _) = ok tt
answers t (send_product _ _ _ _ _ _ _ _ _) = ok tt
answers t (cat _) = ok []
answers t (add _) = ok []

abbrev pub page : Surroundings
page = record {
  answer = answers;
  clock = λ t. 15000;
  url_id = some (codes "1");
  account = λ t. some (codes "0x2");
  to_wei = ok;
  from_wei = shown;
  sha3 = hash;
  date_seconds = λ s. nan;
}
