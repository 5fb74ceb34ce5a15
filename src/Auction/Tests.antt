-- ===== src/Auction/Tests.antt =====
-- The theorems about the auction application at a small auction.
use blockchain_tutorial.Auction.Demo.{
  accepts, hash, offer, bid_of, shown_bid, offered, one_bid, two_bids, three_bids, four_bids,
  one_revealed, two_revealed, finalized, after, page, bicycle,
}
use blockchain_tutorial.Prelude.{
  ℕ, ◌+◌, ◌-◌, ◌*◌, ◌<◌, ◌≤◌, ◌≡◌, refl, Bool, true, false, not, ◌&&◌, ◌||◌, ltb, ◌==◌, none, some,
  List, [], ◌∷◌, ◌++◌, arith,
}
use blockchain_tutorial.Js.Number.{codes, to_string}
use blockchain_tutorial.Auction.{Store, product_of, empty_store, is_open}
use blockchain_tutorial.Auction.Escrows.{Choice, release, refund, create, run}
use blockchain_tutorial.Auction.Escrows.Approvals.{poll, Refines, IsFair, run-Refines}
use blockchain_tutorial.Auction.Bidding.{bid, reveal_bid, count_bid, string_to_uint}
use blockchain_tutorial.Auction.Page.Details.{section_at}
use blockchain_tutorial.Auction.Page.Sections.{is_accepted, shows, sections_match}
use blockchain_tutorial.Auction.Sale.{sell, finalize_auction}
use blockchain_tutorial.Auction.Calls.{
  Call, finalizing, revealing, execute, tally, Reaches, deployed, executed,
}
use blockchain_tutorial.Auction.Accounts.{
  Ledger, Orderly, deployed as orderly_start, executed as orderly_step, IsBalanced,
}
use blockchain_tutorial.Auction.Accounts.Reached.{Orderly-IsBalanced}
use blockchain_tutorial.Auction.Ranking.{IsRanked}
use blockchain_tutorial.Auction.Ranking.Reached.{bids-IsRanked}
use blockchain_tutorial.Auction.Countdown.{
  get_current_time, shown, display_end_time, days_part, display_end_time_units,
}
use blockchain_tutorial.Auction.Opened.{revealed_bid_counts}
use blockchain_tutorial.Auction.Page.{Event, show, send_product}
use blockchain_tutorial.Auction.Page.Saving.{save_product, save_product_to_blockchain}
use blockchain_tutorial.Js.{◌>>◌}
use blockchain_tutorial.Js.Uri.{decode_uri, decode_uri_component, decode, items, assemble}
use blockchain_tutorial.Auction.Page.{serialize, prevent_default, effect}
use blockchain_tutorial.Auction.Page.Form.{item_submitted, decode_param}
use blockchain_tutorial.Auction.Page.Filled.{item_submitted-reads}
use blockchain_tutorial.Auction.Page.Saved.{AllBacked, save_product-AllBacked}
use blockchain_tutorial.Auction.Later.{Later, unchanged, called, LeavesProduct, LeavesBid}
use blockchain_tutorial.Auction.Late.{late_reveal_pays_again}

abbrev votes : List (Choice × ℕ)
votes = (refund, 3) ∷ (release, 1) ∷ (release, 9) ∷ (refund, 3) ∷ (release, 3) ∷ (release, 3) ∷ []

run-Refines_example :
    Refines accepts 1 2 3 50 (run accepts votes (create 4 1 2 3 50)) (poll accepts 1 2 3 50 votes)
    × IsFair accepts 1 2 3 50 (poll accepts 1 2 3 50 votes)
run-Refines_example = run-Refines accepts 1 2 3 50 4 votes

two_release : (run accepts votes (create 4 1 2 3 50)).balance ≡ 0
unfolding run
two_release = refl

display_end_time_units_example :
    (90061 ≤ get_current_time 400 → display_end_time 90061 400 ≡ codes "Auction has ended")
    × (get_current_time 400 < 90061
        → (d : ℕ) × (h : ℕ) × (m : ℕ) × (s : ℕ) × (h < 24)
          × (m < 60)
          × (s < 60)
          × (get_current_time 400 + (((d * 24 + h) * 60 + m) * 60 + s) ≡ 90061)
          × (display_end_time 90061 400 ≡ days_part (codes "Auction ends in ") d h m s))
display_end_time_units_example = display_end_time_units 90061 400 (omega arith) (omega arith)

ranked_in_order :
    ((product_of two_revealed 1).highest_bid ≡ 20)
    × ((product_of two_revealed 1).second_highest_bid ≡ 8)
    × (two_revealed.balance ≡ 90)
unfolding execute
ranked_in_order = (refl, refl, refl)

abbrev tallied : Call → Store → (ℕ → List ℕ) → ℕ → List ℕ
tallied = tally accepts hash

abbrev untold : ℕ → List ℕ
untold = tallied (bid_of 5 40 (codes "30y")) three_bids (
    tallied (bid_of 4 30 (codes "25x")) two_bids (
      tallied (bid_of 3 30 (codes "8x")) one_bid
        (tallied (bid_of 2 30 (codes "20x")) offered (tallied offer empty_store (λ i. [])))))

abbrev told : ℕ → List ℕ
told =
    tallied (shown_bid 2 (codes "20")) one_revealed
      (tallied (shown_bid 3 (codes "8")) four_bids untold)

history : Reaches accepts hash two_revealed told
unfolding execute
history =
    executed (shown_bid 2 (codes "20")) one_revealed two_revealed _
      (executed (shown_bid 3 (codes "8")) four_bids one_revealed _
        (executed (bid_of 5 40 (codes "30y")) three_bids four_bids _
          (executed (bid_of 4 30 (codes "25x")) two_bids three_bids _
            (executed (bid_of 3 30 (codes "8x")) one_bid two_bids _
              (executed (bid_of 2 30 (codes "20x")) offered one_bid _
                (executed offer empty_store offered _ deployed (omega arith) refl) (omega arith)
                refl)
              (omega arith) refl)
            (omega arith) refl)
          (omega arith) refl)
        (omega arith) refl)
      (omega arith) refl

bids-IsRanked_example : IsRanked (product_of two_revealed 1) (20 ∷ 8 ∷ [])
unfolding execute
bids-IsRanked_example = bids-IsRanked accepts hash two_revealed told history 1

abbrev nothing : Ledger
nothing = record { ids = []; deposited = 0; opened = 0 }

abbrev all_bids : Ledger
all_bids = record { ids = []; deposited = 130; opened = 0 }

four_bids-Orderly : Orderly accepts hash four_bids all_bids
unfolding execute
four_bids-Orderly =
    orderly_step (bid_of 5 40 (codes "30y")) three_bids four_bids _
      (orderly_step (bid_of 4 30 (codes "25x")) two_bids three_bids _
        (orderly_step (bid_of 3 30 (codes "8x")) one_bid two_bids _
          (orderly_step (bid_of 2 30 (codes "20x")) offered one_bid _
            (orderly_step offer empty_store offered nothing orderly_start (omega arith) refl) tt
            refl)
          tt refl)
        tt refl)
      tt refl

abbrev two_shown : Ledger
two_shown = record { ids = 1 ∷ []; deposited = 130; opened = 60 }

finalized-Orderly : Orderly accepts hash finalized two_shown
unfolding execute
finalized-Orderly =
    orderly_step (finalizing 9 25 1) two_revealed finalized two_shown
      (orderly_step (shown_bid 2 (codes "20")) one_revealed two_revealed _
        (orderly_step (shown_bid 3 (codes "8")) four_bids one_revealed all_bids four_bids-Orderly
          (omega arith, omega arith, refl) refl)
        (omega arith, omega arith, refl) refl)
      (omega arith, omega arith) refl

Orderly-IsBalanced_example : IsBalanced finalized two_shown
Orderly-IsBalanced_example = Orderly-IsBalanced accepts hash finalized two_shown finalized-Orderly

abbrev paid_again : Store
paid_again = after (revealing 4 30 1 (codes "25") (codes "x")) finalized

late_reveal : Later accepts hash (LeavesProduct 1) finalized paid_again
unfolding execute
late_reveal =
    called (revealing 4 30 1 (codes "25") (codes "x")) finalized paid_again unchanged tt refl

late_reveal_pays_again_example :
    (u : Store) × (reveal_bid accepts hash 4 30 1 (codes "25") (codes "x") finalized ≡ some u)
    × (u.balance + (30 - 25) + 2 * 20 ≡ two_revealed.balance)
    × (finalize_auction accepts 9 40 1 paid_again ≡ none)
unfolding execute
late_reveal_pays_again_example =
    late_reveal_pays_again accepts (λ x v. refl) hash 4 9 25 30 1 (hash (codes "25x")) 25
      (codes "25") (codes "x") two_revealed finalized paid_again 9 40 refl (omega arith)
      (omega arith) (omega arith) (omega arith) refl refl (omega arith) refl (omega arith)
      (omega arith) (omega arith) late_reveal

abbrev key_of_two : ℕ
key_of_two = hash (shown 20 ++ codes "x")

-- After the bid of 2 there are three more bids, and the bid of 3 is revealed.
calls_between : Later accepts hash (LeavesBid accepts hash 2 1 key_of_two) one_bid one_revealed
unfolding execute
calls_between =
    called (shown_bid 3 (codes "8")) four_bids one_revealed
      (called (bid_of 5 40 (codes "30y")) three_bids four_bids
        (called (bid_of 4 30 (codes "25x")) two_bids three_bids
          (called (bid_of 3 30 (codes "8x")) one_bid two_bids unchanged tt refl) tt refl)
        tt refl)
      (λ e. ground arith) refl

revealed_bid_counts_example :
    (u : Store) × (reveal_bid accepts hash 2 25 1 (shown 20) (codes "x") one_revealed ≡ some u)
    × (((product_of u 1).bids 2 key_of_two).revealed ≡ true)
    × ((product_of u 1).highest_bidder ≡ 2)
    × ((product_of u 1).highest_bid ≡ 20)
    × (u.balance + 18 ≡ one_revealed.balance)
unfolding execute to_string
revealed_bid_counts_example =
    revealed_bid_counts accepts (λ x v. refl) page 2 30 12 25 1 20 key_of_two (shown 20) (codes "x")
      offered one_bid one_revealed refl (omega arith) refl (omega arith) refl calls_between
      (omega arith) (omega arith) (omega arith)

save_product-AllBacked_example :
    AllBacked page
      (some (codes "picture"))
      bicycle
      (save_product page (some (codes "picture")) bicycle (show "#msg" ∷ [])).1
save_product-AllBacked_example =
    save_product-AllBacked page (some (codes "picture")) bicycle (show "#msg" ∷ []) (tt, tt)

abbrev is_sent : List Event → Bool
is_sent [] = false
is_sent (send_product _ _ _ _ _ _ _ _ _ ∷ t) = true
is_sent (_ ∷ t) = is_sent t

bicycle_sent : is_sent (save_product page (some (codes "picture")) bicycle []).1 ≡ true
unfolding save_product save_product_to_blockchain
bicycle_sent = refl

nothing_sent : is_sent (save_product page none bicycle []).1 ≡ false
unfolding save_product
nothing_sent = refl

item_submitted-reads_example :
    item_submitted page (some (codes "picture")) []
    ≡ (save_product page (some (codes "picture")) bicycle >> effect prevent_default)
        (serialize ∷ [])
item_submitted-reads_example =
    item_submitted-reads page (some (codes "picture")) bicycle [] (omega arith) refl

-- A percent sign in a field, which jQuery sends as `%25`, is decoded twice.
percent_at_end : decode_param (codes "50%25") ≡ none
unfolding decode_uri decode_uri_component decode items assemble
percent_at_end = refl

percent_before_digits : decode_param (codes "a%2541") ≡ some (codes "aA")
unfolding decode_uri decode_uri_component decode items assemble
percent_before_digits = refl

-- One second after the end the page still shows the form for reveals, and the contract accepts the
-- end of the auction, with four bids that nobody has revealed.
ended_early :
    (shows "#revealing" 21 20 ≡ true)
    × (is_accepted (finalize_auction accepts 9 21 1 four_bids) ≡ true)
    × ((product_of four_bids 1).auction_end_time ≡ 20)
unfolding section_at finalize_auction execute
ended_early = (refl, refl, refl)

sections_match_example :
    let p = product_of four_bids 1 in
    let key = hash (codes "8" ++ codes "x") in
    (is_accepted (bid 6 50 20 1 77 four_bids) ≡ (
      not (ltb 20 p.auction_start_time)
      && (shows "#bidding" 20 p.auction_end_time || 20 == p.auction_end_time)
      && ltb p.start_price 50
      && (p.bids 6 77).bidder == 0))
    × (is_accepted (reveal_bid accepts hash 6 20 1 (codes "8") (codes "x") four_bids) ≡ (
        not (shows "#bidding" 20 p.auction_end_time)
        && not ((p.bids 6 key).bidder == 0)
        && not (p.bids 6 key).revealed
        && is_accepted (count_bid accepts 6 1 key (string_to_uint (codes "8")) p four_bids)))
    × (is_accepted (finalize_auction accepts 6 20 1 four_bids) ≡ (
        (shows "#finalize-auction" 20 p.auction_end_time
          || (shows "#revealing" 20 p.auction_end_time && not (20 == p.auction_end_time)))
        && is_open p.status
        && not (6 == four_bids.product_id_in_store 1)
        && not (6 == p.highest_bidder)
        && (p.highest_bidder == 0 || is_accepted (sell accepts 6 1 p four_bids))))
sections_match_example = sections_match accepts hash four_bids 1 20 6 50 77 (codes "8") (codes "x")
