-- ===== src/Auction/Seed/Tests.antt =====
-- The theorem about seed.js at a store that has a product.
use blockchain_tutorial.Prelude.{◌+◌, ◌≡◌, refl, arith}
use blockchain_tutorial.Auction.{product_of}
use blockchain_tutorial.Auction.Calls.{execute}
use blockchain_tutorial.Auction.Demo.{offered}
use blockchain_tutorial.Auction.Seed.{Entry, seed}
use blockchain_tutorial.Auction.Seed.Listings.{IsListed, seed_lists}

abbrev jeans : Entry
jeans = record {
  name = "Jeans";
  category = "Clothing, Shoes & Accessories";
  image_link = "QmZwfUuHwBhwshGfo4HEvvvZwcdrppas156uNRxEVU3VYr";
  desc_link = "QmbLRFj5U6UGTy3o9Zt8jEnVDuAw2GKzvrrv3RED9wyGRk";
  duration = 259200;
  start_price = 5000000000000000000;
  condition = 1;
}

offered_last : offered.product_index ≡ 1
unfolding execute
offered_last = refl

seed_lists_example :
    ((seed 9 1000 offered).product_index ≡ offered.product_index + 6)
    × IsListed 9 1000 jeans (offered.product_index + 6) (seed 9 1000 offered)
    × (product_of (seed 9 1000 offered) 1 ≡ product_of offered 1)
seed_lists_example =
    seed_lists 9 1000 offered 5 jeans 1 (omega (arith, offered_last)) refl
      (omega (arith, offered_last))
