-- ===== src/Auction/Seed.antt =====
-- 以太坊教程/拍卖应用/src/seed.js: the products that the script puts on sale. Its
-- transactions reach the contract in the order in which they are sent, with none between them.
pub mod Listings
mod Tests
use blockchain_tutorial.Prelude.{ℕ, ◌+◌, ◌*◌, Option, none, some, List, [], ◌∷◌, String}
use blockchain_tutorial.Auction.{Store}
use blockchain_tutorial.Auction.Bidding.{add_product_to_store}

-- What a call of the script says about a product: `duration` is added to the present time for the
-- end of its auction.
pub record Entry : Type 0 where
  pub name : String
  pub category : String
  pub image_link : String
  pub desc_link : String
  pub duration : ℕ
  pub start_price : ℕ
  pub condition : ℕ

-- `amt_1`, one ether
abbrev amt_1 : ℕ
amt_1 = 1000000000000000000

-- The arguments of the six calls.
abbrev pub entries : List Entry
entries =
    record {
      name = "iphone 5";
      category = "Cell Phones & Accessories";
      image_link = "QmRQJ2vStY1ZrGs6hft3WGi5y8UcKaJe2bEr7ayActQAsd";
      desc_link = "QmTLr5Nw7U9xxqDcrx7bYZa27fhbTfB5FrxoFZVzZvTw6y";
      duration = 300;
      start_price = 2 * amt_1;
      condition = 0;
    }
    ∷ record {
      name = "iphone 6s";
      category = "Cell Phones & Accessories";
      image_link = "QmbwvNNfuHUAXsR2hSruBTh7EjCACGw2tYxh3NGHzbFbWZ";
      desc_link = "QmWeysTWsbGfawRNsprZNmeW3v88Ho2RGh3Smi36BwSLCu";
      duration = 600;
      start_price = 3 * amt_1;
      condition = 0;
    }
    ∷ record {
      name = "iphone 6";
      category = "Cell Phones & Accessories";
      image_link = "QmStqeYPDCTbgKGUwns2nZixC5dBDactoCe1FB8htpmrt1";
      desc_link = "QmbLRFj5U6UGTy3o9Zt8jEnVDuAw2GKzvrrv3RED9wyGRk";
      duration = 400;
      start_price = amt_1;
      condition = 0;
    }
    ∷ record {
      name = "iphone 6s";
      category = "Cell Phones & Accessories";
      image_link = "QmStqeYPDCTbgKGUwns2nZixC5dBDactoCe1FB8htpmrt1";
      desc_link = "QmbLRFj5U6UGTy3o9Zt8jEnVDuAw2GKzvrrv3RED9wyGRk";
      duration = 86400;
      start_price = 4 * amt_1;
      condition = 1;
    }
    ∷ record {
      name = "iphone 7";
      category = "Cell Phones & Accessories";
      image_link = "QmStqeYPDCTbgKGUwns2nZixC5dBDactoCe1FB8htpmrt1";
      desc_link = "QmbLRFj5U6UGTy3o9Zt8jEnVDuAw2GKzvrrv3RED9wyGRk";
      duration = 86400;
      start_price = 5 * amt_1;
      condition = 1;
    }
    ∷ record {
      name = "Jeans";
      category = "Clothing, Shoes & Accessories";
      image_link = "QmZwfUuHwBhwshGfo4HEvvvZwcdrppas156uNRxEVU3VYr";
      desc_link = "QmbLRFj5U6UGTy3o9Zt8jEnVDuAw2GKzvrrv3RED9wyGRk";
      duration = 86400 + 86400 + 86400;
      start_price = 5 * amt_1;
      condition = 1;
    }
    ∷ []

abbrev pub kept : Store → Option Store → Store
kept s none = s
kept s (some t) = t

module _ (sender current_time : ℕ) where
  -- One call; nobody waits for it, so that one that reverts does not stop those after it.
  abbrev pub add : Entry → Store → Store
  unfolding add_product_to_store
  add e s = kept s (
      add_product_to_store sender e.name e.category e.image_link e.desc_link current_time
        (current_time + e.duration) e.start_price e.condition s)

  abbrev pub add_all : List Entry → Store → Store
  add_all [] s = s
  add_all (e ∷ es) s = add_all es (add e s)

  -- seed.js
  unfoldable pub seed : Store → Store
  seed s = add_all entries s
