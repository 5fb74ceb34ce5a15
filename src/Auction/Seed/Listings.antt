-- ===== src/Auction/Seed/Listings.antt =====
-- seed.js and contracts/EcommerceStore.sol: how the products of the script stand in the store.
use blockchain_tutorial.Prelude.{
  ℕ, zero, suc, ◌+◌, ◌%◌, ◌≤◌, ◌<◌, ◌≡◌, ◌≢◌, ◌⊎◌, inl, inr, refl, sym, ap, ◌∙◌, some, List, [],
  ◌∷◌, arith, get_elem?, length, All, ltb, true,
}
use blockchain_tutorial.Crowdfunding.{word, assign}
use blockchain_tutorial.Auction.{
  Store, Product, open_status, Condition, new_condition, used, product_of,
}
use blockchain_tutorial.Auction.Bidding.{add_product_to_store, listed}
use blockchain_tutorial.Auction.Seed.{Entry, entries, add, add_all, seed}

abbrev IsAcceptable : Entry → Type 0
IsAcceptable e = (0 < e.duration) × (e.condition ≤ 1)

zero_or_one : (n : ℕ) → n ≤ 1 → (n ≡ 0) ⊎ (n ≡ 1)
zero_or_one n h = ground arith

assign_new : {A : Type 0} (f : ℕ → A) (k : ℕ) (v : A) → assign f k v k ≡ v
assign_new f k v = ground arith

assign_old : {A : Type 0} (f : ℕ → A) (k : ℕ) (v : A) (j : ℕ) → j ≢ k → assign f k v j ≡ f j
assign_old f k v j n = ground arith

module _ (sender current_time : ℕ) where
  -- The product of an entry, on sale from the present time on.
  abbrev pub IsOf : Entry → (owner : ℕ) → Product → Type 0
  IsOf e owner p =
      (owner ≡ sender)
      × (p.name ≡ e.name)
      × (p.category ≡ e.category)
      × (p.image_link ≡ e.image_link)
      × (p.desc_link ≡ e.desc_link)
      × (p.auction_start_time ≡ current_time)
      × (p.auction_end_time ≡ current_time + e.duration)
      × (p.start_price ≡ e.start_price)
      × (p.status ≡ open_status)

  abbrev pub IsListed : Entry → ℕ → Store → Type 0
  IsListed e id s = IsOf e (s.product_id_in_store id) (product_of s id)

  moved-IsOf : (e : Entry) (o o' : ℕ) (p p' : Product) → o' ≡ o → p' ≡ p → IsOf e o p → IsOf e o' p'
  moved-IsOf e o o' p p' ho hp h = rw ho (rw hp h)

  abbrev listing : Entry → Condition → Store → Store
  listing e c s =
      listed sender e.name e.category e.image_link e.desc_link current_time
        (current_time + e.duration) e.start_price c s

  abbrev listing_product : Entry → Condition → ℕ → Store → Product
  listing_product e c id s = record {
    id = id;
    name = e.name;
    category = e.category;
    image_link = e.image_link;
    desc_link = e.desc_link;
    auction_start_time = current_time;
    auction_end_time = current_time + e.duration;
    start_price = e.start_price;
    highest_bidder = 0;
    highest_bid = 0;
    second_highest_bid = 0;
    total_bids = 0;
    status = open_status;
    condition = c;
    bids = (s.stores sender id).bids;
  }

  add-listing :
      (e : Entry) (s : Store)
      → IsAcceptable e
      → (c : Condition) × (add sender current_time e s ≡ listing e c s)
  unfolding add_product_to_store
  add-listing e s (d, k) =
      let earlier : ltb current_time (current_time + e.duration) ≡ true = ground arith in
      elim (zero_or_one e.condition k) [
        | inl new ↦ (new_condition, rw earlier (rw new refl))
        | inr old ↦ (used, rw earlier (rw old refl))
      ]

  product_of-listing :
      (e : Entry) (c : Condition) (s : Store)
      → product_of (listing e c s) ((s.product_index + 1) % word)
        ≡ listing_product e c ((s.product_index + 1) % word) s
  product_of-listing e c s =
      let id = (s.product_index + 1) % word in
      rw (assign_new s.product_id_in_store id sender) (
        rw (assign_new s.stores sender (assign (s.stores sender) id (listing_product e c id s)))
          (assign_new (s.stores sender) id (listing_product e c id s)))

  listing_old :
      (e : Entry) (c : Condition) (s : Store) (j : ℕ)
      → j ≢ (s.product_index + 1) % word
      → ((listing e c s).product_id_in_store j ≡ s.product_id_in_store j)
        × (product_of (listing e c s) j ≡ product_of s j)
  listing_old e c s j n = (ground arith, ground arith)

  -- The place of the next product, while there is room.
  next_place :
      (s : Store) (n : ℕ)
      → s.product_index + suc n < word
      → (s.product_index + 1) % word ≡ s.product_index + 1
  next_place s n h = omega arith

  add_index :
      (e : Entry) (s : Store)
      → IsAcceptable e
      → (add sender current_time e s).product_index ≡ (s.product_index + 1) % word
  add_index e s a = let (c, p) = add-listing e s a in ap (λ t. t.product_index) p

  add_old :
      (e : Entry) (s : Store) (j : ℕ)
      → IsAcceptable e
      → j ≢ (s.product_index + 1) % word
      → ((add sender current_time e s).product_id_in_store j ≡ s.product_id_in_store j)
        × (product_of (add sender current_time e s) j ≡ product_of s j)
  add_old e s j a n = let (c, p) = add-listing e s a in rw p (listing_old e c s j n)

  add-IsListed :
      (e : Entry) (s : Store)
      → IsAcceptable e
      → IsListed e ((s.product_index + 1) % word) (add sender current_time e s)
  add-IsListed e s a =
      let (c, p) = add-listing e s a in
      let id = (s.product_index + 1) % word in
      moved-IsOf e sender _ (listing_product e c id s) _
        (ap (λ t. t.product_id_in_store id) p ∙ assign_new s.product_id_in_store id sender)
        (ap (λ t. product_of t id) p ∙ product_of-listing e c s)
        (refl, refl, refl, refl, refl, refl, refl, refl, refl)

  add_all_index :
      (es : List Entry) (s : Store)
      → All IsAcceptable es
      → s.product_index + length es < word
      → (add_all sender current_time es s).product_index ≡ s.product_index + length es
  add_all_index [] s a h = omega arith
  add_all_index (e ∷ es) s (a, as') h =
      let i = add_index e s a in
      let n = next_place s (length es) h in
      let rest = add_all_index es (add sender current_time e s) as' (omega (arith, i, n)) in
      omega (arith, i, n, rest)

  add_all_old :
      (es : List Entry) (s : Store) (j : ℕ)
      → All IsAcceptable es
      → s.product_index + length es < word
      → j ≤ s.product_index
      → ((add_all sender current_time es s).product_id_in_store j ≡ s.product_id_in_store j)
        × (product_of (add_all sender current_time es s) j ≡ product_of s j)
  add_all_old [] s j a h k = (refl, refl)
  add_all_old (e ∷ es) s j (a, as') h k =
      let i = add_index e s a in
      let n = next_place s (length es) h in
      let one = add_old e s j a (λ q. omega (arith, q, n, k)) in
      let rest =
        add_all_old es (add sender current_time e s) j as' (omega (arith, i, n))
          (omega (arith, i, n, k)) in
      (rest.0 ∙ one.0, rest.1 ∙ one.1)

  add_all-IsListed :
      (es : List Entry) (s : Store) (i : ℕ) (e : Entry)
      → All IsAcceptable es
      → s.product_index + length es < word
      → get_elem? es i ≡ some e
      → IsListed e (s.product_index + suc i) (add_all sender current_time es s)
  add_all-IsListed [] s i e a h g = ground arith
  add_all-IsListed (d ∷ es) s zero e (a, as') h g =
      let here = add_index d s a in
      let n = next_place s (length es) h in
      let id = s.product_index + 1 in
      let old =
        add_all_old es (add sender current_time d s) id as' (omega (arith, here, n))
          (omega (arith, here, n)) in
      let new : IsListed d id (add sender current_time d s) = rw (sym n) (add-IsListed d s a) in
      let same : e ≡ d = ground arith in rw same (moved-IsOf d _ _ _ _ old.0 old.1 new)
  add_all-IsListed (d ∷ es) s (suc i) e (a, as') h g =
      let here = add_index d s a in
      let n = next_place s (length es) h in
      let rest =
        add_all-IsListed es (add sender current_time d s) i e as' (omega (arith, here, n)) g in
      let place : (add sender current_time d s).product_index + suc i
          ≡ s.product_index + suc (suc i) =
        omega (arith, here, n) in
      rw place at rest

-- The script, if its six calls reach the contract in the order of the script with no other call
-- between them, where six more products still have numbers below 2^256: the number of the last
-- product grows by six; the product of the call that comes after i others has the number i + 1
-- after the one that was last, and stands there as the sender's, with the name, category, links and
-- price of the call, open, from the present time until the duration of the call later; and the
-- products up to the one that was last are as they were.
pub seed_lists :
    (sender current_time : ℕ) (s : Store) (i : ℕ) (e : Entry) (id : ℕ)
    → s.product_index + 6 < word
    → get_elem? entries i ≡ some e
    → id ≤ s.product_index
    → ((seed sender current_time s).product_index ≡ s.product_index + 6)
      × IsListed sender current_time e (s.product_index + suc i) (seed sender current_time s)
      × (product_of (seed sender current_time s) id ≡ product_of s id)
unfolding seed
seed_lists sender current_time s i e id h g k =
    let good : All IsAcceptable entries = ground arith in
    (
      add_all_index sender current_time entries s good h,
      add_all-IsListed sender current_time entries s i e good h g,
      (add_all_old sender current_time entries s id good h k).1,
    )
