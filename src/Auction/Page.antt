-- ===== src/Auction/Page.antt =====
-- app/scripts/index.js: what the page of a product sends, shows and stores. The wallet, the
-- contract and the file store are a parameter, as is the library web3; what the page asks of them,
-- and what it shows, is recorded.
pub mod Details
pub mod Form
pub mod Filled
pub mod Serialized
pub mod Sections
pub mod Start
pub mod Saving
pub mod Saved
use blockchain_tutorial.Prelude.{
  ℕ, ◌+◌, ◌≡◌, Bool, true, false, Option, none, some, List, [], ◌∷◌, ◌++◌, String, ltb, ◌==◌,
  if◌then◌else◌,
}
use blockchain_tutorial.Js.{
  Exception, Outcome, ok, throw, pending, Exec, pure, lift, catch, ◌>>=◌, ◌>>◌,
}
use blockchain_tutorial.Js.Number.{Text, Number, codes, parse_int, to_string, nan, int}
use blockchain_tutorial.Auction.Countdown.{get_current_time, shown, display_end_time}

-- `getProduct`, `highestBidderInfo` and `escrowInfo` as the page gets them.
pub record ProductInfo : Type 0 where
  pub id : ℕ
  pub name : Text
  pub category : Text
  pub image_link : Text
  pub desc_link : Text
  pub auction_start_time : ℕ
  pub auction_end_time : ℕ
  pub start_price : ℕ
  pub status : ℕ
  pub condition : ℕ

pub record BidderInfo : Type 0 where
  pub highest_bidder : Text
  pub highest_bid : ℕ
  pub second_highest_bid : ℕ

pub record EscrowInfo : Type 0 where
  pub seller : Text
  pub buyer : Text
  pub arbiter : Text
  pub funds_disbursed : Bool
  pub release_count : ℕ
  pub refund_count : ℕ

pub data Event : Type 0 where
  -- jQuery on the elements that a selector finds: show, hide, html, append, val
  show hide : String → Event
  html append : String → Text → Event
  val : String → Event
  set_val : String → Text → Event
  alert : String → Event
  reload : Event
  -- `$("#add-item-to-store").serialize()`, and `event.preventDefault()`
  serialize prevent_default : Event
  -- the contract, and its calls
  deployed : Event
  get_product highest_bidder_info escrow_info : Option Text → Event
  send_bid : (product_id : Number) (sealed : ℕ) (from : Option Text) (value : Text) → Event
  send_reveal : (product_id : Number) (amount secret : Text) (from : Option Text) → Event
  send_finalize : (product_id : Number) (from : Option Text) → Event
  send_release send_refund : (product_id : Option Text) (from : Option Text) → Event
  send_product :
      (name category image_id desc_id : Text) (start end : Number) (price : Text)
      (condition : Number) (from : Option Text)
      → Event
  -- the file store
  cat add : Text → Event

abbrev pub Reply : Event → Type 0
Reply (val _) = Text
Reply serialize = Text
Reply (get_product _) = ProductInfo
Reply (highest_bidder_info _) = BidderInfo
Reply (escrow_info _) = EscrowInfo
Reply (cat _) = Text
Reply (add _) = Text
Reply _ = Unit

-- The surroundings of the page: the answers, the clock in milliseconds, the parameter `id` of the
-- address, `web3.eth.accounts[0]`, and the functions of web3. `toWei` of a text is a text.
pub record Surroundings : Type 0 where
  pub answer : List Event → (c : Event) → Outcome Exception (Reply c)
  pub clock : List Event → ℕ
  pub url_id : Option Text
  pub account : List Event → Option Text
  pub to_wei : Text → Outcome Exception Text
  pub from_wei : ℕ → Text
  pub sha3 : Text → ℕ
  -- `Date.parse(s)/1000`, for a time without fractions of a second
  pub date_seconds : Text → Number

abbrev pub Action : Type 0 → Type 0
Action = Exec Event Exception

abbrev pub ask : Surroundings → (c : Event) → Action (Reply c)
ask w c t = (w.answer t c, c ∷ t)

-- The page's own effects do not fail.
abbrev pub effect : Event → Action Unit
effect c t = (ok tt, c ∷ t)

-- A chain of promises that nobody waits for: how it ends is not noticed. The record has its
-- requests where the chain is started.
abbrev pub start : Action Unit → Action Unit
start m t = (ok tt, (m t).1)

module _ (w : Surroundings) where
  abbrev pub account : Action (Option Text)
  account t = (ok (w.account t), t)

  abbrev pub clock : Action ℕ
  clock t = (ok (w.clock t), t)

  -- `web3.sha3(web3.toWei(amount,'ether').toString() + secretText)`
  abbrev pub sealed_bid : Text → Text → Outcome Exception ℕ
  sealed_bid amount secret = elim (w.to_wei amount) [
    | ok wei ↦ ok (w.sha3 (wei ++ secret))
    | throw e ↦ throw e
    | pending ↦ pending
  ]

  -- The handler of the form `bidding`.
  unfoldable pub bid_submitted : Action Unit
  bid_submitted = do
    effect (hide "#msg")
    amount ← ask w (val "#bid-amount")
    send_amount ← ask w (val "#bid-send-amount")
    secret ← ask w (val "#secret-text")
    product_id ← ask w (val "#product-id")
    sealed ← lift (sealed_bid amount secret)
    start (do
      ask w deployed
      from ← account
      value ← lift (w.to_wei send_amount)
      ask w (send_bid (parse_int product_id) sealed from value)
      effect (html "#msg" (codes "Your bid has been successfully submitted!"))
      effect (show "#msg"))
    effect prevent_default

  -- The handler of the form `revealing`.
  unfoldable pub reveal_submitted : Action Unit
  reveal_submitted = do
    effect (hide "#msg")
    amount ← ask w (val "#actual-amount")
    secret ← ask w (val "#reveal-secret-text")
    product_id ← ask w (val "#product-id")
    start (do
      ask w deployed
      wei ← lift (w.to_wei amount)
      from ← account
      ask w (send_reveal (parse_int product_id) wei secret from)
      effect (html "#msg" (codes "Your bid has been successfully revealed!"))
      effect (show "#msg"))
    effect prevent_default

  -- The handler of the form `finalize-auction`.
  unfoldable pub finalize_submitted : Action Unit
  finalize_submitted = do
    effect (hide "#msg")
    product_id ← ask w (val "#product-id")
    start (do
      ask w deployed
      from ← account
      catch
          (do
            ask w (send_finalize (parse_int product_id) from)
            effect (html "#msg" (codes "The auction has been finalized and winner declared."))
            effect (show "#msg")
            effect reload)
          (λ e. do
            effect (
                html "#msg" (
                  codes
                    "The auction can not be finalized by the buyer or seller, only a third party aribiter can finalize it"))
            effect (show "#msg")))
    effect prevent_default

  -- The handlers of the buttons `release-funds` and `refund-funds`.
  unfoldable pub release_clicked : Action Unit
  release_clicked = start (do
    ask w deployed
    effect (
        html "#msg" (
          codes
            "Your transaction has been submitted. Please wait for few seconds for the confirmation"))
    effect (show "#msg")
    from ← account
    catch (do ask w (send_release w.url_id from); effect reload) (λ e. pure tt))

  unfoldable pub refund_clicked : Action Unit
  refund_clicked = do
    start (do
      ask w deployed
      effect (
          html "#msg" (
            codes
              "Your transaction has been submitted. Please wait for few seconds for the confirmation"))
      effect (show "#msg")
      from ← account
      catch (do ask w (send_refund w.url_id from); effect reload) (λ e. pure tt))
    effect (alert "refund funds!")
