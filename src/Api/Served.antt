-- ===== src/Api/Served.antt =====
-- What every request leaves of the database, through the router and the services that it builds.
use Prim.Native.String.{String}
use mathlib.Core.Path.{subst}
use dragon_market.Repository.Tables.{select}
use dragon_market.Repository.Rows.{auction_active}
use dragon_market.Base.{Option-cases, ℕ, ℤ, ◌≤◌, ◌≡◌, refl, sym, arith}
use dragon_market.Repository.Db.{Db, Result, ok, err}
use dragon_market.Repository.Items
use dragon_market.Repository.Auctions
use dragon_market.Repository.Guilds
use dragon_market.Repository.GoldPouches
use dragon_market.ItemService.{
  limit_of, offset_of, Prices, CreateItemInput, PurchaseInput, create_item, purchase_item, get_item,
  list_items,
}
use dragon_market.ItemService.Beside.{create_item-IsSound, create_item-gold}
use dragon_market.ItemService.Sales.{purchase_item-keeps}
use dragon_market.Auction.{PlaceBidInput, CancelBidInput, place_bid, cancel_bid}
use dragon_market.Auction.Sound.{place_bid-IsSound}
use dragon_market.Auction.Cancelling.{cancel_bid-IsSound}
use dragon_market.Auction.Gold.{SameGold, place_bid-gold, cancel_bid-gold, create_auction-gold}
use dragon_market.Auction.Opening.{
  page, CreateAuctionInput, create_auction, get_auction, list_active_auctions,
}
use dragon_market.Auction.Opening.Opened.{create_auction-IsSound}
use dragon_market.Wallet.{get_wallet}
use dragon_market.Invariant.{IsSound}
use dragon_market.Api.{Response, Request, Context, Body}
use dragon_market.Api.Errors.{write_error, respond}
use dragon_market.Api.Router.{
  Dependencies, Route, new_item_service, new_auction_service, new_wallet_service, handlers, serve,
}
use dragon_market.Api.Answers.{
  IsSuccess, ItemLaws, AuctionLaws, WalletLaws, validate_item_id_param-rule,
  validate_bid_id_param-rule, require_guild_id-rule, items-create-rule, items-list-rule,
  items-get-rule, items-purchase-rule, auctions-create-rule, auctions-list-rule, auctions-get-rule,
  auctions-place_bid-rule, auctions-cancel_bid-rule, wallets-get-rule,
}

-- The calls that only read.
pub get_item-reads : (prices : Prices) (id t : ℕ) (d : Db) → (get_item prices id t d).1 ≡ d
unfolding get_item Items.get_by_id
get_item-reads prices id t d = ground arith

pub list_items-reads :
    (prices : Prices) (limit offset : ℤ) (t : ℕ) (d : Db)
    → (list_items prices limit offset t d).1 ≡ d
unfolding list_items Items.list
list_items-reads prices limit offset t d = ground arith

pub get_auction-reads : (id t : ℕ) (d : Db) → (get_auction id t d).1 ≡ d
unfolding get_auction Auctions.get_by_id
get_auction-reads id t d = ground arith

pub list_active_auctions-reads :
    (limit offset : ℤ) (t : ℕ) (d : Db) → (list_active_auctions limit offset t d).1 ≡ d
unfolding list_active_auctions Auctions.list_active
list_active_auctions-reads limit offset t d = ground (
  arith,
  Option-cases
      (page (offset_of offset) (limit_of limit) (select (λ a. auction_active a.status) d.auctions)),
)

pub get_wallet-reads : (g now t : ℕ) (d : Db) → (get_wallet g now t d).1 ≡ d
unfolding get_wallet Guilds.get_by_id GoldPouches.get_by_guild_id
get_wallet-reads g now t d = ground arith

module _ (d : Db) (R : (A : Type 0) → Result A × Db → Type 0) (Q : Response × Db → Type 0)
    (refused : (status : ℕ) (code : String) → 400 ≤ status → Q (write_error status code, d))
    (answered : (A : Type 0) (answer : A → Response) (r : Result A × Db)
      → IsSuccess answer
      → R A r
      → Q (respond answer r))
    (deps : Dependencies) (items : ItemLaws d R (new_item_service deps))
    (auctions : AuctionLaws d R (new_auction_service deps))
    (wallets : WalletLaws d R (new_wallet_service deps))
    (healthy : Q (record { status = 200; body = Body.health }, d)) where
  handlers-rule : (route : Route) (c : Context) → Q (handlers deps route c d)
  unfolding handlers
  handlers-rule Route.health_get c = healthy
  handlers-rule Route.items_post c = items-create-rule d R Q refused answered _ items c
  handlers-rule Route.items_get c = items-list-rule d R Q refused answered _ items c
  handlers-rule Route.item_get c = items-get-rule d R Q refused answered _ items c
  handlers-rule Route.purchase_post c = validate_item_id_param-rule d R Q refused answered _ c (
      require_guild_id-rule d R Q refused answered _ c
        (items-purchase-rule d R Q refused answered _ items))
  handlers-rule Route.auctions_post c =
      require_guild_id-rule d R Q refused answered _ c
        (auctions-create-rule d R Q refused answered _ auctions)
  handlers-rule Route.auctions_get c = auctions-list-rule d R Q refused answered _ auctions c
  handlers-rule Route.auction_get c = auctions-get-rule d R Q refused answered _ auctions c
  handlers-rule Route.bid_post c = validate_item_id_param-rule d R Q refused answered _ c (
      require_guild_id-rule d R Q refused answered _ c
        (auctions-place_bid-rule d R Q refused answered _ auctions))
  handlers-rule Route.bid_delete c = validate_item_id_param-rule d R Q refused answered _ c (
      validate_bid_id_param-rule d R Q refused answered _ c (
        require_guild_id-rule d R Q refused answered _ c
          (auctions-cancel_bid-rule d R Q refused answered _ auctions)))
  handlers-rule Route.wallet_get c = wallets-get-rule d R Q refused answered _ wallets c

  pub serve-rule : (route : Route) (req : Request) → Q (serve deps route req d)
  unfolding serve
  serve-rule route req = handlers-rule route _

pub respond-state :
    (A : Type 0) (answer : A → Response) (r : Result A × Db) → (respond answer r).1 ≡ r.1
unfolding respond
respond-state A answer (ok a, x) = refl
respond-state A answer (err e, x) = refl

-- A statement on the state after a request, by what it is after the calls that write.
module _ (deps : Dependencies) (d : Db) (P : Db → Type 0) (before : P d) where
  read_only : (x : Db) → x ≡ d → P x
  read_only x e = subst P (sym e) before

  pub serve-writes :
      ((input : CreateItemInput) → P (create_item deps.pool deps.price_cache input deps.begin d).1)
      → ((input : PurchaseInput)
          → P (purchase_item deps.pool input deps.begin deps.reserve_now deps.settle_now d).1)
      → ((input : CreateAuctionInput)
          → P (create_auction deps.pool deps.price_cache input deps.begin deps.now d).1)
      → ((input : PlaceBidInput)
          → P (place_bid deps.pool input deps.begin deps.now deps.reserve_now d).1)
      → ((input : CancelBidInput) → P (cancel_bid deps.pool input deps.begin d).1)
      → (route : Route) (req : Request) → P (serve deps route req d).1
  serve-writes created bought opened bidden cancelled route req =
      serve-rule d (λ A r. P r.1) (λ x. P x.1) (λ status code h. before)
        (λ A answer r _ k. subst P (sym (respond-state A answer r)) k) deps
        (record {
          create_item = created;
          get_item = λ id. read_only _ (get_item-reads deps.price_cache id deps.begin d);
          list_items = λ l o. read_only _ (list_items-reads deps.price_cache l o deps.begin d);
          purchase_item = bought;
        })
        (record {
          create_auction = opened;
          get_auction = λ id. read_only _ (get_auction-reads id deps.begin d);
          list_active_auctions = λ l o. read_only _ (list_active_auctions-reads l o deps.begin d);
          place_bid = bidden;
          cancel_bid = cancelled;
        })
        (record { get_wallet = λ g. read_only _ (get_wallet-reads g deps.now deps.begin d) }) before
        route req

module _ (deps : Dependencies) (d : Db) where
  -- A request, on whichever route and with whatever in it, keeps a sound database sound and neither
  -- makes nor loses gold.
  pub serve-keeps :
      (route : Route) (req : Request)
      → IsSound d
      → IsSound (serve deps route req d).1 × SameGold d (serve deps route req d).1
  serve-keeps route req s =
      serve-writes deps d (λ x. IsSound x × SameGold d x) (s, refl)
        (λ input. (
          create_item-IsSound deps.pool deps.price_cache input deps.begin d s,
          create_item-gold deps.pool deps.price_cache input deps.begin d,
        ))
        (λ input.
          purchase_item-keeps deps.pool input deps.begin deps.reserve_now deps.settle_now d s)
        (λ input. (
          create_auction-IsSound deps.pool deps.price_cache input deps.begin deps.now d s,
          create_auction-gold deps.pool deps.price_cache input deps.begin deps.now d,
        ))
        (λ input. (
          place_bid-IsSound deps.pool input deps.begin deps.now deps.reserve_now d s,
          place_bid-gold deps.pool input deps.begin deps.now deps.reserve_now d s,
        ))
        (λ input. (
          cancel_bid-IsSound deps.pool input deps.begin d s,
          cancel_bid-gold deps.pool input deps.begin d s,
        ))
        route req
