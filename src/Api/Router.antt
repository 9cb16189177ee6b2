-- ===== src/Api/Router.antt =====
-- The router, internal/api/router.go: the services that it builds from its dependencies, and the
-- chain of middleware and handler of each route.
use dragon_market.Base.{ℕ, none}
use dragon_market.Repository.Db.{Db, Connection}
use dragon_market.ItemService.{Prices, create_item, get_item, list_items, purchase_item}
use dragon_market.Auction.{place_bid, cancel_bid}
use dragon_market.Auction.Opening.{create_auction, get_auction, list_active_auctions}
use dragon_market.Wallet.{get_wallet}
use dragon_market.Api.{Body, Response, Request, Handler, ItemService, AuctionService, WalletService}
use dragon_market.Api.Middleware.{require_guild_id, validate_item_id_param, validate_bid_id_param}
use dragon_market.Api.Items
use dragon_market.Api.Auctions
use dragon_market.Api.Wallets

-- What the connections do while a request is served, the price cache at that time, the start of the
-- request's transaction, and the readings of time.Now() by the service and by Reserve and Settle.
pub record Dependencies : Type 0 where
  pub pool : Connection
  pub price_cache : Prices
  pub begin : ℕ
  pub now : ℕ
  pub reserve_now : ℕ
  pub settle_now : ℕ

abbrev pub new_item_service : Dependencies → ItemService
new_item_service deps = record {
  create_item = λ input. create_item deps.pool deps.price_cache input deps.begin;
  get_item = λ id. get_item deps.price_cache id deps.begin;
  list_items = λ limit offset. list_items deps.price_cache limit offset deps.begin;
  purchase_item =
      λ input. purchase_item deps.pool input deps.begin deps.reserve_now deps.settle_now;
}

abbrev pub new_auction_service : Dependencies → AuctionService
new_auction_service deps = record {
  create_auction = λ input. create_auction deps.pool deps.price_cache input deps.begin deps.now;
  get_auction = λ id. get_auction id deps.begin;
  list_active_auctions = λ limit offset. list_active_auctions limit offset deps.begin;
  place_bid = λ input. place_bid deps.pool input deps.begin deps.now deps.reserve_now;
  cancel_bid = λ input. cancel_bid deps.pool input deps.begin;
}

abbrev pub new_wallet_service : Dependencies → WalletService
new_wallet_service deps = record {
  get_wallet = λ guild_id. get_wallet guild_id deps.now deps.begin;
}

pub data Route : Type 0 where
  health_get : Route
  items_post items_get item_get purchase_post : Route
  auctions_post auctions_get auction_get : Route
  bid_post bid_delete : Route
  wallet_get : Route

abbrev health_handler : Handler
health_handler c d = (record { status = 200; body = Body.health }, d)

unfoldable pub handlers : Dependencies → Route → Handler
handlers deps Route.health_get = health_handler
handlers deps Route.items_post = Items.create (new_item_service deps)
handlers deps Route.items_get = Items.list (new_item_service deps)
handlers deps Route.item_get = Items.get (new_item_service deps)
handlers deps Route.purchase_post =
    validate_item_id_param (require_guild_id (Items.purchase (new_item_service deps)))
handlers deps Route.auctions_post = require_guild_id (Auctions.create (new_auction_service deps))
handlers deps Route.auctions_get = Auctions.list (new_auction_service deps)
handlers deps Route.auction_get = Auctions.get (new_auction_service deps)
handlers deps Route.bid_post =
    validate_item_id_param (require_guild_id (Auctions.place_bid (new_auction_service deps)))
handlers deps Route.bid_delete =
    validate_item_id_param
      (validate_bid_id_param (require_guild_id (Auctions.cancel_bid (new_auction_service deps))))
handlers deps Route.wallet_get = Wallets.get (new_wallet_service deps)

-- A request that gin has found the route of.
unfoldable pub serve : Dependencies → Route → Request → Db → Response × Db
serve deps route req = handlers deps route (record { request = req; guild = none })
