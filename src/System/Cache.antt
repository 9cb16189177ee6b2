-- ===== src/System/Cache.antt =====
-- What a request and a sweep leave of the table of items.
use dragon_market.Base.{ℕ, refl, ◌∙◌, List, [], ◌∷◌, ◌&&◌, leb}
use dragon_market.Repository.Tables.{select}
use dragon_market.Repository.Rows.{Auction, auction_active}
use dragon_market.Repository.Db.{Db}
use dragon_market.Repository.Auctions.{item_row}
use dragon_market.Repository.Auctions
use dragon_market.Settlement.{Reading, settle_all, tick}
use dragon_market.Settlement.Sweep.{settle_auction-IsSound}
use dragon_market.ItemService.{purchase_item}
use dragon_market.Auction.{place_bid, cancel_bid}
use dragon_market.Auction.Opening.{create_auction}
use dragon_market.Api.{Request}
use dragon_market.Api.Router.{Dependencies, Route, serve}
use dragon_market.Api.Served.{serve-writes}
use dragon_market.Invariant.{IsSound}
use dragon_market.System.Items.{
  Extends, SameItems, same-Extends, create_item-Extends, purchase_item-items, place_bid-items,
  cancel_bid-items, create_auction-items, settle_auction-items,
}

pub serve-Extends :
    (deps : Dependencies) (route : Route) (req : Request) (d : Db)
    → IsSound d
    → Extends d (serve deps route req d).1
serve-Extends deps route req d s =
    serve-writes deps d (Extends d) (λ id i f. f)
      (λ input. create_item-Extends deps.pool deps.price_cache input deps.begin d)
      (λ input.
        same-Extends d
          (purchase_item deps.pool input deps.begin deps.reserve_now deps.settle_now d).1
          (purchase_item-items deps.pool input deps.begin deps.reserve_now deps.settle_now d s))
      (λ input.
        same-Extends d (create_auction deps.pool deps.price_cache input deps.begin deps.now d).1
          (create_auction-items deps.pool deps.price_cache input deps.begin deps.now d))
      (λ input.
        same-Extends d (place_bid deps.pool input deps.begin deps.now deps.reserve_now d).1
          (place_bid-items deps.pool input deps.begin deps.now deps.reserve_now d s))
      (λ input.
        same-Extends d (cancel_bid deps.pool input deps.begin d).1
          (cancel_bid-items deps.pool input deps.begin d s))
      route req

settle_all-items :
    (readings : ℕ → Reading) (todo : List Auction) (d : Db)
    → IsSound d
    → SameItems d (settle_all readings todo d)
unfolding settle_all
settle_all-items readings [] d s = refl
settle_all-items readings (a ∷ rest) d s =
    settle_all-items readings rest _ (settle_auction-IsSound (readings a.id) a.id d s)
    ∙ settle_auction-items (readings a.id) a.id d s

pub tick-items :
    (readings : ℕ → Reading) (cutoff : ℕ) (d : Db)
    → IsSound d
    → SameItems d (tick readings cutoff d)
unfolding tick Auctions.list_active_ending_before
tick-items readings cutoff d s =
    settle_all-items readings
      (select (λ a. auction_active a.status && leb a.end_time cutoff) d.auctions) d s
