-- ===== src/System/Final.antt =====
-- The fates of auctions and bids over a run of the program.
use dragon_market.Repository.Db.{Db}
use dragon_market.Oracle.{GoCache, cache_get}
use dragon_market.Api.{Request}
use dragon_market.Api.Router.{Dependencies, Route, serve}
use dragon_market.Api.Served.{serve-writes}
use dragon_market.Invariant.{IsSound}
use dragon_market.Invariant.History.{Ages, Ages-refl, Ages-trans}
use dragon_market.System.{Event, step, Reach}
use dragon_market.System.Reachable.{Reach-keeps}
use dragon_market.System.History.{
  create_item-Ages, purchase_item-Ages, create_auction-Ages, place_bid-Ages, cancel_bid-Ages,
  tick-Ages, update_prices-Ages,
}

serve-Ages :
    (deps : Dependencies) (route : Route) (req : Request) (d : Db)
    → IsSound d
    → Ages d (serve deps route req d).1
serve-Ages deps route req d s =
    serve-writes deps d (Ages d) (Ages-refl d)
      (λ input. create_item-Ages deps.pool deps.price_cache input deps.begin d)
      (λ input. purchase_item-Ages deps.pool input deps.begin deps.reserve_now deps.settle_now d s)
      (λ input. create_auction-Ages deps.pool deps.price_cache input deps.begin deps.now d)
      (λ input. place_bid-Ages deps.pool input deps.begin deps.now deps.reserve_now d s)
      (λ input. cancel_bid-Ages deps.pool input deps.begin d s) route req

module _ (g : GoCache) where
  step-Ages : (e : Event) (x : g.State × Db) → IsSound x.1 → Ages x.1 (step g e x).1
  unfolding step
  step-Ages (Event.request deps route req) (c, d) s =
      serve-Ages (record deps { price_cache = cache_get g c }) route req d s
  step-Ages (Event.sweep readings cutoff) (c, d) s = tick-Ages readings cutoff d s
  step-Ages (Event.refresh answers t) x s = update_prices-Ages g answers t x

  -- Whatever requests come in, and however they, the sweeps and the rounds of the updater follow on
  -- each other, from a sound database: every bid is still there at the end, as it was, or with a
  -- status that is not ACTIVE where it was ACTIVE; every auction is still there, as it was, or with
  -- another status or a later end where it was ACTIVE.
  pub Reach-Ages : (x y : g.State × Db) → Reach g x y → IsSound x.1 → Ages x.1 y.1
  Reach-Ages x _ Reach.start s = Ages-refl x.1
  Reach-Ages x _ (Reach.after y e r) s =
      Ages-trans x.1 y.1 (step g e y).1 (Reach-Ages x y r s)
        (step-Ages e y (Reach-keeps g x y r s).0)
