-- ===== src/System.antt =====
-- The program as a whole, cmd/server/main.go: one database and one price cache, which the requests
-- to the API, the sweeps of the settlement and the rounds of the price updater share. A transaction
-- holds its locks to its end, so what runs at the same time is taken in some order.
pub mod Reachable
pub mod Items
pub mod Cache
pub mod Truth
pub mod History
pub mod Final
use dragon_market.Base.{ℕ, ℤ, Option}
use dragon_market.Repository.Db.{Db}
use dragon_market.Oracle.{GoCache, cache_get, update_prices}
use dragon_market.Settlement.{Reading, tick}
use dragon_market.Api.{Request}
use dragon_market.Api.Router.{Dependencies, Route, serve}

-- What happens next: a request with what it meets, a sweep with its readings and its cutoff, or a
-- round of the updater with the oracle's answers.
pub data Event : Type 0 where
  request : Dependencies → Route → Request → Event
  sweep : (ℕ → Reading) → ℕ → Event
  refresh : (ℕ → Option ℤ) → ℕ → Event

module _ (g : GoCache) where
  -- A request's service reads the prices that the updater has cached.
  unfoldable pub step : Event → g.State × Db → g.State × Db
  step (Event.request deps route req) (c, d) =
      (c, (serve (record deps { price_cache = cache_get g c }) route req d).1)
  step (Event.sweep readings cutoff) (c, d) = (c, tick readings cutoff d)
  step (Event.refresh answers t) x = update_prices g answers t x

  -- The states that the program comes to from x.
  pub data Reach (x : g.State × Db) : g.State × Db → Type 0 where
    start : Reach x x
    after : (y : g.State × Db) (e : Event) → Reach x y → Reach x (step e y)
