-- ===== src/Oracle.antt =====
-- The price oracle, internal/oracle: the cache and one round of the updater. The cache stands on a
-- store of the package go-cache, a parameter; the source of prices is an answer for each item.
pub mod Cache
pub mod Mock
pub mod Round
pub mod Priced
use dragon_market.Base.{ℕ, ℤ, pos, positive, ◌≡◌, ◌≢◌, Option, none, some, List, [], ◌∷◌}
use dragon_market.Strconv.{Text, format_int}
use dragon_market.Repository.Rows.{Item, ItemRarity}
use dragon_market.Repository.Db.{Db, ok, err}
use dragon_market.Repository.Items

-- A go-cache without expiration, by its Get and Set under a key, as it documents them.
pub record GoCache : Type 1 where
  pub State : Type 0
  pub get : State → Text → Option ℕ
  pub set : State → Text → ℕ → State
  pub get-set : (c : State) (k : Text) (v : ℕ) → get (set c k v) k ≡ some v
  pub get-set_other : (c : State) (j k : Text) (v : ℕ) → j ≢ k → get (set c k v) j ≡ get c j

-- Cache: an item's price under its id in decimal.
abbrev pub key : ℕ → Text
key item_id = format_int (pos item_id)

unfoldable pub cache_get : (g : GoCache) → g.State → ℕ → Option ℕ
cache_get g c item_id = g.get c (key item_id)

unfoldable pub cache_set : (g : GoCache) → g.State → ℕ → ℕ → g.State
cache_set g c item_id price = g.set c (key item_id) price

-- refreshItem, with the oracle's answer, none for an error or a timeout. A statement that fails
-- leaves the last known-good price.
unfoldable pub refresh_item : (g : GoCache) → Option ℤ → ℕ → ℕ → g.State × Db → g.State × Db
refresh_item g none id t (c, d) = (c, d)
refresh_item g (some answer) id t (c, d) = elim (positive answer) [
  | none ↦ (c, d)
  | some price ↦
      (let (r, d') = Items.update_price id price t d in
        elim r [ ok _ ↦ (cache_set g c id price, d') | err _ ↦ (c, d') ])
]

unfoldable pub refresh_all :
    (g : GoCache) → (ℕ → Option ℤ) → List Item → ℕ → g.State × Db → g.State × Db
refresh_all g answers [] t x = x
refresh_all g answers (item ∷ rest) t x =
    refresh_all g answers rest t (refresh_item g (answers item.id) item.id t x)

-- Tick, where the listing of the items succeeds.
unfoldable pub update_prices : (g : GoCache) → (ℕ → Option ℤ) → ℕ → g.State × Db → g.State × Db
update_prices g answers t x = elim (Items.list_by_rarity ItemRarity.legendary t x.1).0 [
  | ok items ↦ refresh_all g answers items t x
  | err _ ↦ x
]
