-- ===== src/Oracle/Cache.antt =====
-- The cache under the ids of items, internal/oracle/cache.go.
use dragon_market.Base.{ℕ, ◌≡◌, ◌≢◌, some}
use dragon_market.Strconv.RoundTrip.{format_int-injective}
use dragon_market.Oracle.{GoCache, key, cache_get, cache_set}

module _ (g : GoCache) (c : g.State) (id price : ℕ) where
  pub cache_get-cache_set : cache_get g (cache_set g c id price) id ≡ some price
  unfolding cache_get cache_set
  cache_get-cache_set = g.get-set c (key id) price

  pub cache_get-cache_set_other :
      (j : ℕ) → j ≢ id → cache_get g (cache_set g c id price) j ≡ cache_get g c j
  unfolding cache_get cache_set
  cache_get-cache_set_other j apart =
      g.get-set_other c (key j) (key id) price (λ same. apart (format_int-injective j id same))
