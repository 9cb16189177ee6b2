-- ===== src/Oracle/Priced.antt =====
-- A round of the updater with an oracle that answers every item.
use mathlib.Core.Path.{subst}
use dragon_market.Base.{
  ℕ, ℤ, pos, suc, zero, ◌≤◌, ◌<◌, ◌≡◌, refl, sym, ◌∙◌, ap, inl, inr, ◌⊎◌, false, Option, some, List,
  [], ◌∷◌, ◌==◌, arith, Bool-cases, ==→eq,
}
use dragon_market.Repository.Tables.{select}
use dragon_market.Repository.Rows.{Item, ItemRarity}
use dragon_market.Repository.Db.{Db, int4_max}
use dragon_market.Repository.Items
use dragon_market.Repository.Items.{put_price, rarity_eq}
use dragon_market.Oracle.{GoCache, cache_get, cache_set, refresh_item, refresh_all, update_prices}
use dragon_market.Oracle.Cache.{cache_get-cache_set, cache_get-cache_set_other}
use dragon_market.Oracle.Round.{price_stored, after_write}
use dragon_market.Oracle.Mock.{get_price, ticker_oracle, get_price-near}

module _ (g : GoCache) (low high : ℕ) where
  -- The cached price of an item is within the bounds.
  abbrev pub Priced : g.State × Db → ℕ → Type 0
  Priced x id = (p : ℕ) × (cache_get g x.0 id ≡ some p) × (low ≤ p) × (p ≤ high)

  -- Every item of the list is priced at the end.
  abbrev pub AllPriced : g.State × Db → List Item → Type 0
  AllPriced x [] = Unit
  AllPriced x (i ∷ rest) = Priced x i.id × AllPriced x rest

module _ (g : GoCache) (low high : ℕ) (answers : ℕ → Option ℤ) (above_zero : 0 < low)
    (fit : high ≤ int4_max)
    (answered : (id : ℕ) → (n : ℕ) × (answers id ≡ some (pos n)) × (low ≤ n) × (n ≤ high)) where
  refreshed :
      (id n t : ℕ) (c : g.State) (d : Db)
      → low ≤ n
      → n ≤ high
      → refresh_item g (some (pos n)) id t (c, d) ≡ (cache_set g c id n, put_price id n d)
  unfolding refresh_item
  refreshed id zero t c d l h = absurd (omega arith)
  refreshed id (suc m) t c d l h =
      ap (after_write g c id (suc m)) (price_stored id (suc m) t d (ground arith))

  set-Priced :
      (id n j : ℕ) (c : g.State) (d d' : Db)
      → low ≤ n
      → n ≤ high
      → Priced g low high (c, d) j ⊎ (j ≡ id)
      → Priced g low high (cache_set g c id n, d') j
  set-Priced id n j c d d' l h k = elim (Bool-cases (j == id)) [
    | inl hit ↦ (
      n,
      subst (λ i. cache_get g (cache_set g c id n) i ≡ some n) (sym (==→eq j id hit))
          (cache_get-cache_set g c id n),
      l,
      h,
    )
    | inr miss ↦ elim k [
      | inl (p, e, a, b) ↦ (p, cache_get-cache_set_other g c id n j (ground arith) ∙ e, a, b)
      | inr same ↦ absurd (ground arith)
    ]
  ]

  refresh_item-Priced :
      (id t j : ℕ) (x : g.State × Db)
      → Priced g low high x j ⊎ (j ≡ id)
      → Priced g low high (refresh_item g (answers id) id t x) j
  refresh_item-Priced id t j (c, d) k =
      let (n, e, l, h) = answered id in
      subst (λ y. Priced g low high y j)
        (sym (ap (λ a. refresh_item g a id t (c, d)) e ∙ refreshed id n t c d l h))
        (set-Priced id n j c d (put_price id n d) l h k)

  refresh_all-Priced :
      (items : List Item) (t j : ℕ) (x : g.State × Db)
      → Priced g low high x j
      → Priced g low high (refresh_all g answers items t x) j
  unfolding refresh_all
  refresh_all-Priced [] t j x k = k
  refresh_all-Priced (i ∷ rest) t j x k =
      refresh_all-Priced rest t j _ (refresh_item-Priced i.id t j x (inl k))

  refresh_all-AllPriced :
      (items : List Item) (t : ℕ) (x : g.State × Db)
      → AllPriced g low high (refresh_all g answers items t x) items
  unfolding refresh_all
  refresh_all-AllPriced [] t x = tt
  refresh_all-AllPriced (i ∷ rest) t x =
      let y = refresh_item g (answers i.id) i.id t x in
      (
        refresh_all-Priced rest t i.id y (refresh_item-Priced i.id t i.id x (inr refl)),
        refresh_all-AllPriced rest t y,
      )

-- After a round of the updater with the oracle that the server starts with, whatever the random
-- numbers, every LEGENDARY item of the table has a cached price, of 7000 to 9000 gold.
pub update_prices-AllPriced :
    (g : GoCache) (random : ℕ → ℕ) (t : ℕ) (x : g.State × Db)
    → AllPriced g 7000 9000
        (update_prices g (λ id. get_price ticker_oracle false (random id) id) t x)
        (select (λ i. rarity_eq i.rarity ItemRarity.legendary) x.1.items)
unfolding update_prices Items.list_by_rarity
update_prices-AllPriced g random t x =
    refresh_all-AllPriced g 7000 9000 _ (omega arith) (omega arith) answered _ t x
  where
    answered :
        (id : ℕ)
        → (n : ℕ) × (get_price ticker_oracle false (random id) id ≡ some (pos n))
          × (7000 ≤ n)
          × (n ≤ 9000)
    answered id =
        let (n, e, l, h) =
          get_price-near ticker_oracle id 8000 1000 refl refl refl (omega arith) (random id) in
        (n, e, omega arith, omega arith)
