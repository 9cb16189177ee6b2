-- ===== src/Oracle/Round.antt =====
-- What a round of the updater does to a price, and what it leaves of the database.
use mathlib.Core.Path.{subst}
use dragon_market.Base.{
  ℕ, ℤ, zero, suc, pos, negsuc, ◌≡◌, refl, sym, inl, inr, true, false, not, Option, none, some,
  List, [], ◌∷◌, Bool-cases,
}
use dragon_market.Repository.Rows.{Item}
use dragon_market.Repository.Db.{Db, Result, Error, ok, err, fits}
use dragon_market.Repository.Items
use dragon_market.Repository.Items.{put_price, rarity_eq}
use dragon_market.Oracle.{cache_set, GoCache, refresh_item, refresh_all, update_prices}
use dragon_market.GoldPouch.Effects.{total_gold}
use dragon_market.Invariant.{IsSound}
use dragon_market.Invariant.Side.{beside-IsSound}

pub price_refused :
    (id n t : ℕ) (d : Db)
    → not (fits n) ≡ true
    → Items.update_price id n t d ≡ (err Error.driver, d)
unfolding Items.update_price
price_refused id n t d large = rw large refl

pub price_stored :
    (id n t : ℕ) (d : Db)
    → not (fits n) ≡ false
    → Items.update_price id n t d ≡ (ok tt, put_price id n d)
unfolding Items.update_price
price_stored id n t d small = rw small refl

module _ (g : GoCache) where
  -- After the statement that stores the price.
  abbrev pub after_write : g.State → ℕ → ℕ → Result (Unit {0}) × Db → g.State × Db
  after_write c id price r = elim r.0 [ ok _ ↦ (cache_set g c id price, r.1) | err _ ↦ (c, r.1) ]

-- What no price changes, a round does not change.
module _ (g : GoCache) (P : Db → Type 0)
    (priced : (id n : ℕ) (d : Db) → P d → P (put_price id n d)) where
  refresh_item-rule :
      (answer : Option ℤ) (id t : ℕ) (x : g.State × Db) → P x.1 → P (refresh_item g answer id t x).1
  unfolding refresh_item
  refresh_item-rule none id t x p = p
  refresh_item-rule (some (pos zero)) id t x p = p
  refresh_item-rule (some (negsuc m)) id t x p = p
  refresh_item-rule (some (pos (suc m))) id t (c, d) p = elim (Bool-cases (not (fits (suc m)))) [
    | inl large ↦
        subst (λ r. P (after_write g c id (suc m) r).1) (sym (price_refused id (suc m) t d large)) p
    | inr small ↦
        subst (λ r. P (after_write g c id (suc m) r).1) (sym (price_stored id (suc m) t d small))
          (priced id (suc m) d p)
  ]

  refresh_all-rule :
      (answers : ℕ → Option ℤ) (items : List Item) (t : ℕ) (x : g.State × Db)
      → P x.1
      → P (refresh_all g answers items t x).1
  unfolding refresh_all
  refresh_all-rule answers [] t x p = p
  refresh_all-rule answers (item ∷ rest) t x p =
      refresh_all-rule answers rest t _ (refresh_item-rule (answers item.id) item.id t x p)

  pub update_prices-rule :
      (answers : ℕ → Option ℤ) (t : ℕ) (x : g.State × Db)
      → P x.1
      → P (update_prices g answers t x).1
  unfolding update_prices Items.list_by_rarity
  update_prices-rule answers t x p = refresh_all-rule answers _ t x p

pub update_prices-IsSound :
    (g : GoCache) (answers : ℕ → Option ℤ) (t : ℕ) (x : g.State × Db)
    → IsSound x.1
    → IsSound (update_prices g answers t x).1
update_prices-IsSound g =
    update_prices-rule g IsSound λ id n d s. beside-IsSound _ _ _ _ _ _ _ _ d s

pub update_prices-gold :
    (g : GoCache) (answers : ℕ → Option ℤ) (t : ℕ) (x : g.State × Db)
    → total_gold (update_prices g answers t x).1 ≡ total_gold x.1
update_prices-gold g answers t x =
    update_prices-rule g (λ d. total_gold d ≡ total_gold x.1) (λ id n d e. e) answers t x refl
