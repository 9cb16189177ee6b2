-- ===== src/System/Truth.antt =====
-- The price cache and the table of items over a run of the program.
use mathlib.Core.Path.{subst}
use dragon_market.Base.{
  ℕ, ℤ, pos, negsuc, zero, suc, ◌<◌, ◌≡◌, refl, sym, ◌∙◌, ap, inl, inr, Bool, true, false, not,
  some, none, Option, List, [], ◌∷◌, ◌==◌, arith, Bool-cases, ==→eq, some_eq,
}
use dragon_market.Repository.Tables.{find_row, select}
use dragon_market.Repository.Rows.{Item, ItemRarity}
use dragon_market.Repository.Db.{Db, is_some, is_some→eq, fits}
use dragon_market.Repository.Items
use dragon_market.Repository.Items.{put_price, rarity_eq}
use dragon_market.Repository.Auctions.{item_row}
use dragon_market.Repository.Keys.{find_row-update_rows, find_row-update_rows-some}
use dragon_market.Oracle.{GoCache, cache_get, cache_set, refresh_item, refresh_all, update_prices}
use dragon_market.Oracle.Cache.{cache_get-cache_set, cache_get-cache_set_other}
use dragon_market.Oracle.Round.{price_stored, price_refused, after_write}
use dragon_market.Settlement.{tick}
use dragon_market.Api.Router.{serve}
use dragon_market.Invariant.{IsSound}
use dragon_market.System.{Event, step, Reach}
use dragon_market.System.Reachable.{Reach-keeps}
use dragon_market.System.Items.{Extends, same-Extends}
use dragon_market.System.Cache.{serve-Extends, tick-items}

-- Each item of a list has a row.
abbrev HaveRows : Db → List Item → Type 0
HaveRows d [] = Unit
HaveRows d (i ∷ rest) = (is_some (item_row i.id d) ≡ true) × HaveRows d rest

HaveRows-transport :
    (d x : Db)
    → ((id : ℕ) → is_some (item_row id d) ≡ true → is_some (item_row id x) ≡ true)
    → (todo : List Item) → HaveRows d todo
    → HaveRows x todo
HaveRows-transport d x f [] h = tt
HaveRows-transport d x f (i ∷ rest) h = (f i.id h.0, HaveRows-transport d x f rest h.1)

-- The rows of a table that are chosen by a test are rows of the table.
HaveRows-select :
    (p : Item → Bool) (d : Db) (xs : List Item)
    → ((id : ℕ) → is_some (find_row (λ r. r.id == id) xs) ≡ true → is_some (item_row id d) ≡ true)
    → HaveRows d (select p xs)
unfolding find_row select
HaveRows-select p d [] f = tt
HaveRows-select p d (x ∷ xs) f =
    let rest = HaveRows-select p d xs (λ id k. f id (ground (arith, k))) in
    elim (Bool-cases (p x)) [
      | inl hit ↦ rw (hit, select) (f x.id (ground arith), rest)
      | inr miss ↦ rw (miss, select) rest
    ]

-- The item has a row with this price, which is above zero.
abbrev pub PricedRow : ℕ → ℕ → Db → Type 0
PricedRow id p d = (item : Item) × (item_row id d ≡ some item) × (item.price ≡ p) × (0 < p)

put_price-hit :
    (id n : ℕ) (item : Item) (d : Db)
    → item_row id d ≡ some item
    → item_row id (put_price id n d) ≡ some (record item { price = n })
put_price-hit id n item d e =
    find_row-update_rows-some (λ (i : Item). i.id) id id (λ r. record r { price = n }) d.items item
      (λ r. refl) e
    ∙ ground arith

put_price-other :
    (id n j : ℕ) (d : Db) → (j == id) ≡ false → item_row j (put_price id n d) ≡ item_row j d
put_price-other id n j d miss =
    find_row-update_rows (λ (i : Item). i.id) id j (λ r. record r { price = n }) d.items (λ r. refl)
    ∙ rw miss refl

put_price-is_some :
    (id n j : ℕ) (d : Db)
    → is_some (item_row j d) ≡ true
    → is_some (item_row j (put_price id n d)) ≡ true
put_price-is_some id n j d h = elim (Bool-cases (j == id)) [
  | inl hit ↦
      let (item, e) = is_some→eq h in
      ap is_some (
        ap (λ k. item_row k (put_price id n d)) (==→eq j id hit)
        ∙ put_price-hit id n item d (ap (λ k. item_row k d) (sym (==→eq j id hit)) ∙ e))
  | inr miss ↦ ap is_some (put_price-other id n j d miss) ∙ h
]

module _ (g : GoCache) where
  -- A cached price is above zero and the one in the item's row, which is there.
  abbrev pub Truthful : g.State × Db → Type 0
  Truthful x = (id p : ℕ) → cache_get g x.0 id ≡ some p → PricedRow id p x.1

  Extends-Truthful : (c : g.State) (d x : Db) → Extends d x → Truthful (c, d) → Truthful (c, x)
  Extends-Truthful c d x f v id p e =
      let (item, row, same, z) = v id p e in (item, f id item row, same, z)

  set-price :
      (id price : ℕ) (c : g.State) (j p : ℕ)
      → j ≡ id
      → cache_get g (cache_set g c id price) j ≡ some p
      → price ≡ p
  set-price id price c j p h e =
      some_eq
        (ap (λ k. cache_get g (cache_set g c id price) k) h ∙ cache_get-cache_set g c id price) e

  set-Truthful :
      (id price : ℕ) (c : g.State) (d : Db)
      → 0 < price
      → is_some (item_row id d) ≡ true
      → Truthful (c, d)
      → Truthful (cache_set g c id price, put_price id price d)
  set-Truthful id price c d z there v j p e = elim (Bool-cases (j == id)) [
    | inl hit ↦
        let (item, row) = is_some→eq there in
        subst (λ k. PricedRow k p (put_price id price d)) (sym (==→eq j id hit))
          (
            record item { price = price },
            put_price-hit id price item d row,
            set-price id price c j p (==→eq j id hit) e,
            subst (λ q. 0 < q) (set-price id price c j p (==→eq j id hit) e) z,
          )
    | inr miss ↦
        let (item, row, same, above) =
          v j p (sym (cache_get-cache_set_other g c id price j (ground (arith, miss))) ∙ e) in
        (item, put_price-other id price j d miss ∙ row, same, above)
  ]

  -- A cache that tells the truth, with rows for the items to come.
  abbrev Ready : List Item → g.State × Db → Type 0
  Ready todo x = Truthful x × HaveRows x.1 todo

  refresh_item-Ready :
      (answer : Option ℤ) (i : Item) (rest : List Item) (t : ℕ) (c : g.State) (d : Db)
      → Ready (i ∷ rest) (c, d)
      → Ready rest (refresh_item g answer i.id t (c, d))
  unfolding refresh_item
  refresh_item-Ready none i rest t c d (v, h) = (v, h.1)
  refresh_item-Ready (some (pos zero)) i rest t c d (v, h) = (v, h.1)
  refresh_item-Ready (some (negsuc m)) i rest t c d (v, h) = (v, h.1)
  refresh_item-Ready (some (pos (suc m))) i rest t c d (v, h) =
      elim (Bool-cases (not (fits (suc m)))) [
        | inl large ↦
            subst (λ r. Ready rest (after_write g c i.id (suc m) r))
              (sym (price_refused i.id (suc m) t d large)) (v, h.1)
        | inr small ↦
            subst (λ r. Ready rest (after_write g c i.id (suc m) r))
              (sym (price_stored i.id (suc m) t d small))
              (
                set-Truthful i.id (suc m) c d (omega arith) h.0 v,
                HaveRows-transport d (put_price i.id (suc m) d)
                    (λ j. put_price-is_some i.id (suc m) j d) rest h.1,
              )
      ]

  refresh_all-Truthful :
      (answers : ℕ → Option ℤ) (items : List Item) (t : ℕ) (x : g.State × Db)
      → Ready items x
      → Truthful (refresh_all g answers items t x)
  unfolding refresh_all
  refresh_all-Truthful answers [] t x r = r.0
  refresh_all-Truthful answers (i ∷ rest) t x r =
      refresh_all-Truthful answers rest t (refresh_item g (answers i.id) i.id t x)
        (refresh_item-Ready (answers i.id) i rest t x.0 x.1 r)

  update_prices-Truthful :
      (answers : ℕ → Option ℤ) (t : ℕ) (x : g.State × Db)
      → Truthful x
      → Truthful (update_prices g answers t x)
  unfolding update_prices Items.list_by_rarity
  update_prices-Truthful answers t x v =
      let legendary = λ (i : Item). rarity_eq i.rarity ItemRarity.legendary in
      refresh_all-Truthful answers (select legendary x.1.items) t x
        (v, HaveRows-select legendary x.1 x.1.items (λ id k. k))

  step-Truthful : (e : Event) (x : g.State × Db) → IsSound x.1 → Truthful x → Truthful (step g e x)
  unfolding step
  step-Truthful (Event.request deps route req) (c, d) s v =
      let deps' = record deps { price_cache = cache_get g c } in
      Extends-Truthful c d (serve deps' route req d).1 (serve-Extends deps' route req d s) v
  step-Truthful (Event.sweep readings cutoff) (c, d) s v =
      let x = tick readings cutoff d in
      Extends-Truthful c d x (same-Extends d x (tick-items readings cutoff d s)) v
  step-Truthful (Event.refresh answers t) x s v = update_prices-Truthful answers t x v

  -- Whatever requests come in, and however they, the sweeps and the rounds of the updater follow on
  -- each other, from a sound database and a cache that tells the truth the program comes only to
  -- states where it does: each cached price is above zero and the one in the item's row.
  pub Reach-Truthful : (x y : g.State × Db) → Reach g x y → IsSound x.1 → Truthful x → Truthful y
  Reach-Truthful x _ Reach.start s v = v
  Reach-Truthful x _ (Reach.after y e r) s v =
      step-Truthful e y (Reach-keeps g x y r s).0 (Reach-Truthful x y r s v)
