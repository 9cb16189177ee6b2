-- ===== src/Repository/Inventories/Upsert.antt =====
-- What Upsert leaves for the guild and the item.
use dragon_market.Base.{
  ℕ, ◌≡◌, refl, ◌+◌, none, some, List, [], ◌∷◌, ◌++◌, arith, Option-cases, inl, inr,
}
use dragon_market.Repository.Tables.{find_row-append_new, find_row-update_rows_same}
use dragon_market.Repository.Rows.{Inventory, Item, ItemRarity}
use dragon_market.Repository.Db.{Db}
use dragon_market.Repository.Auctions.{item_row}
use dragon_market.Repository.Inventories.{
  inventory_of, of_guild_and_item, put_quantity, insert, upsert,
}
use dragon_market.Atomic.{Ends}

abbrev pub with_inventories : List Inventory → ℕ → Db → Db
with_inventories rows n d = record d {
  inventories = rows;
  next = record (d.next) { inventories = n };
}

abbrev bumped : Db → Db
bumped d = record d { next = record (d.next) { inventories = d.next.inventories + 1 } }

abbrev pub Upserted : ℕ → ℕ → ℕ → Db → Inventory → Db → Type 0
Upserted g item quantity d inv d' =
    (inv.quantity ≡ quantity)
    × (inventory_of g item d' ≡ some inv)
    × ((rows : List Inventory) × (n : ℕ) × (d' ≡ with_inventories rows n d))

module _ (g item quantity : ℕ) (d : Db) where
  updated :
      (row : Inventory)
      → inventory_of g item d ≡ some row
      → Upserted g item quantity d
          (record row { quantity = quantity })
          (put_quantity g item quantity (bumped d))
  updated row e = (
    refl,
    rw (
      find_row-update_rows_same (of_guild_and_item g item) (λ r. record r { quantity = quantity })
          d.inventories (λ r. refl),
      e,
    ),
    ((put_quantity g item quantity d).inventories, d.next.inventories + 1, refl),
  )

  inserted :
      (rarity : ItemRarity)
      → inventory_of g item d ≡ none
      → let inv : Inventory = record {
        id = d.next.inventories;
        guild_id = g;
        item_id = item;
        quantity = quantity;
        item_rarity = rarity;
      } in
        Upserted g item quantity d inv
          (record (bumped d) { inventories = d.inventories ++ inv ∷ [] })
  inserted rarity e = (
    refl,
    find_row-append_new (of_guild_and_item g item) d.inventories _ e (ground arith),
    (d.inventories ++ _ ∷ [], d.next.inventories + 1, refl),
  )

  no_item :
      (t : ℕ)
      → item_row item d ≡ none
      → Ends (Upserted g item quantity d) d (upsert g item quantity t d)
  unfolding upsert
  no_item t e = ground arith

  -- The INSERT, past the tests in front of it.
  insert_new :
      (t : ℕ) (rarity : ItemRarity)
      → inventory_of g item d ≡ none
      → Ends
          (Upserted g item quantity d)
          d
          (insert d.next.inventories g item quantity rarity t (bumped d))
  unfolding insert
  insert_new t rarity e = ground (arith, inserted rarity e)

  absent :
      (t : ℕ) (it : Item)
      → item_row item d ≡ some it
      → inventory_of g item d ≡ none
      → Ends (Upserted g item quantity d) d (upsert g item quantity t d)
  unfolding upsert
  absent t it e new = ground (arith, insert_new t it.rarity new)

  present :
      (t : ℕ) (it : Item)
      → item_row item d ≡ some it
      → (row : Inventory) → inventory_of g item d ≡ some row
      → Ends (Upserted g item quantity d) d (upsert g item quantity t d)
  unfolding upsert
  present t it e row there = ground (arith, updated row there)

  pub upsert-Ends : (t : ℕ) → Ends (Upserted g item quantity d) d (upsert g item quantity t d)
  upsert-Ends t = elim (Option-cases (item_row item d)) [
    | inl e ↦ no_item t e
    | inr (it, e) ↦ (elim (Option-cases (inventory_of g item d)) [
      | inl new ↦ absent t it e new
      | inr (row, there) ↦ present t it e row there
    ])
  ]
