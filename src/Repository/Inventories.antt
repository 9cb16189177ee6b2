-- ===== src/Repository/Inventories.antt =====
-- internal/repository/inventory.go over the table and the trigger of migrations/000005.
pub mod Upsert
use dragon_market.Base.{
  ℕ, ◌+◌, Bool, true, false, not, ◌&&◌, ◌||◌, Option, none, some, List, [], ◌∷◌, ◌++◌, ◌==◌,
  if◌then◌else◌,
}
use dragon_market.Repository.Tables.{find_row, select, update_rows, delete_rows}
use dragon_market.Repository.Rows.{Inventory, Item, ItemRarity, is_legendary}
use dragon_market.Repository.Db.{
  Db, Tx, Error, Result, ok, err, ◌>>=◌, ◌>>◌, pure, raise_if, or_raise, gets, is_some, fits,
  require_row,
}
use dragon_market.Repository.TransactionLogs.{guild_row}
use dragon_market.Repository.Auctions.{item_row}

abbrev pub next_id : Tx ℕ
next_id t d =
    let id = d.next.inventories in
    (ok id, record d { next = record (d.next) { inventories = id + 1 } })

abbrev pub of_guild_and_item : ℕ → ℕ → Inventory → Bool
of_guild_and_item g item inv = inv.guild_id == g && inv.item_id == item

abbrev pub inventory_of : ℕ → ℕ → Db → Option Inventory
inventory_of g item d = find_row (of_guild_and_item g item) d.inventories

-- The rows that the partial unique index holds for an item.
abbrev pub is_legendary_of : ℕ → Inventory → Bool
is_legendary_of item inv = inv.item_id == item && is_legendary inv.item_rarity

-- The CHECK (item_rarity <> 'LEGENDARY' OR quantity = 1)
abbrev pub quantity_allowed : ItemRarity → ℕ → Bool
quantity_allowed rarity quantity = not (is_legendary rarity) || quantity == 1

-- The row that an INSERT stores: the trigger copies the item's rarity; without the item the column
-- is NULL, which is refused with an error that the program does not tell apart.
unfoldable pub insert : ℕ → ℕ → ℕ → ℕ → ItemRarity → Tx Inventory
insert id guild_id item_id quantity rarity = do
  raise_if (not (quantity_allowed rarity quantity)) Error.check_violation
  raise_if (is_some (← gets (inventory_of guild_id item_id))) Error.unique_violation
  owned ← gets (λ d. find_row (is_legendary_of item_id) d.inventories)
  raise_if (is_legendary rarity && is_some owned) Error.unique_violation
  require_row (← gets (guild_row guild_id))
  let inv : Inventory = record {
    id = id;
    guild_id = guild_id;
    item_id = item_id;
    quantity = quantity;
    item_rarity = rarity;
  }
  λ t d. (ok inv, record d { inventories = d.inventories ++ inv ∷ [] })

unfoldable pub create : ℕ → ℕ → ℕ → Tx Inventory
unfolding insert
create guild_id item_id quantity = do
  raise_if (not (fits quantity)) Error.driver
  id ← next_id
  item ← or_raise (← gets (item_row item_id)) Error.driver
  insert id guild_id item_id quantity item.rarity

-- GetByGuildAndItem and GetByGuildAndItemForUpdate
unfoldable pub get_by_guild_and_item : ℕ → ℕ → Tx Inventory
get_by_guild_and_item g item = do or_raise (← gets (inventory_of g item)) Error.not_found

unfoldable pub list_by_guild_id : ℕ → Tx (List Inventory)
list_by_guild_id g = gets (λ d. select (λ inv. inv.guild_id == g) d.inventories)

abbrev pub put_quantity : ℕ → ℕ → ℕ → Db → Db
put_quantity g item quantity d = record d {
  inventories =
      update_rows (of_guild_and_item g item) (λ r. record r { quantity = quantity }) d.inventories;
}

unfoldable pub update_quantity : ℕ → ℕ → ℕ → Tx (Unit {0})
update_quantity g item quantity t d =
    if not (fits quantity) then (err Error.driver, d) else elim (inventory_of g item d) [
      | none ↦ (ok tt, d)
      | some row ↦
          if not (quantity_allowed row.item_rarity quantity)
          then (err Error.check_violation, d)
          else (ok tt, put_quantity g item quantity d)
    ]

-- INSERT … ON CONFLICT (guild_id, item_id) DO UPDATE: the CHECK holds for the proposed row too, and
-- a conflict on the index for legendary items is no reason to update.
unfoldable pub upsert : ℕ → ℕ → ℕ → Tx Inventory
unfolding insert
upsert guild_id item_id quantity = do
  raise_if (not (fits quantity)) Error.driver
  id ← next_id
  item ← or_raise (← gets (item_row item_id)) Error.driver
  raise_if (not (quantity_allowed item.rarity quantity)) Error.check_violation
  conflict ← gets (inventory_of guild_id item_id)
  elim conflict [
    | none ↦ insert id guild_id item_id quantity item.rarity
    | some row ↦
        λ t d. (ok (record row { quantity = quantity }), put_quantity guild_id item_id quantity d)
  ]

unfoldable pub delete : ℕ → Tx (Unit {0})
delete id t d = (ok tt, record d { inventories = delete_rows (λ r. r.id == id) d.inventories })
