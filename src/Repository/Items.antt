-- ===== src/Repository/Items.antt =====
-- internal/repository/item.go over the table of migrations/000004.
use Prim.Native.String.{String}
use dragon_market.Base.{
  ℕ, ◌+◌, Bool, true, false, not, Option, none, some, List, [], ◌∷◌, ◌++◌, ◌==◌, if◌then◌else◌,
  take, drop,
}
use dragon_market.Repository.Tables.{find_row, select, update_rows}
use dragon_market.Repository.Rows.{Item, ItemRarity}
use dragon_market.Repository.Db.{
  Db, Tx, Error, ok, err, ◌>>=◌, ◌>>◌, raise, raise_if, or_raise, gets, fits, require_row,
}
use dragon_market.Repository.Auctions.{item_row}

abbrev pub next_id : Tx ℕ
next_id t d =
    let id = d.next.items in (ok id, record d { next = record (d.next) { items = id + 1 } })

unfoldable pub create : String → String → ItemRarity → ℕ → ℕ → Tx Item
create name land_of_origin rarity forger_character_id price = do
  raise_if (not (fits price)) Error.driver
  id ← next_id
  require_row (← gets (λ d. find_row (λ r. r.id == forger_character_id) d.characters))
  let item : Item = record {
    id = id;
    name = name;
    land_of_origin = land_of_origin;
    rarity = rarity;
    forger_character_id = forger_character_id;
    price = price;
  }
  λ t d. (ok item, record d { items = d.items ++ item ∷ [] })

unfoldable pub get_by_id : ℕ → Tx Item
get_by_id id = do or_raise (← gets (item_row id)) Error.not_found

-- ORDER BY id LIMIT limit OFFSET offset. A limit of zero or less, none here, is sent as -1, which
-- Postgres refuses.
unfoldable pub list : Option ℕ → ℕ → Tx (List Item)
list none offset = raise Error.driver
list (some limit) offset = gets (λ d. take limit (drop offset d.items))

abbrev pub rarity_eq : ItemRarity → ItemRarity → Bool
rarity_eq ItemRarity.common ItemRarity.common = true
rarity_eq ItemRarity.rare ItemRarity.rare = true
rarity_eq ItemRarity.legendary ItemRarity.legendary = true
rarity_eq _ _ = false

unfoldable pub list_by_rarity : ItemRarity → Tx (List Item)
list_by_rarity rarity = gets (λ d. select (λ i. rarity_eq i.rarity rarity) d.items)

abbrev pub put_price : ℕ → ℕ → Db → Db
put_price id price d = record d {
  items = update_rows (λ r. r.id == id) (λ r. record r { price = price }) d.items;
}

unfoldable pub update_price : ℕ → ℕ → Tx (Unit {0})
update_price id price t d =
    if not (fits price) then (err Error.driver, d) else (ok tt, put_price id price d)
