-- ===== src/ItemService/Shown.antt =====
-- ListItems: its window of the table and the prices that it shows.
use dragon_market.Base.{
  ℕ, ℤ, pos, negsuc, zero, suc, ◌≡◌, refl, ap, Bool, true, false, Option, none, some, List, [], ◌∷◌,
  map, take, drop, arith, ◌∙◌, Option-cases,
}
use dragon_market.Repository.Rows.{Item, ItemRarity}
use dragon_market.Repository.Db.{Db, ok}
use dragon_market.Repository.Items
use dragon_market.ItemService.{Prices, ItemView, to_view, limit_of, offset_of, list_items}

-- A positive limit, and else 100; an offset that is not negative, and else 0.
abbrev pub limit_or_100 : ℤ → ℕ
limit_or_100 (pos zero) = 100
limit_or_100 (pos (suc n)) = suc n
limit_or_100 (negsuc _) = 100

abbrev pub offset_or_0 : ℤ → ℕ
offset_or_0 (pos n) = n
offset_or_0 (negsuc _) = 0

-- From the rarity, the cached price and the one of the row.
abbrev pub price_to_show : ItemRarity → Option ℕ → ℕ → ℕ
price_to_show ItemRarity.common cached price = price
price_to_show ItemRarity.rare cached price = price
price_to_show ItemRarity.legendary none price = price
price_to_show ItemRarity.legendary (some cached) price = cached

abbrev pub is_legend : ItemRarity → Bool
is_legend ItemRarity.common = false
is_legend ItemRarity.rare = false
is_legend ItemRarity.legendary = true

abbrev pub item_shown : Prices → Item → ItemView
item_shown prices i = record {
  id = i.id;
  name = i.name;
  land_of_origin = i.land_of_origin;
  rarity = i.rarity;
  forger_character_id = i.forger_character_id;
  price = price_to_show i.rarity (prices i.id) i.price;
  legendary = is_legend i.rarity;
}

limit_lem : (limit : ℤ) → limit_of limit ≡ limit_or_100 limit
limit_lem (pos zero) = refl
limit_lem (pos (suc n)) = refl
limit_lem (negsuc _) = refl

offset_lem : (offset : ℤ) → offset_of offset ≡ offset_or_0 offset
offset_lem (pos n) = refl
offset_lem (negsuc _) = refl

view_lem : (prices : Prices) (i : Item) → to_view prices i ≡ item_shown prices i
view_lem prices i = ground (arith, Option-cases (prices i.id))

views_lem :
    (prices : Prices) (items : List Item)
    → map (to_view prices) items ≡ map (item_shown prices) items
views_lem prices [] = refl
views_lem prices (i ∷ items) = rw (view_lem prices i, views_lem prices items) refl

-- ListItems answers with the window of limit many items from the offset on, in the order of the
-- table, the limit being 100 where it is not positive and the offset 0 where it is negative; a
-- LEGENDARY item is shown at the price that the cache knows or else its own, any other at its own.
-- It changes nothing.
pub list_items-window :
    (prices : Prices) (limit offset : ℤ) (t : ℕ) (d : Db)
    → list_items prices limit offset t d ≡ (
      ok (map (item_shown prices) (take (limit_or_100 limit) (drop (offset_or_0 offset) d.items))),
      d,
    )
unfolding list_items Items.list
list_items-window prices limit offset t d =
    ap (λ xs. (ok xs, d))
      (views_lem prices (take (limit_of limit) (drop (offset_of offset) d.items)))
    ∙ ap (λ w. (ok (map (item_shown prices) (take w (drop (offset_of offset) d.items))), d))
        (limit_lem limit)
    ∙ ap (λ o. (ok (map (item_shown prices) (take (limit_or_100 limit) (drop o d.items))), d))
        (offset_lem offset)
