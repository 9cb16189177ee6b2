-- ===== src/Api/Items.antt =====
-- The handlers of items, internal/api/item_handlers.go.
use Prim.Native.String.{String}
use text.Mathlib.Text.{◌==◌ as str_eq}
use mathlib.Core.Option
use dragon_market.Base.{
  zero, ℤ, pos, Bool, true, false, ◌||◌, Option, none, some, map, if◌then◌else◌,
}
use dragon_market.Repository.Rows.{ItemRarity}
use dragon_market.ItemService.{
  CreateItemInput, CreateItemResult, ItemView, PurchaseInput, PurchaseResult,
}
use dragon_market.Api.{
  Body, Handler, ItemService, CreateItemRequest, PurchaseRequest, ItemResponse, CreateItemResponse,
  PurchaseResponse, id_of,
}
use dragon_market.Api.Errors.{write_error, respond}
use dragon_market.Api.Middleware.{with_param, parse_limit_offset, guild_id_from_context}

abbrev pub new_item_response : ItemView → ItemResponse
new_item_response v = record {
  id = v.id;
  name = v.name;
  land_of_origin = v.land_of_origin;
  rarity = v.rarity;
  forger_character_id = v.forger_character_id;
  price = v.price;
  legendary = v.legendary;
  auction_only = v.legendary;
}

abbrev pub new_create_item_response : CreateItemResult → CreateItemResponse
new_create_item_response r = record {
  item = new_item_response r.item;
  guild_id = r.guild_id;
  quantity = r.quantity;
  listing_id = r.listing_id;
}

abbrev pub new_purchase_response : PurchaseResult → PurchaseResponse
new_purchase_response r = record {
  item_id = r.item_id;
  quantity = r.quantity;
  unit_price = r.unit_price;
  total_price = r.total_price;
  seller_guild_id = r.seller_guild_id;
  listing_id = r.listing_id;
  listing_status = r.listing_status;
}

-- `binding:"required"` refuses a type's zero value.
abbrev pub absent : ℤ → Bool
absent (pos zero) = true
absent _ = false

abbrev pub absent_string : String → Bool
absent_string s = str_eq s ""

-- ShouldBindJSON for each type: the decoded body, where the required fields are there.
unfoldable pub bind_create_item : Option CreateItemRequest → Option CreateItemRequest
bind_create_item none = none
bind_create_item (some req) =
    if absent_string req.name
      || absent_string req.land_of_origin
      || absent req.forger_character_id
      || absent_string req.rarity
    then none
    else some req

unfoldable pub bind_purchase : Option PurchaseRequest → Option PurchaseRequest
bind_purchase none = none
bind_purchase (some req) = if absent req.quantity then none else some req

-- The constants of a rarity.
unfoldable pub item_rarity : String → Option ItemRarity
item_rarity s =
    if str_eq s "COMMON"
    then some ItemRarity.common
    else if str_eq s "RARE"
    then some ItemRarity.rare
    else if str_eq s "LEGENDARY"
    then some ItemRarity.legendary
    else none

abbrev pub create_item_input : CreateItemRequest → CreateItemInput
create_item_input req = record {
  name = req.name;
  land_of_origin = req.land_of_origin;
  forger_character_id = id_of req.forger_character_id;
  rarity = item_rarity req.rarity;
  price = req.price;
  guild_id = Option.map id_of req.guild_id;
  quantity = req.quantity;
}

abbrev pub purchase_input : ℤ → ℤ → PurchaseRequest → PurchaseInput
purchase_input item_id guild_id req = record {
  item_id = id_of item_id;
  buyer_guild_id = id_of guild_id;
  quantity = req.quantity;
}

module _ (svc : ItemService) where
  unfoldable pub create : Handler
  create c d = elim (bind_create_item c.request.create_item) [
    | none ↦ (write_error 400 "VALIDATION_ERROR", d)
    | some req ↦
        respond
          (λ r. record { status = 201; body = Body.created_item (new_create_item_response r) })
          (svc.create_item (create_item_input req) d)
  ]

  unfoldable pub list : Handler
  list c d =
      let (limit, offset) = parse_limit_offset c.request.limit c.request.offset in
      respond (λ items. record { status = 200; body = Body.items (map new_item_response items) })
        (svc.list_items limit offset d)

  unfoldable pub get : Handler
  get c = with_param "INVALID_ITEM_ID" c.request.id λ id d.
      respond (λ view. record { status = 200; body = Body.item (new_item_response view) })
        (svc.get_item (id_of id) d)

  unfoldable pub purchase : Handler
  purchase c = with_param "INVALID_ITEM_ID" c.request.id λ id d.
      elim (bind_purchase c.request.purchase) [
        | none ↦ (write_error 400 "VALIDATION_ERROR", d)
        | some req ↦
            respond (λ r. record { status = 200; body = Body.purchase (new_purchase_response r) })
              (svc.purchase_item (purchase_input id (guild_id_from_context c) req) d)
      ]
