-- ===== src/ItemService.antt =====
-- ItemService, internal/service/item_service.go. The price cache is a snapshot, a function from an
-- item's id to the price that the oracle set last.
pub mod Paid
pub mod Payment
pub mod Paying
pub mod Bought
pub mod Purchase
pub mod Sales
pub mod Selling
pub mod Creation
pub mod Shown
pub mod Beside
pub mod Admission
use Prim.Native.String.{String}
use dragon_market.Base.{
  ℕ, ℤ, pos, negsuc, positive, ◌+◌, ◌-◌, ◌*◌, Bool, true, false, not, Option, none, some, List, map,
  ltb, ◌==◌, if◌then◌else◌,
}
use dragon_market.Repository.Rows.{
  Item, ItemRarity, Listing, ListingStatus, TransactionType, Reference, is_legendary,
  listing_active,
}
use dragon_market.Repository.Db.{
  Db, Tx, Error, Result, ok, err, ◌>>=◌, ◌>>◌, pure, raise_if, or_raise, on_not_found, Connection,
  run_tx,
}
use dragon_market.Repository.Guilds
use dragon_market.Repository.Items
use dragon_market.Repository.Listings
use dragon_market.Repository.Inventories
use dragon_market.GoldPouch.{reserve, settle, credit}

abbrev pub Prices : Type 0
Prices = ℕ → Option ℕ

abbrev pub default_guild_name : String
default_guild_name = "Vorynthax Guild"

abbrev default_list_limit : ℕ
default_list_limit = 100

-- A rarity that is none of the three constants stands as none.
pub record CreateItemInput : Type 0 where
  pub name : String
  pub land_of_origin : String
  pub forger_character_id : ℕ
  pub rarity : Option ItemRarity
  pub price : Option ℤ
  pub guild_id : Option ℕ
  pub quantity : Option ℤ

pub record ItemView : Type 0 where
  pub id : ℕ
  pub name : String
  pub land_of_origin : String
  pub rarity : ItemRarity
  pub forger_character_id : ℕ
  pub price : ℕ
  pub legendary : Bool

pub record CreateItemResult : Type 0 where
  pub item : ItemView
  pub guild_id : ℕ
  pub quantity : ℕ
  pub listing_id : Option ℕ

pub record PurchaseInput : Type 0 where
  pub item_id : ℕ
  pub buyer_guild_id : ℕ
  pub quantity : ℤ

pub record PurchaseResult : Type 0 where
  pub item_id : ℕ
  pub quantity : ℕ
  pub unit_price : ℕ
  pub total_price : ℕ
  pub seller_guild_id : ℕ
  pub listing_id : ℕ
  pub listing_status : ListingStatus

-- The cached price of an item, or the one of its row.
abbrev pub cached_price : Prices → Item → ℕ
cached_price prices item = elim (prices item.id) [ none ↦ item.price | some p ↦ p ]

abbrev pub shown_price : Prices → Item → ℕ
shown_price prices item = if is_legendary item.rarity then cached_price prices item else item.price

abbrev pub to_view : Prices → Item → ItemView
to_view prices item = record {
  id = item.id;
  name = item.name;
  land_of_origin = item.land_of_origin;
  rarity = item.rarity;
  forger_character_id = item.forger_character_id;
  price = shown_price prices item;
  legendary = is_legendary item.rarity;
}

abbrev pub is_conflict_err : Error → Bool
is_conflict_err Error.unique_violation = true
is_conflict_err Error.check_violation = true
is_conflict_err _ = false

-- `if isConflictErr(err) { return e }`
abbrev pub on_conflict {ℓ} : {A : Type ℓ} → Error → Tx A → Tx A
on_conflict e m t d =
    let (r, d') = m t d in
    elim r [ ok a ↦ (ok a, d') | err e' ↦ (err (if is_conflict_err e' then e else e'), d') ]

unfoldable pub resolve_guild_id : Option ℕ → Tx ℕ
resolve_guild_id (some id) = do
  g ← on_not_found Error.guild_not_found (Guilds.get_by_id id)
  pure g.id
resolve_guild_id none = do
  g ← on_not_found Error.guild_not_found (Guilds.get_by_name default_guild_name)
  pure g.id

abbrev pub non_negative : ℤ → Option ℕ
non_negative (pos n) = some n
non_negative (negsuc _) = none

abbrev pub positive_of : Option ℤ → Option ℕ
positive_of none = none
positive_of (some q) = positive q

-- The quantity that goes into the inventory: 1 of a legendary item, whatever was asked for.
abbrev pub inv_quantity : ItemRarity → Option ℤ → Option ℕ
inv_quantity rarity quantity = if is_legendary rarity then some 1 else positive_of quantity

unfoldable pub create_listing : Item → ℕ → ℕ → Tx (Option ℕ)
create_listing item guild_id quantity = if is_legendary item.rarity then pure none else (do
  l ← Listings.create item.id guild_id quantity item.price ListingStatus.active
  pure (some l.id))

-- The body of CreateItem's transaction.
unfoldable pub create_item_body :
    Prices → CreateItemInput → ItemRarity → ℕ → ℕ → ℕ → Tx CreateItemResult
create_item_body prices input rarity price quantity guild_id = do
  item ←
      on_conflict Error.legendary_conflict
        (Items.create input.name input.land_of_origin rarity input.forger_character_id price)
  _inv ← on_conflict Error.legendary_conflict (Inventories.create guild_id item.id quantity)
  listing_id ← create_listing item guild_id quantity
  let r : CreateItemResult = record {
    item = to_view prices item;
    guild_id = guild_id;
    quantity = quantity;
    listing_id = listing_id;
  }
  pure r

-- The tests in front of the transaction, in the order of the code.
unfoldable pub create_item :
    Connection → Prices → CreateItemInput → ℕ → Db → Result CreateItemResult × Db
create_item c prices input = do
  rarity ← or_raise input.rarity Error.invalid_rarity
  asked ← or_raise input.price Error.missing_price
  price ← or_raise (non_negative asked) Error.invalid_price
  raise_if (if is_legendary rarity then false else price == 0) Error.missing_price
  quantity ← or_raise (inv_quantity rarity input.quantity) Error.missing_quantity
  guild_id ← resolve_guild_id input.guild_id
  λ begin d. run_tx c begin (create_item_body prices input rarity price quantity guild_id) d

unfoldable pub get_item : Prices → ℕ → Tx ItemView
get_item prices id = do
  item ← on_not_found Error.item_not_found (Items.get_by_id id)
  pure (to_view prices item)

abbrev pub limit_of : ℤ → ℕ
limit_of limit = elim (positive limit) [ none ↦ default_list_limit | some n ↦ n ]

abbrev pub offset_of : ℤ → ℕ
offset_of (pos n) = n
offset_of (negsuc _) = 0

unfoldable pub list_items : Prices → ℤ → ℤ → Tx (List ItemView)
list_items prices limit offset = do
  items ← Items.list (some (limit_of limit)) (offset_of offset)
  pure (map (to_view prices) items)

-- PurchaseItem once the rows are locked and the quantity has passed the tests.
unfoldable pub pay_listing : PurchaseInput → Listing → ℕ → ℕ → ℕ → Tx (Unit {0})
pay_listing input listing total reserve_now settle_now = do
  reserve input.buyer_guild_id (pos total) (some (Reference.listing listing.id)) reserve_now
  settle input.buyer_guild_id (pos total) TransactionType.purchase
      (some (Reference.listing listing.id)) settle_now
  credit listing.guild_id (pos total) (some (Reference.listing listing.id))

abbrev pub sold_listing : Listing → ℕ → Listing
sold_listing listing n = record listing {
  quantity = listing.quantity - n;
  status = if listing.quantity - n == 0 then ListingStatus.expired else listing.status;
}

abbrev pub purchase_result : PurchaseInput → Listing → ℕ → PurchaseResult
purchase_result input listing n = record {
  item_id = input.item_id;
  quantity = n;
  unit_price = listing.base_price;
  total_price = listing.base_price * n;
  seller_guild_id = listing.guild_id;
  listing_id = listing.id;
  listing_status = (sold_listing listing n).status;
}

-- The body of PurchaseItem's transaction, for a quantity n that passed the test in front of it.
unfoldable pub purchase_body : PurchaseInput → ℕ → ℕ → ℕ → Tx PurchaseResult
purchase_body input n reserve_now settle_now = do
  item ← on_not_found Error.item_not_found (Items.get_by_id input.item_id)
  raise_if (is_legendary item.rarity) Error.listing_not_active
  active ← on_not_found Error.listing_not_active (Listings.get_active_by_item_id input.item_id)
  listing ← Listings.get_by_id active.id
  inv ← Inventories.get_by_guild_and_item listing.guild_id input.item_id
  raise_if (not (listing_active listing.status)) Error.listing_not_active
  raise_if (ltb listing.quantity n) Error.insufficient_quantity
  raise_if (ltb inv.quantity n) Error.insufficient_quantity
  pay_listing input listing (listing.base_price * n) reserve_now settle_now
  Listings.update (sold_listing listing n)
  Inventories.update_quantity listing.guild_id input.item_id (inv.quantity - n)
  pure (purchase_result input listing n)

unfoldable pub purchase_item :
    Connection → PurchaseInput → ℕ → ℕ → ℕ → Db → Result PurchaseResult × Db
purchase_item c input begin reserve_now settle_now d = elim (positive input.quantity) [
  | none ↦ (err Error.invalid_quantity, d)
  | some n ↦ run_tx c begin (purchase_body input n reserve_now settle_now) d
]
