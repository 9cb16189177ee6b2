-- ===== src/Repository/Listings.antt =====
-- internal/repository/listing.go over the table of migrations/000007.
use dragon_market.Base.{ℕ, ◌+◌, Bool, not, ◌&&◌, Option, List, [], ◌∷◌, ◌++◌, ◌==◌, if◌then◌else◌}
use dragon_market.Repository.Tables.{find_row, select, update_rows}
use dragon_market.Repository.Rows.{Listing, ListingStatus, listing_active}
use dragon_market.Repository.Db.{
  Db, Tx, Error, ok, ◌>>=◌, ◌>>◌, raise_if, or_raise, gets, is_some, fits, require_row,
}
use dragon_market.Repository.TransactionLogs.{guild_row}
use dragon_market.Repository.Auctions.{item_row}

abbrev pub next_id : Tx ℕ
next_id t d =
    let id = d.next.listings in (ok id, record d { next = record (d.next) { listings = id + 1 } })

abbrev pub listing_row : ℕ → Db → Option Listing
listing_row id d = find_row (λ r. r.id == id) d.listings

abbrev pub is_active_for : ℕ → Listing → Bool
is_active_for item l = l.item_id == item && listing_active l.status

abbrev pub active_for_item : ℕ → Db → Option Listing
active_for_item item d = find_row (is_active_for item) d.listings

unfoldable pub create : ℕ → ℕ → ℕ → ℕ → ListingStatus → Tx Listing
create item_id guild_id quantity base_price status = do
  raise_if (not (fits quantity && fits base_price)) Error.driver
  id ← next_id
  raise_if (listing_active status && quantity == 0) Error.check_violation
  require_row (← gets (item_row item_id))
  require_row (← gets (guild_row guild_id))
  let l : Listing = record {
    id = id;
    item_id = item_id;
    guild_id = guild_id;
    quantity = quantity;
    base_price = base_price;
    status = status;
  }
  λ t d. (ok l, record d { listings = d.listings ++ l ∷ [] })

-- GetByID and GetByIDForUpdate
unfoldable pub get_by_id : ℕ → Tx Listing
get_by_id id = do or_raise (← gets (listing_row id)) Error.not_found

unfoldable pub get_active_by_item_id : ℕ → Tx Listing
get_active_by_item_id item = do or_raise (← gets (active_for_item item)) Error.not_found

abbrev pub status_eq : ListingStatus → ListingStatus → Bool
status_eq a b = if listing_active a then listing_active b else not (listing_active b)

unfoldable pub list_by_status : ListingStatus → Tx (List Listing)
list_by_status status = gets (λ d. select (λ l. status_eq l.status status) d.listings)

abbrev pub put_listing : Listing → Db → Db
put_listing l d = record d {
  listings =
      update_rows (λ r. r.id == l.id)
        (λ r. record r { quantity = l.quantity; base_price = l.base_price; status = l.status })
        d.listings;
}

unfoldable pub update : Listing → Tx (Unit {0})
update l = do
  raise_if (not (fits l.quantity && fits l.base_price)) Error.driver
  row ← gets (listing_row l.id)
  raise_if (is_some row && listing_active l.status && l.quantity == 0) Error.check_violation
  λ t d. (ok tt, put_listing l d)
