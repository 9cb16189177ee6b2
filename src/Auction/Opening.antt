-- ===== src/Auction/Opening.antt =====
-- AuctionService, the calls that do not bid: CreateAuction, GetAuction and ListActiveAuctions.
pub mod Sound
pub mod Opened
pub mod Added
pub mod Verdict
pub mod Pages
use dragon_market.Base.{
  ℕ, ℤ, pos, negsuc, positive, ◌+◌, ◌-◌, ◌*◌, Bool, true, false, not, ◌||◌, Option, none, some,
  List, [], take, drop, length, map, ◌^◌, ◌%◌, leb, ltb, ◌==◌, if◌then◌else◌,
}
use dragon_market.Clock.{truncate_us, add_seconds}
use dragon_market.Repository.Rows.{Auction, AuctionStatus, auction_active, is_legendary}
use dragon_market.Repository.Db.{
  Db, Tx, Error, Result, ok, err, ◌>>=◌, ◌>>◌, pure, raise_if, or_raise, on_not_found, Connection,
  run_tx,
}
use dragon_market.Repository.Auctions
use dragon_market.Repository.Items
use dragon_market.Repository.Inventories
use dragon_market.ItemService.{Prices, cached_price, on_conflict, limit_of, offset_of}

pub record CreateAuctionInput : Type 0 where
  pub item_id : ℕ
  pub owner_guild_id : ℕ
  pub duration_seconds : ℤ

pub record AuctionView : Type 0 where
  pub id : ℕ
  pub item_id : ℕ
  pub owner_guild_id : ℕ
  pub status : AuctionStatus
  pub start_time : ℕ
  pub end_time : ℕ
  pub base_price : ℕ

abbrev pub to_auction_view : Auction → AuctionView
to_auction_view a = record {
  id = a.id;
  item_id = a.item_id;
  owner_guild_id = a.owner_guild_id;
  status = a.status;
  start_time = a.start_time;
  end_time = a.end_time;
  base_price = a.base_price;
}

-- The body of CreateAuction's transaction, for a duration of n seconds.
unfoldable pub create_auction_body : Prices → CreateAuctionInput → ℕ → ℕ → Tx AuctionView
create_auction_body prices input n now = do
  item ← on_not_found Error.item_not_found (Items.get_by_id input.item_id)
  _inv ←
      on_not_found Error.not_item_owner
        (Inventories.get_by_guild_and_item input.owner_guild_id input.item_id)
  raise_if (not (is_legendary item.rarity)) Error.item_not_legendary
  let start = truncate_us now
  auction ← on_conflict Error.auction_already_exists (
      Auctions.create input.item_id input.owner_guild_id none start (add_seconds start n)
        (cached_price prices item))
  pure (to_auction_view auction)

unfoldable pub create_auction :
    Connection → Prices → CreateAuctionInput → ℕ → ℕ → Db → Result AuctionView × Db
create_auction c prices input begin now d = elim (positive input.duration_seconds) [
  | none ↦ (err Error.invalid_duration, d)
  | some n ↦ run_tx c begin (create_auction_body prices input n now) d
]

unfoldable pub get_auction : ℕ → Tx AuctionView
get_auction id = do
  a ← on_not_found Error.auction_not_found (Auctions.get_by_id id)
  raise_if (not (auction_active a.status)) Error.auction_not_found
  pure (to_auction_view a)

-- An int64 by its bits.
abbrev pub signed64 : ℕ → ℤ
signed64 w = if ltb w (2 ^ 63) then pos w else negsuc (2 ^ 64 - w - 1)

abbrev above : ℤ → ℕ → Bool
above (pos a) b = ltb b a
above (negsuc _) b = false

abbrev below : ℤ → ℕ → Bool
below (pos a) b = ltb a b
below (negsuc _) b = true

-- `end := offset + limit`, which wraps around, and the test that sets it back.
abbrev pub slice_end : ℕ → ℕ → ℕ → ℤ
slice_end offset limit n =
    let end = signed64 ((offset + limit) % 2 ^ 64) in
    if above end n || below end offset then pos n else end

-- `all[offset:end]`; none is the panic where the bounds are out of range.
abbrev pub slice : ℕ → ℤ → List Auction → Option (List Auction)
slice offset (negsuc _) all = none
slice offset (pos end) all =
    if ltb end offset || ltb (length all) end
    then none
    else some (take (end - offset) (drop offset all))

unfoldable pub page : ℕ → ℕ → List Auction → Option (List Auction)
page offset limit all =
    if leb (length all) offset
    then some []
    else slice offset (slice_end offset limit (length all)) all

-- A panic would reach gin.Recovery, which answers as to an error that has no code: it stands as one.
unfoldable pub list_active_auctions : ℤ → ℤ → Tx (List AuctionView)
list_active_auctions limit offset = do
  all ← Auctions.list_active
  window ← or_raise (page (offset_of offset) (limit_of limit) all) Error.driver
  pure (map to_auction_view window)
