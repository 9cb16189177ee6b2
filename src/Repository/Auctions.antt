-- ===== src/Repository/Auctions.antt =====
-- internal/repository/auction.go over the table and the trigger of migrations/000008.
use dragon_market.Base.{
  ℕ, ◌+◌, Bool, not, ◌&&◌, Option, none, some, List, [], ◌∷◌, ◌++◌, leb, ◌==◌, if◌then◌else◌,
}
use dragon_market.Repository.Tables.{find_row, select, update_rows}
use dragon_market.Repository.Rows.{Auction, AuctionStatus, Item, auction_active, is_legendary}
use dragon_market.Repository.Db.{
  Db, Tx, Error, ok, err, ◌>>=◌, ◌>>◌, raise_if, or_raise, gets, is_some, fits, require_row,
}
use dragon_market.Repository.TransactionLogs.{guild_row}
use dragon_market.Repository.Bids.{auction_row}

abbrev pub next_id : Tx ℕ
next_id t d =
    let id = d.next.auctions in (ok id, record d { next = record (d.next) { auctions = id + 1 } })

abbrev pub item_row : ℕ → Db → Option Item
item_row id d = find_row (λ r. r.id == id) d.items

abbrev pub is_active_for : ℕ → Auction → Bool
is_active_for item a = a.item_id == item && auction_active a.status

abbrev pub active_for_item : ℕ → Db → Option Auction
active_for_item item d = find_row (is_active_for item) d.auctions

abbrev pub status_or_active : Option AuctionStatus → AuctionStatus
status_or_active none = AuctionStatus.active
status_or_active (some s) = s

-- The trigger copies the item's rarity; without the item the column is NULL, which is refused
-- with an error that the program does not tell apart.
unfoldable pub create : ℕ → ℕ → Option AuctionStatus → ℕ → ℕ → ℕ → Tx Auction
create item_id owner_guild_id status start_time end_time base_price = do
  raise_if (not (fits base_price)) Error.driver
  id ← next_id
  item ← or_raise (← gets (item_row item_id)) Error.driver
  raise_if (leb end_time start_time) Error.check_violation
  raise_if (not (is_legendary item.rarity)) Error.check_violation
  clash ← gets (active_for_item item_id)
  raise_if (auction_active (status_or_active status) && is_some clash) Error.unique_violation
  require_row (← gets (guild_row owner_guild_id))
  let a : Auction = record {
    id = id;
    item_id = item_id;
    owner_guild_id = owner_guild_id;
    status = status_or_active status;
    start_time = start_time;
    end_time = end_time;
    base_price = base_price;
    item_rarity = item.rarity;
  }
  λ t d. (ok a, record d { auctions = d.auctions ++ a ∷ [] })

-- GetByID and GetByIDForUpdate: the lock is held to the end of the transaction.
unfoldable pub get_by_id : ℕ → Tx Auction
get_by_id id = do or_raise (← gets (auction_row id)) Error.not_found

unfoldable pub get_active_by_item_id : ℕ → Tx Auction
get_active_by_item_id item = do or_raise (← gets (active_for_item item)) Error.not_found

unfoldable pub list_active : Tx (List Auction)
list_active = gets (λ d. select (λ a. auction_active a.status) d.auctions)

unfoldable pub list_active_ending_before : ℕ → Tx (List Auction)
list_active_ending_before cutoff =
    gets (λ d. select (λ a. auction_active a.status && leb a.end_time cutoff) d.auctions)

abbrev pub put_auction : Auction → Db → Db
put_auction a d = record d {
  auctions =
      update_rows (λ r. r.id == a.id) (λ r. record r { status = a.status; end_time = a.end_time })
        d.auctions;
}

-- Another row that the partial unique index would hold beside this one.
abbrev pub is_rival : Auction → Auction → Bool
is_rival row a = is_active_for row.item_id a && not (a.id == row.id)

unfoldable pub update : Auction → Tx (Unit {0})
update a t d = elim (auction_row a.id d) [
  | none ↦ (ok tt, d)
  | some row ↦
      if leb a.end_time row.start_time
      then (err Error.check_violation, d)
      else if auction_active a.status && is_some (find_row (is_rival row) d.auctions)
      then (err Error.unique_violation, d)
      else (ok tt, put_auction a d)
]
