-- ===== src/Repository/Bids.antt =====
-- internal/repository/bid.go over the table of migrations/000009.
pub mod Highest
use dragon_market.Base.{
  ℕ, ◌+◌, Bool, not, ◌&&◌, ◌||◌, Option, none, some, List, [], ◌∷◌, ◌++◌, ltb, ◌==◌, if◌then◌else◌,
}
use dragon_market.Repository.Tables.{find_row, select, update_rows}
use dragon_market.Repository.Rows.{Bid, BidStatus, Auction, bid_active}
use dragon_market.Repository.Db.{
  Db, Tx, Error, ok, ◌>>=◌, ◌>>◌, raise_if, or_raise, gets, fits, db_now, require_row,
}
use dragon_market.Repository.TransactionLogs.{guild_row}

abbrev pub next_id : Tx ℕ
next_id t d = let id = d.next.bids in (ok id, record d { next = record (d.next) { bids = id + 1 } })

abbrev pub auction_row : ℕ → Db → Option Auction
auction_row id d = find_row (λ r. r.id == id) d.auctions

abbrev pub add_bid : Bid → Db → Db
add_bid b d = record d { bids = d.bids ++ b ∷ [] }

unfoldable pub create : ℕ → ℕ → ℕ → BidStatus → Tx Bid
create auction_id guild_id amount status = do
  raise_if (not (fits amount)) Error.driver
  id ← next_id
  created_at ← db_now
  raise_if (amount == 0) Error.check_violation
  require_row (← gets (auction_row auction_id))
  require_row (← gets (guild_row guild_id))
  let b : Bid = record {
    id = id;
    auction_id = auction_id;
    guild_id = guild_id;
    amount = amount;
    status = status;
    created_at = created_at;
  }
  λ t d. (ok b, add_bid b d)

abbrev pub has_id : ℕ → Bid → Bool
has_id id b = b.id == id

abbrev pub bid_row : ℕ → Db → Option Bid
bid_row id d = find_row (has_id id) d.bids

unfoldable pub get_by_id : ℕ → Tx Bid
get_by_id id = do or_raise (← gets (bid_row id)) Error.not_found

unfoldable pub list_by_auction_id : ℕ → Tx (List Bid)
list_by_auction_id id = gets (λ d. select (λ b. b.auction_id == id) d.bids)

abbrev pub is_active_in : ℕ → Bid → Bool
is_active_in id b = b.auction_id == id && bid_active b.status

-- Whether `b` stands before `a` under ORDER BY amount DESC, created_at ASC.
abbrev pub beats : Bid → Bid → Bool
beats b a = ltb a.amount b.amount || (a.amount == b.amount && ltb b.created_at a.created_at)

-- The first row under that order; of rows that tie on both columns, the one of the lowest id.
unfoldable pub first_by_amount : List Bid → Option Bid
first_by_amount [] = none
first_by_amount (b ∷ bs) = elim (first_by_amount bs) [
  | none ↦ some b
  | some a ↦ if beats a b then some a else some b
]

abbrev pub highest_active : ℕ → Db → Option Bid
highest_active id d = first_by_amount (select (is_active_in id) d.bids)

unfoldable pub get_highest_active_by_auction_id : ℕ → Tx Bid
get_highest_active_by_auction_id id = do or_raise (← gets (highest_active id)) Error.not_found

abbrev pub put_bid_status : ℕ → BidStatus → Db → Db
put_bid_status id s d = record d {
  bids = update_rows (has_id id) (λ r. record r { status = s }) d.bids;
}

unfoldable pub update : Bid → Tx (Unit {0})
update b t d = (ok tt, put_bid_status b.id b.status d)
