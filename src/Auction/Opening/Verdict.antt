-- ===== src/Auction/Opening/Verdict.antt =====
-- CreateAuction: its answer.
use dragon_market.Base.{ℕ, ◌*◌, ◌^◌, ◌%◌, Bool, not, ◌||◌, leb, ◌==◌, if◌then◌else◌}
use dragon_market.Clock.{second}
use dragon_market.Repository.Rows.{Item, is_legendary}
use dragon_market.Repository.Db.{Db, Error, Result, ok, err, is_some}
use dragon_market.Repository.Auctions
use dragon_market.Repository.Auctions.{active_for_item, is_active_for, is_rival}
use dragon_market.Repository.Items
use dragon_market.Repository.Inventories
use dragon_market.ItemService.{Prices}
use dragon_market.Auction.Opening.{CreateAuctionInput, AuctionView, to_auction_view}
use dragon_market.Auction.Opening.Opened.{new_auction}

-- The duration in nanoseconds as an int64 that is zero or has wrapped around to a negative number.
abbrev pub is_wrapped : ℕ → Bool
is_wrapped n = let ns = n * second % 2 ^ 64 in ns == 0 || leb (2 ^ 63) ns

-- The answer to a guild that has an inventory of the item, as the code gives it: a duration that
-- wraps around is refused with the error for a second auction.
abbrev pub create_verdict : Prices → CreateAuctionInput → ℕ → ℕ → Db → Item → Result AuctionView
create_verdict prices input n now d item =
    if not (is_legendary item.rarity)
    then err Error.item_not_legendary
    else if is_wrapped n
    then err Error.auction_already_exists
    else if is_some (active_for_item input.item_id d)
    then err Error.auction_already_exists
    else ok (to_auction_view (new_auction prices input n now item d))
