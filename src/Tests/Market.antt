-- ===== src/Tests/Market.antt =====
-- A market of three guilds: guild 1 auctions its sword, guilds 2 and 3 bid for it.
use dragon_market.Base.{ℕ, pos, ◌≡◌, refl, ◌+◌, true, some, [], ◌∷◌, arith}
use dragon_market.Repository.Tables.{find_row, select, update_rows, delete_rows}
use dragon_market.Repository.Rows.{
  Guild, Item, ItemRarity, Inventory, GoldPouch, Auction, AuctionStatus, Bid, BidStatus,
}
use dragon_market.Repository.Db.{Db, Connection, Result, ok, run_tx, end_tx}
use dragon_market.Repository.Bids
use dragon_market.Repository.Bids.{bid_row, auction_row}
use dragon_market.Repository.Inventories
use dragon_market.Settlement.{
  Reading, settle_auction, settle_auction_body, settle_bids, settle_with_winner, release_losers,
}
use dragon_market.Repository.Auctions
use dragon_market.Repository.GoldPouches
use dragon_market.GoldPouch.{reserve, release, settle, credit, write_log}
use dragon_market.Auction.{
  PlaceBidInput, place_bid, place_bid_body, place_bid_locked, min_required, ceil_div,
  extend_if_late, optional,
}
use dragon_market.Auction.Sound.{place_bid-IsSound}
use dragon_market.Invariant.{IsSound}

abbrev pub working : Connection
working = record { begins = true; commits = true }

abbrev a_guild : ℕ → Guild
a_guild g = record { id = g; name = ""; leader_character_id = g; land_of_origin = "" }

abbrev pub a_pouch : ℕ → GoldPouch
a_pouch g = record {
  id = 10 + g;
  guild_id = g;
  total_balance = 1000;
  reserved_balance = 0;
  daily_spending_limit = 1000;
  spent_today = 0;
  last_reset_date = 0;
}

abbrev pub sword : Item
sword = record {
  id = 5;
  name = "sword";
  land_of_origin = "";
  rarity = ItemRarity.legendary;
  forger_character_id = 1;
  price = 100;
}

abbrev pub an_auction : Auction
an_auction = record {
  id = 4;
  item_id = 5;
  owner_guild_id = 1;
  status = AuctionStatus.active;
  start_time = 0;
  end_time = 1000;
  base_price = 100;
  item_rarity = ItemRarity.legendary;
}

abbrev pub owned : Inventory
owned = record {
  id = 6;
  guild_id = 1;
  item_id = 5;
  quantity = 1;
  item_rarity = ItemRarity.legendary;
}

abbrev pub opened : Db
opened = record {
  characters = [];
  guilds = a_guild 1 ∷ a_guild 2 ∷ a_guild 3 ∷ [];
  items = sword ∷ [];
  inventories = owned ∷ [];
  gold_pouches = a_pouch 1 ∷ a_pouch 2 ∷ a_pouch 3 ∷ [];
  listings = [];
  auctions = an_auction ∷ [];
  bids = [];
  transaction_logs = [];
  next = record {
    characters = 1;
    guilds = 4;
    gold_pouches = 14;
    items = 6;
    inventories = 7;
    listings = 1;
    auctions = 5;
    bids = 1;
    transaction_logs = 1;
  };
}

pub opened-IsSound : IsSound opened
unfolding find_row
opened-IsSound = record {
  pouches = λ g gp e. ground arith;
  members = λ g gp e. ground arith;
  pouches_distinct = (refl, (refl, (refl, tt)));
  bids_distinct = tt;
  bids_below = tt;
  bids = λ id b e. ground arith;
  auctions_below = ground arith;
  auctions_distinct = (refl, tt);
  auctions = λ id a e. ground arith;
  balanced = λ g. ground arith;
}

abbrev pub first_input : PlaceBidInput
first_input = record { item_id = 5; guild_id = 2; amount = pos 150 }

abbrev pub second_input : PlaceBidInput
second_input = record { item_id = 5; guild_id = 3; amount = pos 200 }

abbrev pub first_bid : Result Bid × Db
first_bid = place_bid working first_input 10 20 30 opened

abbrev pub second_bid : Result Bid × Db
second_bid = place_bid working second_input 40 50 60 first_bid.1

abbrev pub the_first : Bid
the_first = record {
  id = 1;
  auction_id = 4;
  guild_id = 2;
  amount = 150;
  status = BidStatus.active;
  created_at = 10;
}

pub first_bid-runs : first_bid ≡ (ok the_first, first_bid.1)
unfolding place_bid place_bid_body place_bid_locked run_tx end_tx Auctions.get_active_by_item_id
    Auctions.get_by_id optional Bids.get_highest_active_by_auction_id Bids.create extend_if_late
    Auctions.update min_required ceil_div reserve write_log GoldPouches.get_by_guild_id
    GoldPouches.update find_row select update_rows Bids.first_by_amount
first_bid-runs = refl

pub first_bid-IsSound : IsSound first_bid.1
first_bid-IsSound = place_bid-IsSound working first_input 10 20 30 opened opened-IsSound

pub second_bid-IsSound : IsSound second_bid.1
second_bid-IsSound = place_bid-IsSound working second_input 40 50 60 first_bid.1 first_bid-IsSound

-- The auction after both bids: the first moved its end by five minutes.
abbrev pub extended_auction : Auction
extended_auction = record an_auction { end_time = an_auction.end_time + 300_000_000_000 }

pub first_row : bid_row 1 second_bid.1 ≡ some the_first
unfolding place_bid place_bid_body place_bid_locked run_tx end_tx Auctions.get_active_by_item_id
    Auctions.get_by_id optional Bids.get_highest_active_by_auction_id Bids.create extend_if_late
    Auctions.update min_required ceil_div reserve write_log GoldPouches.get_by_guild_id
    GoldPouches.update find_row select update_rows Bids.first_by_amount
first_row = refl

pub auction_row_now : auction_row 4 second_bid.1 ≡ some extended_auction
unfolding place_bid place_bid_body place_bid_locked run_tx end_tx Auctions.get_active_by_item_id
    Auctions.get_by_id optional Bids.get_highest_active_by_auction_id Bids.create extend_if_late
    Auctions.update min_required ceil_div reserve write_log GoldPouches.get_by_guild_id
    GoldPouches.update find_row select update_rows Bids.first_by_amount
auction_row_now = refl

abbrev pub late : Reading
late = record {
  connection = working;
  begin = 2_000_000_000_000;
  now = 2_000_000_000_000;
  settle_now = 2_000_000_000_000;
}

abbrev pub closed : Result (Unit {0}) × Db
closed = settle_auction late 4 second_bid.1

pub closed-runs : closed ≡ (ok tt, closed.1)
unfolding place_bid place_bid_body place_bid_locked run_tx end_tx Auctions.get_active_by_item_id
    Auctions.get_by_id optional Bids.get_highest_active_by_auction_id Bids.create extend_if_late
    Auctions.update min_required ceil_div reserve write_log GoldPouches.get_by_guild_id
    GoldPouches.update find_row select update_rows Bids.first_by_amount settle_auction
    settle_auction_body settle_bids settle_with_winner settle credit release release_losers
    Inventories.get_by_guild_and_item Inventories.delete Inventories.upsert Bids.update
    Bids.list_by_auction_id delete_rows
closed-runs = refl
