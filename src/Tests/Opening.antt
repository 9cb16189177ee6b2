-- ===== src/Tests/Opening.antt =====
-- Guild 2 has a legendary ring and opens an auction of it.
use dragon_market.Base.{pos, ◌≡◌, none, [], ◌∷◌, arith}
use dragon_market.Repository.Tables.{select}
use dragon_market.Repository.Rows.{Auction, Item, ItemRarity, Inventory}
use dragon_market.Repository.Db.{Db, Result, ok}
use dragon_market.Repository.Items
use dragon_market.Repository.Auctions
use dragon_market.Repository.Inventories
use dragon_market.Auction.Opening.{
  CreateAuctionInput, AuctionView, create_auction, list_active_auctions, to_auction_view,
}
use dragon_market.Auction.Opening.Opened.{new_auction, create_auction-IsSound}
use dragon_market.Auction.Opening.Added.{Added}
use dragon_market.Auction.Opening.Pages.{list_active_auctions-window}
use dragon_market.Invariant.{IsSound}
use dragon_market.Invariant.Side.{beside, beside-IsSound}
use dragon_market.Tests.Market.{opened, opened-IsSound, an_auction, working}

abbrev ring : Item
ring = record {
  id = 6;
  name = "ring";
  land_of_origin = "";
  rarity = ItemRarity.legendary;
  forger_character_id = 1;
  price = 70;
}

abbrev boxed : Inventory
boxed = record {
  id = 7;
  guild_id = 2;
  item_id = 6;
  quantity = 1;
  item_rarity = ItemRarity.legendary;
}

abbrev with_ring : Db
with_ring = beside (ring ∷ []) (boxed ∷ []) [] [] 7 8 1 1 opened

with_ring-IsSound : IsSound with_ring
with_ring-IsSound = beside-IsSound (ring ∷ []) (boxed ∷ []) [] [] 7 8 1 1 opened opened-IsSound

abbrev an_hour : CreateAuctionInput
an_hour = record { item_id = 6; owner_guild_id = 2; duration_seconds = pos 3600 }

-- Just over 292 years.
abbrev ages : CreateAuctionInput
ages = record { item_id = 6; owner_guild_id = 2; duration_seconds = pos 9_300_000_000 }

abbrev ring_view : AuctionView
ring_view = to_auction_view (new_auction (λ _. none) an_hour 3600 5000 ring with_ring)

abbrev ring_auction : Result AuctionView × Db
ring_auction = create_auction working (λ _. none) an_hour 5000 5000 with_ring

create_auction-IsSound_example : IsSound ring_auction.1
create_auction-IsSound_example =
    create_auction-IsSound working (λ _. none) an_hour 5000 5000 with_ring with_ring-IsSound

abbrev another : Auction
another = record an_auction { id = 5; item_id = 9 }

abbrev two_open : Db
two_open = record opened { auctions = an_auction ∷ another ∷ [] }

-- From the second on, with a limit that takes the sum past an int64.
list_active_auctions-window_example :
    list_active_auctions (pos 9_223_372_036_854_775_807) (pos 1) 10 two_open
    ≡ (ok (to_auction_view another ∷ []), two_open)
unfolding select
list_active_auctions-window_example =
    list_active_auctions-window (pos 9_223_372_036_854_775_807) (pos 1) 10 two_open (omega arith)
      (omega arith) (omega arith)
