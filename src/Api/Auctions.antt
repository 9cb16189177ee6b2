-- ===== src/Api/Auctions.antt =====
-- The handlers of auctions and bids, internal/api/auction_handlers.go.
use dragon_market.Base.{ℤ, Option, none, some, ◌||◌, map, if◌then◌else◌}
use dragon_market.Repository.Rows.{Bid}
use dragon_market.Auction.{PlaceBidInput, CancelBidInput}
use dragon_market.Auction.Opening.{CreateAuctionInput, AuctionView}
use dragon_market.Api.{
  Body, Handler, AuctionService, CreateAuctionRequest, PlaceBidRequest, AuctionResponse,
  BidResponse, id_of,
}
use dragon_market.Api.Errors.{write_error, respond}
use dragon_market.Api.Middleware.{with_param, parse_limit_offset, guild_id_from_context}
use dragon_market.Api.Items.{absent}

abbrev pub new_auction_response : AuctionView → AuctionResponse
new_auction_response v = record {
  id = v.id;
  item_id = v.item_id;
  owner_guild_id = v.owner_guild_id;
  status = v.status;
  start_time = v.start_time;
  end_time = v.end_time;
  base_price = v.base_price;
}

abbrev pub new_bid_response : Bid → BidResponse
new_bid_response v = record {
  id = v.id;
  auction_id = v.auction_id;
  guild_id = v.guild_id;
  amount = v.amount;
  status = v.status;
  created_at = v.created_at;
}

unfoldable pub bind_create_auction : Option CreateAuctionRequest → Option CreateAuctionRequest
bind_create_auction none = none
bind_create_auction (some req) =
    if absent req.item_id || absent req.duration_seconds then none else some req

unfoldable pub bind_place_bid : Option PlaceBidRequest → Option PlaceBidRequest
bind_place_bid none = none
bind_place_bid (some req) = if absent req.amount then none else some req

abbrev pub create_auction_input : ℤ → CreateAuctionRequest → CreateAuctionInput
create_auction_input guild_id req = record {
  item_id = id_of req.item_id;
  owner_guild_id = id_of guild_id;
  duration_seconds = req.duration_seconds;
}

abbrev pub place_bid_input : ℤ → ℤ → PlaceBidRequest → PlaceBidInput
place_bid_input item_id guild_id req = record {
  item_id = id_of item_id;
  guild_id = id_of guild_id;
  amount = req.amount;
}

abbrev pub cancel_bid_input : ℤ → ℤ → ℤ → CancelBidInput
cancel_bid_input item_id bid_id guild_id = record {
  item_id = id_of item_id;
  bid_id = id_of bid_id;
  guild_id = id_of guild_id;
}

module _ (svc : AuctionService) where
  unfoldable pub create : Handler
  create c d = elim (bind_create_auction c.request.create_auction) [
    | none ↦ (write_error 400 "VALIDATION_ERROR", d)
    | some req ↦
        respond (λ r. record { status = 201; body = Body.auction (new_auction_response r) })
          (svc.create_auction (create_auction_input (guild_id_from_context c) req) d)
  ]

  unfoldable pub list : Handler
  list c d =
      let (limit, offset) = parse_limit_offset c.request.limit c.request.offset in
      respond (λ l. record { status = 200; body = Body.auctions (map new_auction_response l) })
        (svc.list_active_auctions limit offset d)

  unfoldable pub get : Handler
  get c = with_param "INVALID_AUCTION_ID" c.request.id λ id d.
      respond (λ view. record { status = 200; body = Body.auction (new_auction_response view) })
        (svc.get_auction (id_of id) d)

  unfoldable pub place_bid : Handler
  place_bid c = with_param "INVALID_ITEM_ID" c.request.id λ item_id d.
      elim (bind_place_bid c.request.place_bid) [
        | none ↦ (write_error 400 "VALIDATION_ERROR", d)
        | some req ↦
            respond (λ b. record { status = 201; body = Body.bid (new_bid_response b) })
              (svc.place_bid (place_bid_input item_id (guild_id_from_context c) req) d)
      ]

  unfoldable pub cancel_bid : Handler
  cancel_bid c = with_param "INVALID_ITEM_ID" c.request.id λ item_id.
      with_param "INVALID_BID_ID" c.request.bid_id λ bid_id d.
        respond (λ _. record { status = 204; body = Body.empty })
          (svc.cancel_bid (cancel_bid_input item_id bid_id (guild_id_from_context c)) d)
