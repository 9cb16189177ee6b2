-- ===== src/Tests/Api.antt =====
-- Requests to the market's API, and the system that serves them.
use dragon_market.Base.{pos, negsuc, ◌≤◌, ◌≡◌, ◌≢◌, refl, none, some, [], ◌∷◌, arith}
use dragon_market.Strconv.{Text, format_int, parse_int, parse_uint, signed, scan}
use dragon_market.Repository.Db.{Db, Error, rollback}
use dragon_market.GoldPouch.Effects.{total_gold}
use dragon_market.Invariant.{IsSound}
use dragon_market.Api.{Request, Handler, Body}
use dragon_market.Api.Errors.{write_error, service_error}
use dragon_market.Api.Codes.{service_error-distinct}
use dragon_market.Api.Guards.{require_guild_id-format_int, parse_param-format_int}
use dragon_market.Api.Middleware.{require_guild_id, validate_item_id_param, with_param, parse_param}
use dragon_market.Api.Router.{Dependencies, Route, serve, handlers}
use dragon_market.Api.Served.{serve-keeps}
use dragon_market.Api.Refused.{serve-refused}
use dragon_market.System.{Event, step, Reach}
use dragon_market.System.Reachable.{Reach-keeps}
use dragon_market.Invariant.History.{Ages}
use dragon_market.System.Final.{Reach-Ages}
use dragon_market.System.Truth.{Truthful, Reach-Truthful}
use dragon_market.Tests.Market.{opened, opened-IsSound, working}
use dragon_market.Tests.Prices.{a_cache, none_cached}

abbrev deps : Dependencies
deps = record {
  pool = working;
  price_cache = λ _. none;
  begin = 10;
  now = 20;
  reserve_now = 30;
  settle_now = 30;
}

-- A bid of 150 on item 5, by the guild of the header.
abbrev bid_by : Text → Request
bid_by header = record {
  id = b'5' ∷ [];
  bid_id = [];
  guild_header = header;
  limit = [];
  offset = [];
  create_item = none;
  purchase = none;
  create_auction = none;
  place_bid = some (record { amount = pos 150 });
}

serve-keeps_example :
    IsSound (serve deps Route.bid_post (bid_by (b'2' ∷ [])) opened).1
    × (total_gold (serve deps Route.bid_post (bid_by (b'2' ∷ [])) opened).1 ≡ 3000)
serve-keeps_example = serve-keeps deps opened Route.bid_post (bid_by (b'2' ∷ [])) opened-IsSound

nobody-refused : 400 ≤ (serve deps Route.bid_post (bid_by []) opened).0.status
unfolding serve handlers validate_item_id_param with_param parse_param parse_int parse_uint scan
    signed require_guild_id
nobody-refused = omega arith

serve-refused_example :
    rollback opened (serve deps Route.bid_post (bid_by []) opened).1
    ≡ (serve deps Route.bid_post (bid_by []) opened).1
serve-refused_example = serve-refused deps Route.bid_post (bid_by []) opened nobody-refused

parse_param-format_int_example : parse_param (format_int (negsuc 1042)) ≡ some (negsuc 1042)
parse_param-format_int_example = parse_param-format_int (negsuc 1042) (omega arith)

low_code : (service_error Error.bid_too_low).1 ≢ "INTERNAL_ERROR"
unfolding service_error
low_code h = cc

service_error-distinct_example : Error.bid_too_low ≡ Error.bid_too_low
service_error-distinct_example =
    service_error-distinct Error.bid_too_low Error.bid_too_low low_code refl

abbrev echo : Handler
echo c d = (record { status = 200; body = Body.empty }, d)

require_guild_id-format_int_example :
    require_guild_id echo (record { request = bid_by (format_int (pos 0)); guild = none }) opened
    ≡ (write_error 400 "INVALID_GUILD_HEADER", opened)
require_guild_id-format_int_example =
    require_guild_id-format_int echo
      (record { request = bid_by (format_int (pos 0)); guild = none }) (pos 0) opened (omega arith)
      refl

abbrev bid_event : Event
bid_event = Event.request deps Route.bid_post (bid_by (b'2' ∷ []))

Reach-keeps_example :
    IsSound (step a_cache bid_event ((λ _. none), opened)).1
    × (total_gold (step a_cache bid_event ((λ _. none), opened)).1 ≡ 3000)
Reach-keeps_example =
    Reach-keeps a_cache ((λ _. none), opened) (step a_cache bid_event ((λ _. none), opened))
      (Reach.after ((λ _. none), opened) bid_event Reach.start) opened-IsSound

-- A round of the updater and a bid after it.
abbrev priced_state : a_cache.State × Db
priced_state = step a_cache (Event.refresh (λ _. some (pos 8000)) 15) ((λ _. none), opened)

Reach-Truthful_example : Truthful a_cache (step a_cache bid_event priced_state)
Reach-Truthful_example =
    Reach-Truthful a_cache ((λ _. none), opened) (step a_cache bid_event priced_state)
      (Reach.after priced_state bid_event
        (Reach.after ((λ _. none), opened) (Event.refresh (λ _. some (pos 8000)) 15) Reach.start))
      opened-IsSound (λ id p. none_cached id p)

Reach-Ages_example : Ages opened (step a_cache bid_event priced_state).1
Reach-Ages_example =
    Reach-Ages a_cache ((λ _. none), opened) (step a_cache bid_event priced_state)
      (Reach.after priced_state bid_event
        (Reach.after ((λ _. none), opened) (Event.refresh (λ _. some (pos 8000)) 15) Reach.start))
      opened-IsSound
