-- ===== src/Api/Errors.antt =====
-- The answers to errors, internal/api/errors.go.
use Prim.Native.String.{String}
use dragon_market.Base.{ℕ}
use dragon_market.Repository.Db.{Db, Error, Result, ok, err}
use dragon_market.Api.{Body, Response}

abbrev pub write_error : ℕ → String → Response
write_error status code = record { status = status; body = Body.error code }

-- The status and the code of an error, with the names of net/http's constants as numbers.
unfoldable pub service_error : Error → ℕ × String
service_error Error.invalid_rarity = (400, "INVALID_RARITY")
service_error Error.invalid_price = (400, "INVALID_PRICE")
service_error Error.missing_price = (400, "MISSING_PRICE")
service_error Error.missing_quantity = (400, "MISSING_QUANTITY")
service_error Error.invalid_quantity = (400, "INVALID_QUANTITY")
service_error Error.invalid_amount = (400, "INVALID_AMOUNT")
service_error Error.guild_not_found = (404, "GUILD_NOT_FOUND")
service_error Error.item_not_found = (404, "ITEM_NOT_FOUND")
service_error Error.not_found = (404, "NOT_FOUND")
service_error Error.listing_not_active = (409, "LISTING_NOT_ACTIVE")
service_error Error.insufficient_quantity = (409, "INSUFFICIENT_QUANTITY")
service_error Error.legendary_conflict = (409, "LEGENDARY_CONFLICT")
service_error Error.insufficient_balance = (409, "INSUFFICIENT_BALANCE")
service_error Error.insufficient_reserved = (409, "INSUFFICIENT_RESERVED")
service_error Error.daily_limit_exceeded = (409, "DAILY_LIMIT_EXCEEDED")
service_error Error.invalid_duration = (400, "INVALID_DURATION")
service_error Error.item_not_legendary = (400, "ITEM_NOT_LEGENDARY")
service_error Error.auction_not_found = (404, "AUCTION_NOT_FOUND")
service_error Error.bid_not_found = (404, "BID_NOT_FOUND")
service_error Error.not_item_owner = (409, "NOT_ITEM_OWNER")
service_error Error.auction_already_exists = (409, "AUCTION_ALREADY_EXISTS")
service_error Error.auction_not_active = (409, "AUCTION_NOT_ACTIVE")
service_error Error.auction_expired = (409, "AUCTION_EXPIRED")
service_error Error.self_bid_not_allowed = (409, "SELF_BID_NOT_ALLOWED")
service_error Error.bid_too_low = (409, "BID_TOO_LOW")
service_error Error.not_bid_owner = (409, "NOT_BID_OWNER")
service_error Error.bid_not_active = (409, "BID_NOT_ACTIVE")
service_error Error.bid_is_highest = (409, "BID_IS_HIGHEST")
service_error _ = (500, "INTERNAL_ERROR")

abbrev pub write_service_error : Error → Response
write_service_error e = let (status, code) = service_error e in write_error status code

-- `if err != nil { writeServiceError(c, err); return }`, and the answer with the result.
unfoldable pub respond {ℓ} : {A : Type ℓ} → (A → Response) → Result A × Db → Response × Db
respond answer (ok a, d) = (answer a, d)
respond answer (err e, d) = (write_service_error e, d)
