-- ===== src/Api/Codes.antt =====
-- The codes tell the errors apart: a client can recover the error that a service returned.
use Prim.Native.String.{String}
use text.Mathlib.Text.{◌==◌ as str_eq}
use dragon_market.Base.{◌≡◌, ◌≢◌, refl, ap, ◌∙◌, Option, none, some, some_eq, if◌then◌else◌}
use dragon_market.Repository.Db.{Error}
use dragon_market.Api.Errors.{service_error}

-- The error behind a code.
error_of : String → Option Error
error_of code =
    if str_eq code "INVALID_RARITY"
    then some Error.invalid_rarity
    else if str_eq code "INVALID_PRICE"
    then some Error.invalid_price
    else if str_eq code "MISSING_PRICE"
    then some Error.missing_price
    else if str_eq code "MISSING_QUANTITY"
    then some Error.missing_quantity
    else if str_eq code "INVALID_QUANTITY"
    then some Error.invalid_quantity
    else if str_eq code "INVALID_AMOUNT"
    then some Error.invalid_amount
    else if str_eq code "GUILD_NOT_FOUND"
    then some Error.guild_not_found
    else if str_eq code "ITEM_NOT_FOUND"
    then some Error.item_not_found
    else if str_eq code "NOT_FOUND"
    then some Error.not_found
    else if str_eq code "LISTING_NOT_ACTIVE"
    then some Error.listing_not_active
    else if str_eq code "INSUFFICIENT_QUANTITY"
    then some Error.insufficient_quantity
    else if str_eq code "LEGENDARY_CONFLICT"
    then some Error.legendary_conflict
    else if str_eq code "INSUFFICIENT_BALANCE"
    then some Error.insufficient_balance
    else if str_eq code "INSUFFICIENT_RESERVED"
    then some Error.insufficient_reserved
    else if str_eq code "DAILY_LIMIT_EXCEEDED"
    then some Error.daily_limit_exceeded
    else if str_eq code "INVALID_DURATION"
    then some Error.invalid_duration
    else if str_eq code "ITEM_NOT_LEGENDARY"
    then some Error.item_not_legendary
    else if str_eq code "AUCTION_NOT_FOUND"
    then some Error.auction_not_found
    else if str_eq code "BID_NOT_FOUND"
    then some Error.bid_not_found
    else if str_eq code "NOT_ITEM_OWNER"
    then some Error.not_item_owner
    else if str_eq code "AUCTION_ALREADY_EXISTS"
    then some Error.auction_already_exists
    else if str_eq code "AUCTION_NOT_ACTIVE"
    then some Error.auction_not_active
    else if str_eq code "AUCTION_EXPIRED"
    then some Error.auction_expired
    else if str_eq code "SELF_BID_NOT_ALLOWED"
    then some Error.self_bid_not_allowed
    else if str_eq code "BID_TOO_LOW"
    then some Error.bid_too_low
    else if str_eq code "NOT_BID_OWNER"
    then some Error.not_bid_owner
    else if str_eq code "BID_NOT_ACTIVE"
    then some Error.bid_not_active
    else if str_eq code "BID_IS_HIGHEST"
    then some Error.bid_is_highest
    else none

-- Every error but those that are reported as internal is found again by its code.
error_of-service_error :
    (e : Error) → (service_error e).1 ≢ "INTERNAL_ERROR" → error_of (service_error e).1 ≡ some e
unfolding error_of service_error
error_of-service_error Error.invalid_rarity h = refl
error_of-service_error Error.invalid_price h = refl
error_of-service_error Error.missing_price h = refl
error_of-service_error Error.missing_quantity h = refl
error_of-service_error Error.invalid_quantity h = refl
error_of-service_error Error.invalid_amount h = refl
error_of-service_error Error.guild_not_found h = refl
error_of-service_error Error.item_not_found h = refl
error_of-service_error Error.not_found h = refl
error_of-service_error Error.listing_not_active h = refl
error_of-service_error Error.insufficient_quantity h = refl
error_of-service_error Error.legendary_conflict h = refl
error_of-service_error Error.insufficient_balance h = refl
error_of-service_error Error.insufficient_reserved h = refl
error_of-service_error Error.daily_limit_exceeded h = refl
error_of-service_error Error.invalid_duration h = refl
error_of-service_error Error.item_not_legendary h = refl
error_of-service_error Error.auction_not_found h = refl
error_of-service_error Error.bid_not_found h = refl
error_of-service_error Error.not_item_owner h = refl
error_of-service_error Error.auction_already_exists h = refl
error_of-service_error Error.auction_not_active h = refl
error_of-service_error Error.auction_expired h = refl
error_of-service_error Error.self_bid_not_allowed h = refl
error_of-service_error Error.bid_too_low h = refl
error_of-service_error Error.not_bid_owner h = refl
error_of-service_error Error.bid_not_active h = refl
error_of-service_error Error.bid_is_highest h = refl
error_of-service_error Error.invalid_transaction_type h = absurd (h refl)
error_of-service_error Error.auction_not_eligible h = absurd (h refl)
error_of-service_error Error.unique_violation h = absurd (h refl)
error_of-service_error Error.check_violation h = absurd (h refl)
error_of-service_error Error.foreign_key_violation h = absurd (h refl)
error_of-service_error Error.driver h = absurd (h refl)

-- Two errors with one code are the same error, unless the code is INTERNAL_ERROR.
pub service_error-distinct :
    (e e' : Error)
    → (service_error e).1 ≢ "INTERNAL_ERROR"
    → (service_error e).1 ≡ (service_error e').1
    → e ≡ e'
service_error-distinct e e' h same =
    some_eq (error_of-service_error e h)
      (ap error_of same ∙ error_of-service_error e' (λ internal. h (same ∙ internal)))
