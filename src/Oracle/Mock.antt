-- ===== src/Oracle/Mock.antt =====
-- The mock of the price oracle, internal/oracle/mock.go, and the one that startPriceOracleTicker of
-- cmd/server/main.go configures. A random number is a parameter.
use dragon_market.Base.{
  ℕ, ℤ, pos, negsuc, positive, ◌+◌, ◌-◌, ◌*◌, ◌%◌, ◌≤◌, ◌<◌, ◌≡◌, Bool, true, false, ◌&&◌, Option,
  none, some, leb, ◌==◌, if◌then◌else◌, arith, ap, ◌∙◌, Option-cases,
}
use dragon_market.Strconv.{negative}

pub record MockResponse : Type 0 where
  pub price : ℤ
  pub jitter : ℤ
  pub fails : Bool
  pub delay : ℤ

pub record MockPriceOracleService : Type 0 where
  pub default : MockResponse
  pub per_item : ℕ → Option MockResponse

abbrev zero_response : MockResponse
zero_response = record { price = pos 0; jitter = pos 0; fails = false; delay = pos 0 }

abbrev pub new_mock_price_oracle_service : MockPriceOracleService
new_mock_price_oracle_service = record { default = zero_response; per_item = λ _. none }

abbrev pub set_default : MockResponse → MockPriceOracleService → MockPriceOracleService
set_default resp m = record m { default = resp }

abbrev pub set_for_item : ℕ → MockResponse → MockPriceOracleService → MockPriceOracleService
set_for_item item_id resp m = record m {
  per_item = λ id. if id == item_id then some resp else m.per_item id;
}

abbrev pub response_for : MockPriceOracleService → ℕ → MockResponse
response_for m item_id = elim (m.per_item item_id) [ none ↦ m.default | some resp ↦ resp ]

-- The difference of two numbers as an int.
abbrev pub difference : ℕ → ℕ → ℤ
difference a b = if leb b a then pos (a - b) else negative (b - a)

-- `v + r - j`
abbrev pub shifted : ℤ → ℕ → ℕ → ℤ
shifted (pos v) r j = difference (v + r) j
shifted (negsuc v) r j = difference r (v + 1 + j)

abbrev pub is_some_int : Option ℕ → Bool
is_some_int none = false
is_some_int (some _) = true

-- GetPrice; none is an error. `late` tells whether the context is done before the timer, where there
-- is a delay, and rand.IntN(n) is the given number modulo n.
unfoldable pub get_price : MockPriceOracleService → Bool → ℕ → ℕ → Option ℤ
get_price m late random item_id =
    let resp = response_for m item_id in
    if is_some_int (positive resp.delay) && late
    then none
    else if resp.fails
    then none
    else elim (positive resp.jitter) [
      | none ↦ some resp.price
      | some j ↦ some (shifted resp.price (random % (2 * j + 1)) j)
    ]

-- The oracle of startPriceOracleTicker.
abbrev pub ticker_oracle : MockPriceOracleService
ticker_oracle =
    set_default (record { price = pos 8000; jitter = pos 1000; fails = false; delay = pos 0 })
      new_mock_price_oracle_service

mod_below : (a b : ℕ) → 0 < b → a % b < b
mod_below a b h = omega arith

shifted-near : (p r j : ℕ) → j ≤ p → shifted (pos p) r j ≡ pos (p + r - j)
shifted-near p r j small = ground arith

module _ (m : MockPriceOracleService) (item_id p j : ℕ)
    (priced : (response_for m item_id).price ≡ pos p)
    (jittered : positive (response_for m item_id).jitter ≡ some j)
    (works : (response_for m item_id).fails ≡ false) (small : j ≤ p) where
  drawn :
      (random : ℕ)
      → get_price m false random item_id ≡ some (shifted (pos p) (random % (2 * j + 1)) j)
  unfolding get_price
  drawn random =
      ground
        (arith, priced, jittered, works, Option-cases (positive (response_for m item_id).delay))

  -- A response with a positive price, a jitter within it and no failure gives, unless it is late, a
  -- price that is at most the jitter away.
  pub get_price-near :
      (random : ℕ)
      → (n : ℕ) × (get_price m false random item_id ≡ some (pos n)) × (p ≤ n + j) × (n ≤ p + j)
  get_price-near random =
      let r = random % (2 * j + 1) in
      (
        p + r - j,
        drawn random ∙ ap some (shifted-near p r j small),
        omega (arith, mod_below random (2 * j + 1)),
        omega (arith, mod_below random (2 * j + 1)),
      )
