-- ===== src/Repository/Db.antt =====
-- The database with its sequences, the errors that the program tells apart, and a transaction
-- (pgx.Tx, begun and ended as every service method does it).
use dragon_market.Base.{
  ap, ◌≡◌, refl, ℕ, ◌-◌, Bool, true, false, Option, none, some, List, leb, ltb, if◌then◌else◌,
}
use dragon_market.Repository.Rows.{
  Character, Guild, Item, Inventory, GoldPouch, Listing, Auction, Bid, TransactionLog,
}

-- The next id of each BIGSERIAL column.
pub record Sequences : Type 0 where
  pub characters : ℕ
  pub guilds : ℕ
  pub gold_pouches : ℕ
  pub items : ℕ
  pub inventories : ℕ
  pub listings : ℕ
  pub auctions : ℕ
  pub bids : ℕ
  pub transaction_logs : ℕ

pub record Db : Type 0 where
  pub characters : List Character
  pub guilds : List Guild
  pub items : List Item
  pub inventories : List Inventory
  pub gold_pouches : List GoldPouch
  pub listings : List Listing
  pub auctions : List Auction
  pub bids : List Bid
  pub transaction_logs : List TransactionLog
  pub next : Sequences

-- The error values, without the text that `fmt.Errorf` wraps round them. `driver` is an error that
-- the program does not tell apart: a failed connection, or a number that its column cannot hold.
pub data Error : Type 0 where
  invalid_amount insufficient_balance insufficient_reserved : Error
  daily_limit_exceeded invalid_transaction_type : Error
  invalid_rarity invalid_price missing_price missing_quantity : Error
  guild_not_found item_not_found listing_not_active : Error
  insufficient_quantity invalid_quantity legendary_conflict : Error
  invalid_duration not_item_owner item_not_legendary : Error
  auction_already_exists auction_not_found auction_not_active auction_expired : Error
  self_bid_not_allowed bid_too_low bid_not_found not_bid_owner : Error
  bid_not_active bid_is_highest : Error
  auction_not_eligible : Error
  not_found : Error
  unique_violation check_violation foreign_key_violation : Error
  driver : Error

pub data Result {ℓ} (A : Type ℓ) : Type ℓ where
  ok : A → Result A
  err : Error → Result A

-- A statement or a method inside a transaction that began at the given time, the database's now().
abbrev pub Tx {ℓ} : Type ℓ → Type ℓ
Tx A = ℕ → Db → Result A × Db

infixl 5 ◌>>=◌ ◌>>◌
abbrev pub ◌>>=◌ {ℓ κ} : {A : Type ℓ} {B : Type κ} → Tx A → (A → Tx B) → Tx B
◌>>=◌ m f t d = let (r, d') = m t d in elim r [ ok a ↦ f a t d' | err e ↦ (err e, d') ]

abbrev pub ◌>>◌ {ℓ κ} : {A : Type ℓ} {B : Type κ} → Tx A → Tx B → Tx B
m >> k = m >>= λ _. k

-- A bind after a statement whose result is known.
pub bind-ok {ℓ κ} :
    {A : Type ℓ} {B : Type κ} (m : Tx A) (f : A → Tx B) (t : ℕ) (d : Db) (a : A) (d' : Db)
    → m t d ≡ (ok a, d')
    → (m >>= f) t d ≡ f a t d'
bind-ok m f t d a d' e = ap (λ r. elim r.0 [ ok a ↦ f a t r.1 | err e ↦ (err e, r.1) ]) e

abbrev pub pure {ℓ} : {A : Type ℓ} → A → Tx A
pure a t d = (ok a, d)

abbrev pub raise {ℓ} : {A : Type ℓ} → Error → Tx A
raise e t d = (err e, d)

-- `if c { return e }`
abbrev pub raise_if : Bool → Error → Tx (Unit {0})
raise_if true e t d = (err e, d)
raise_if false e t d = (ok tt, d)

-- A query of at most one row: `scanErr` turns its absence into ErrNotFound.
abbrev pub or_raise {ℓ} : {A : Type ℓ} → Option A → Error → Tx A
or_raise none e t d = (err e, d)
or_raise (some a) e t d = (ok a, d)

abbrev pub gets {ℓ} : {A : Type ℓ} → (Db → A) → Tx A
gets f t d = (ok (f d), d)

-- `errors.Is(err, from)`: one error is replaced by another, the rest passes through.
abbrev pub is_not_found : Error → Bool
is_not_found Error.not_found = true
is_not_found _ = false

abbrev pub on_not_found {ℓ} : {A : Type ℓ} → Error → Tx A → Tx A
on_not_found e m t d =
    let (r, d') = m t d in
    elim r [ ok a ↦ (ok a, d') | err e' ↦ (err (if is_not_found e' then e else e'), d') ]

-- now(), the time at which the transaction began
abbrev pub db_now : Tx ℕ
db_now t d = (ok t, d)

abbrev pub is_some {ℓ} : {A : Type ℓ} → Option A → Bool
is_some none = false
is_some (some _) = true

pub is_some→eq {ℓ} : {A : Type ℓ} {o : Option A} → is_some o ≡ true → (a : A) × (o ≡ some a)
is_some→eq {o = none} h = cc
is_some→eq {o = some a} h = (a, refl)

-- A foreign key: the row that it names must be there.
abbrev pub require_row {ℓ} : {A : Type ℓ} → Option A → Tx (Unit {0})
require_row none = raise Error.foreign_key_violation
require_row (some _) = pure tt

-- A difference for a column with a CHECK (… >= 0): the UPDATE of a negative one is refused.
abbrev pub minus : ℕ → ℕ → Tx ℕ
minus a b = if ltb a b then raise Error.check_violation else pure (a - b)

-- The largest value of an INTEGER column.
abbrev pub int4_max : ℕ
int4_max = 2_147_483_647

abbrev pub fits : ℕ → Bool
fits n = leb n int4_max

-- What the connection does at the two calls that carry no statement.
pub record Connection : Type 0 where
  pub begins : Bool
  pub commits : Bool

-- What a rollback leaves: the tables as they were; a sequence is never set back.
abbrev pub rollback : Db → Db → Db
rollback before after = record before { next = after.next }

-- The way out of a method: `Commit` after the body, or the deferred `Rollback`.
unfoldable pub end_tx {ℓ} : {A : Type ℓ} → Bool → Db → Result A × Db → Result A × Db
end_tx true before (ok a, after) = (ok a, after)
end_tx false before (ok a, after) = (err Error.driver, rollback before after)
end_tx commits before (err e, after) = (err e, rollback before after)

unfoldable pub run_tx {ℓ} : {A : Type ℓ} → Connection → ℕ → Tx A → Db → Result A × Db
unfolding end_tx
run_tx c t m d = if c.begins then end_tx c.commits d (m t d) else (err Error.driver, d)
