-- ===== src/Ledger.antt =====
-- What GoldPouchService promises, without tables, rows and dates: an account of each guild, as of
-- one day, and the four calls on it.
pub mod Accounts
pub mod Methods
pub mod Matching
pub mod Refinement
use dragon_market.Base.{
  ℕ, ℤ, pos, negsuc, positive, ◌+◌, ◌-◌, Bool, true, false, not, Option, none, some, List, [], ◌∷◌,
  ltb, ◌==◌, if◌then◌else◌,
}
use dragon_market.Repository.Rows.{TransactionType, Reference}
use dragon_market.Repository.Db.{Db, Tx, Error, Result, ok, err, int4_max}
use dragon_market.GoldPouch.{reserve, release, settle, credit, may_settle}

pub record Account : Type 0 where
  pub total : ℕ
  pub held : ℕ
  pub limit : ℕ
  pub spent : ℕ

abbrev pub Ledger : Type 0
Ledger = ℕ → Option Account

pub data Op : Type 0 where
  hold free deposit : Op
  pay : TransactionType → Op

-- A call, with its transaction's start and its reading of the clock.
pub record Call : Type 0 where
  pub op : Op
  pub guild : ℕ
  pub amount : ℤ
  pub reference : Option Reference
  pub begin : ℕ
  pub now : ℕ

-- What a call of an amount above zero makes of the account.
unfoldable pub settle_account : Op → ℕ → Account → Result Account
settle_account Op.hold n a =
    if ltb (a.total - a.held) n
    then err Error.insufficient_balance
    else if ltb a.limit (a.spent + n)
    then err Error.daily_limit_exceeded
    else ok (record a { held = a.held + n })
settle_account Op.free n a =
    if ltb a.held n then err Error.insufficient_reserved else ok (record a { held = a.held - n })
settle_account Op.deposit n a =
    if ltb int4_max (a.total + n) then err Error.driver else ok (record a { total = a.total + n })
settle_account (Op.pay kind) n a =
    if ltb a.held n
    then err Error.insufficient_reserved
    else if ltb a.limit (a.spent + n)
    then err Error.daily_limit_exceeded
    else ok (record a { total = a.total - n; held = a.held - n; spent = a.spent + n })

abbrev pub may_do : Op → Bool
may_do (Op.pay kind) = may_settle kind
may_do _ = true

unfoldable pub account_after : Call → Option Account → Result Account
account_after c a = elim (positive c.amount) [
  | none ↦ err Error.invalid_amount
  | some n ↦
      if not (may_do c.op)
      then err Error.invalid_transaction_type
      else elim a [ none ↦ err Error.not_found | some a ↦ settle_account c.op n a ]
]

abbrev pub put : ℕ → Account → Ledger → Ledger
put g a l h = if h == g then some a else l h

abbrev pub book : ℕ → Ledger → Result Account → Result (Unit {0}) × Ledger
book g l (ok a) = (ok tt, put g a l)
book g l (err e) = (err e, l)

-- One call on the ledger, and a sequence of them with their answers.
unfoldable pub apply : Call → Ledger → Result (Unit {0}) × Ledger
apply c l = book c.guild l (account_after c (l c.guild))

unfoldable pub apply_all : List Call → Ledger → List (Result (Unit {0})) × Ledger
apply_all [] l = ([], l)
apply_all (c ∷ cs) l = let (r, l1) = apply c l in let (rs, l2) = apply_all cs l1 in (r ∷ rs, l2)

-- The same calls on the service.
unfoldable pub execute : Call → Db → Result (Unit {0}) × Db
execute c d = elim c.op [
  | Op.hold ↦ reserve c.guild c.amount c.reference c.now c.begin d
  | Op.free ↦ release c.guild c.amount c.reference c.begin d
  | Op.deposit ↦ credit c.guild c.amount c.reference c.begin d
  | Op.pay kind ↦ settle c.guild c.amount kind c.reference c.now c.begin d
]

unfoldable pub execute_all : List Call → Db → List (Result (Unit {0})) × Db
execute_all [] d = ([], d)
execute_all (c ∷ cs) d =
    let (r, d1) = execute c d in let (rs, d2) = execute_all cs d1 in (r ∷ rs, d2)
