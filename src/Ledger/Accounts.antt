-- ===== src/Ledger/Accounts.antt =====
-- A pouch as an account, and what a method's write does to the ledger.
use mathlib.Core.Option
use cubical.Cubical.Foundations.Prelude.{fun_ext}
use dragon_market.Base.{
  ℕ, ◌≡◌, refl, ◌/◌, ap, ◌∙◌, Option, some, ◌==◌, if◌then◌else◌, arith, Bool, true, false, ==→eq,
}
use dragon_market.Clock.{same_utc_date, day}
use dragon_market.Repository.Rows.{GoldPouch, TransactionType, Reference}
use dragon_market.Repository.Db.{Db, is_some}
use dragon_market.Repository.GoldPouches.{pouch_of}
use dragon_market.Repository.TransactionLogs.{guild_row}
use dragon_market.GoldPouch.Outcomes.{IsPouch, written, pouch_of-guild_id}
use dragon_market.GoldPouch.Effects.{pouch_of-written}
use dragon_market.Ledger.{Account, Ledger, put}

-- The account that a pouch stands for on a day: what was spent on another day is not counted.
abbrev account_on : ℕ → GoldPouch → Account
account_on today gp = record {
  total = gp.total_balance;
  held = gp.reserved_balance;
  limit = gp.daily_spending_limit;
  spent = if gp.last_reset_date / day == today then gp.spent_today else 0;
}

abbrev pub account_at : ℕ → GoldPouch → Account
account_at now = account_on (now / day)

abbrev pub ledger_at : ℕ → Db → Ledger
ledger_at now d g = Option.map (account_at now) (pouch_of g d)

-- The pouches that the schema admits, each of a guild that is there.
pub record HasPouches (d : Db) : Type 0 where
  pub pouches : (g : ℕ) (gp : GoldPouch) → pouch_of g d ≡ some gp → IsPouch gp
  pub members : (g : ℕ) (gp : GoldPouch) → pouch_of g d ≡ some gp → is_some (guild_row g d) ≡ true

map-if :
    {A B : Type 0} (f : A → B) (b : Bool) (x : A) (o : Option A)
    → Option.map f (if b then some x else o) ≡ (if b then some (f x) else Option.map f o)
map-if f true x o = refl
map-if f false x o = refl

module _ (g : ℕ) (old new : GoldPouch) (d : Db) (kind : TransactionType) (n : ℕ)
    (reference : Option Reference) (t : ℕ) (found : pouch_of g d ≡ some old)
    (same_guild : new.guild_id ≡ g) (same_id : new.id ≡ old.id) where
  after-pouch_of :
      (h : ℕ)
      → pouch_of h (written new kind n reference t d) ≡ (if h == g then some new else pouch_of h d)
  after-pouch_of h =
      pouch_of-written g old new d kind n reference t h found same_guild
        (pouch_of-guild_id g d old found) same_id

  pub written-HasPouches :
      IsPouch new → HasPouches d → HasPouches (written new kind n reference t d)
  written-HasPouches v s = record {
    pouches = λ h gp e. ground (arith, after-pouch_of h, s.pouches h gp);
    members = λ h gp e. ground (arith, after-pouch_of h, s.members h gp, s.members g old found);
  }

  pub ledger_at-written :
      (now : ℕ)
      → ledger_at now (written new kind n reference t d)
        ≡ put g (account_at now new) (ledger_at now d)
  ledger_at-written now = fun_ext λ h.
      ap (Option.map (account_at now)) (after-pouch_of h)
      ∙ map-if (account_at now) (h == g) new (pouch_of h d)

-- On one day the reading of the clock does not matter.
pub ledger_at-same_utc_date :
    (now when : ℕ) (d : Db) → same_utc_date now when ≡ true → ledger_at now d ≡ ledger_at when d
ledger_at-same_utc_date now when d e =
    fun_ext
      λ g. ap (λ k. Option.map (account_on k) (pouch_of g d)) (==→eq (now / day) (when / day) e)
