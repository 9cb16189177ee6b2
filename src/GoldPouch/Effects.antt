-- ===== src/GoldPouch/Effects.antt =====
-- What the tables show after a method of GoldPouchService has written a pouch.
use dragon_market.Base.{ℕ, ◌≡◌, refl, ◌+◌, Option, none, some, ◌==◌, if◌then◌else◌, arith}
use dragon_market.Repository.Rows.{GoldPouch, TransactionType, Reference}
use dragon_market.Repository.Db.{Db}
use dragon_market.Repository.GoldPouches.{pouch_of, set_columns, of_guild}
use dragon_market.Repository.Keys.{
  Distinct, find_row-update_rows, update_rows-Distinct, sum_by, sum_by-update_rows,
}
use dragon_market.GoldPouch.Outcomes.{written}

abbrev pub guild_key : GoldPouch → ℕ
guild_key gp = gp.guild_id

-- All gold there is.
abbrev pub total_gold : Db → ℕ
total_gold d = sum_by (λ gp. gp.total_balance) d.gold_pouches

-- The reserved balance of a guild; a guild without a pouch holds nothing.
abbrev pub reserved_of : ℕ → Db → ℕ
reserved_of g d = elim (pouch_of g d) [ none ↦ 0 | some gp ↦ gp.reserved_balance ]

module _ (g : ℕ) (old new : GoldPouch) (d : Db) (kind : TransactionType) (n : ℕ)
    (reference : Option Reference) (t : ℕ) where
  -- The written row is the one that the guild's next query finds; no other guild's changes.
  pub pouch_of-written :
      (h : ℕ)
      → pouch_of g d ≡ some old
      → new.guild_id ≡ g
      → old.guild_id ≡ g
      → new.id ≡ old.id
      → pouch_of h (written new kind n reference t d) ≡ (if h == g then some new else pouch_of h d)
  pouch_of-written h found same_guild kept_guild same_id = ground (
    arith,
    find_row-update_rows guild_key new.guild_id h (set_columns new) d.gold_pouches (λ r. refl),
  )

  pub total_gold-written :
      Distinct guild_key d.gold_pouches
      → pouch_of g d ≡ some old
      → new.guild_id ≡ g
      → total_gold (written new kind n reference t d) + old.total_balance
        ≡ total_gold d + new.total_balance
  total_gold-written v found same_guild = rw same_guild (
      sum_by-update_rows guild_key (λ gp. gp.total_balance) g (set_columns new) d.gold_pouches old v
        found)

  pub written-Distinct :
      Distinct guild_key d.gold_pouches
      → Distinct guild_key (written new kind n reference t d).gold_pouches
  written-Distinct v =
      update_rows-Distinct guild_key (of_guild new.guild_id) (set_columns new) (λ r. refl)
        d.gold_pouches v
