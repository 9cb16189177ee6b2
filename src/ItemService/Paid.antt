-- ===== src/ItemService/Paid.antt =====
-- What the payment of a purchase has done by its end, in a sound database.
use mathlib.Core.Path.{subst}
use dragon_market.Base.{
  ℕ, pos, ◌≤◌, ◌<◌, ◌≡◌, ◌≢◌, refl, sym, ◌∙◌, ◌+◌, ◌-◌, Option, some, List, [], ◌∷◌, ◌++◌, ◌==◌,
  if◌then◌else◌, arith, ap,
}
use dragon_market.Repository.Tables.{update_rows, update_rows-twice}
use dragon_market.Repository.Rows.{GoldPouch, TransactionType, Reference}
use dragon_market.Repository.Db.{Db, is_some→eq}
use dragon_market.Repository.GoldPouches.{pouch_of, of_guild, set_columns}
use dragon_market.GoldPouch.{reset_day, settle}
use dragon_market.GoldPouch.Outcomes.{
  IsPouch, written, settled, entry, settle_lem, pouch_of-guild_id,
}
use dragon_market.GoldPouch.Effects.{total_gold, total_gold-written, pouch_of-written}
use dragon_market.GoldPouch.Endings.{Settled, settle_outcome-Atomic}
use dragon_market.Settlement.Round.{total_of}
use dragon_market.Atomic.{Later, Atomic}
use dragon_market.Invariant.{IsSound}
use dragon_market.Invariant.Retire.{written-IsSound}
use dragon_market.Invariant.Side.{beside-IsSound}

-- What the payment leaves: the gold moved, and nothing but pouches and the log is touched.
pub record Paid (buyer seller n : ℕ) (d d' : Db) : Type 0 where
  pub sound : IsSound d'
  pub later : Later d d'
  pub some_gold : 0 < n
  pub gold : total_gold d' ≡ total_gold d
  pub moved :
      buyer ≢ seller
      → (total_of buyer d' + n ≡ total_of buyer d) × (total_of seller d' ≡ total_of seller d + n)
  pub items : d'.items ≡ d.items
  pub bids : d'.bids ≡ d.bids
  pub auctions : d'.auctions ≡ d.auctions
  pub inventories : d'.inventories ≡ d.inventories
  pub listings : d'.listings ≡ d.listings

-- Of two writes to the pouch of one guild the second counts.
rewritten :
    (first second : GoldPouch) (rows : List GoldPouch)
    → first.guild_id ≡ second.guild_id
    → update_rows
        (of_guild second.guild_id)
        (set_columns second)
        (update_rows (of_guild first.guild_id) (set_columns first) rows)
      ≡ update_rows (of_guild second.guild_id) (set_columns second) rows
rewritten first second rows e =
    subst
      (λ g.
        update_rows (of_guild second.guild_id) (set_columns second)
          (update_rows (of_guild g) (set_columns first) rows)
        ≡ update_rows (of_guild second.guild_id) (set_columns second) rows)
      (sym e)
      (update_rows-twice (of_guild second.guild_id) (set_columns first) (set_columns second) rows
        (λ r. refl) (λ r. refl))

module _ (buyer seller n : ℕ) (reference : Option Reference) (reserve_now settle_now t : ℕ) (d : Db)
    (s : IsSound d) where
  abbrev pub held : GoldPouch → GoldPouch
  held gp = record (reset_day reserve_now gp) { reserved_balance = gp.reserved_balance + n }

  abbrev pub held_db : GoldPouch → Db
  held_db gp = written (held gp) TransactionType.reserve n reference t d

  abbrev pub spent : GoldPouch → GoldPouch
  spent gp = settled (held gp) n settle_now

  abbrev pub spent_db : GoldPouch → Db
  spent_db gp = written (spent gp) TransactionType.purchase n reference t (held_db gp)

  abbrev logged_db : GoldPouch → Db
  logged_db gp = record d {
    transaction_logs =
        d.transaction_logs ++ entry (held gp).guild_id TransactionType.reserve n reference t d ∷ [];
    next = record (d.next) { transaction_logs = d.next.transaction_logs + 1 };
  }

  module _ (gp : GoldPouch) (fp : pouch_of buyer d ≡ some gp) where
    gp-guild : gp.guild_id ≡ buyer
    gp-guild = pouch_of-guild_id buyer d gp fp

    held-guild : (held gp).guild_id ≡ buyer
    held-guild = ground (arith, gp-guild)

    spent-guild : (spent gp).guild_id ≡ buyer
    spent-guild = ground (arith, gp-guild)

    -- Both writes go to the same row.
    spent_db-once :
        spent_db gp ≡ written (spent gp) TransactionType.purchase n reference t (logged_db gp)
    spent_db-once =
        ap (λ rows. record (spent_db gp) { gold_pouches = rows })
          (rewritten (held gp) (spent gp) d.gold_pouches (held-guild ∙ sym spent-guild))

    pub held-IsPouch : n ≤ gp.total_balance - gp.reserved_balance → IsPouch (held gp)
    held-IsPouch room = ground (arith, s.pouches buyer gp fp)

    spent-IsPouch :
        n ≤ gp.total_balance - gp.reserved_balance
        → (reset_day settle_now (held gp)).spent_today + n ≤ gp.daily_spending_limit
        → IsPouch (spent gp)
    spent-IsPouch room limit = ground (arith, s.pouches buyer gp fp)

    pub spent_db-IsSound :
        n ≤ gp.total_balance - gp.reserved_balance
        → (reset_day settle_now (held gp)).spent_today + n ≤ gp.daily_spending_limit
        → IsSound (spent_db gp)
    spent_db-IsSound room limit = subst IsSound (sym spent_db-once) (
        written-IsSound buyer gp (spent gp) TransactionType.purchase n reference t (logged_db gp)
          (beside-IsSound d.items d.inventories d.listings (logged_db gp).transaction_logs
            d.next.items d.next.inventories d.next.listings (logged_db gp).next.transaction_logs d
            s)
          fp spent-guild (ground arith) (spent-IsPouch room limit) (ground arith))

    pub pouch_of-spent :
        (h : ℕ) → pouch_of h (spent_db gp) ≡ (if h == buyer then some (spent gp) else pouch_of h d)
    pouch_of-spent h =
        ap (pouch_of h) spent_db-once
        ∙ pouch_of-written buyer gp (spent gp) (logged_db gp) TransactionType.purchase n reference t
            h fp spent-guild gp-guild (ground arith)

    spent-gold :
        n ≤ gp.total_balance - gp.reserved_balance → total_gold (spent_db gp) + n ≡ total_gold d
    spent-gold room =
        ap (λ x. total_gold x + n) spent_db-once
        ∙ ground (
          arith,
          total_gold-written buyer gp (spent gp) (logged_db gp) TransactionType.purchase n reference
              t s.pouches_distinct fp spent-guild,
          s.pouches buyer gp fp,
        )

    pub pouch_of-held : pouch_of buyer (held_db gp) ≡ some (held gp)
    pouch_of-held =
        pouch_of-written buyer gp (held gp) d TransactionType.reserve n reference t buyer fp
          held-guild gp-guild (ground arith)
        ∙ ground arith

    -- Settle finds what Reserve has held.
    pub settle-Atomic :
        n ≤ gp.total_balance - gp.reserved_balance
        → Atomic
            (λ _. Settled (held gp) n reference t (held_db gp) TransactionType.purchase settle_now)
            (held_db gp)
            (settle buyer (pos n) TransactionType.purchase reference settle_now t (held_db gp))
    settle-Atomic room =
        let (row, fg) = is_some→eq (s.members buyer gp fp) in
        rw
          (settle_lem buyer (held gp) n reference t (held_db gp) TransactionType.purchase settle_now
            pouch_of-held (held-IsPouch room) fg)
          (settle_outcome-Atomic (held gp) n reference t (held_db gp) TransactionType.purchase
            settle_now (held-IsPouch room))

    module _ (room : n ≤ gp.total_balance - gp.reserved_balance)
        (limit : (reset_day settle_now (held gp)).spent_today + n ≤ gp.daily_spending_limit)
        (z : 0 < n) (to : GoldPouch) (ft : pouch_of seller (spent_db gp) ≡ some to) where
      abbrev pub richer : GoldPouch
      richer = record to { total_balance = to.total_balance + n }

      abbrev pub paid_db : Db
      paid_db = written richer TransactionType.credit n reference t (spent_db gp)

      to-guild : to.guild_id ≡ seller
      to-guild = pouch_of-guild_id seller (spent_db gp) to ft

      paid-gold : total_gold paid_db ≡ total_gold d
      paid-gold = omega (
        arith,
        spent-gold room,
        total_gold-written seller to richer (spent_db gp) TransactionType.credit n reference t
            (spent_db-IsSound room limit).pouches_distinct ft to-guild,
      )

      pouch_of-paid :
          (h : ℕ)
          → pouch_of h paid_db ≡ (if h == seller then some richer else pouch_of h (spent_db gp))
      pouch_of-paid h =
          pouch_of-written seller to richer (spent_db gp) TransactionType.credit n reference t h ft
            to-guild to-guild refl

      paid-moved :
          buyer ≢ seller
          → (total_of buyer paid_db + n ≡ total_of buyer d)
            × (total_of seller paid_db ≡ total_of seller d + n)
      paid-moved apart = ground (
        arith,
        pouch_of-paid buyer,
        pouch_of-paid seller,
        pouch_of-spent buyer,
        pouch_of-spent seller,
        s.pouches buyer gp fp,
      )

      pub Paid_lem : to.total_balance + n ≤ 2_147_483_647 → Paid buyer seller n d paid_db
      Paid_lem fit = record {
        sound =
            written-IsSound seller to richer TransactionType.credit n reference t (spent_db gp)
              (spent_db-IsSound room limit) ft to-guild refl
              (ground (arith, (spent_db-IsSound room limit).pouches seller to ft)) refl;
        later = (omega arith, omega arith);
        some_gold = z;
        gold = paid-gold;
        moved = paid-moved;
        items = refl;
        bids = refl;
        auctions = refl;
        inventories = refl;
        listings = refl;
      }
