-- ===== src/ItemService/Payment.antt =====
-- The payment of a purchase: Reserve, Settle and Credit in a row, in a sound database.
use mathlib.Core.Path.{subst}
use dragon_market.Base.{ℕ, pos, ◌≤◌, ◌≡◌, sym, ◌-◌, Option, some, arith}
use dragon_market.Repository.Rows.{GoldPouch, TransactionType, Reference}
use dragon_market.Repository.Db.{Db, ◌>>◌}
use dragon_market.Repository.GoldPouches.{pouch_of}
use dragon_market.GoldPouch.{reserve, settle, credit}
use dragon_market.GoldPouch.Endings.{Reserved, Settled}
use dragon_market.Atomic.{Ends, Atomic-Ends, bind-Ends}
use dragon_market.Invariant.{IsSound}
use dragon_market.Invariant.Pouches.{reserve-rule, credit-rule}
use dragon_market.ItemService.Paid.{
  Paid, held, held_db, spent_db, spent_db-IsSound, settle-Atomic, Paid_lem,
}

module _ (buyer seller n : ℕ) (reference : Option Reference) (reserve_now settle_now t : ℕ) (d : Db)
    (s : IsSound d) where
  -- The statements after Reserve, from what it has left.
  after_settle-Ends :
      (gp : GoldPouch) (x : Db)
      → pouch_of buyer d ≡ some gp
      → n ≤ gp.total_balance - gp.reserved_balance
      → Settled
          (held buyer seller n reference reserve_now settle_now t d s gp)
          n
          reference
          t
          (held_db buyer seller n reference reserve_now settle_now t d s gp)
          TransactionType.purchase
          settle_now
          x
      → Ends (λ _. Paid buyer seller n d) d (credit seller (pos n) reference t x)
  after_settle-Ends gp x fp room (z, covered, limit, e) =
      subst (λ y. Ends (λ _. Paid buyer seller n d) d (credit seller (pos n) reference t y)) (sym e)
        (Atomic-Ends (λ _. Paid buyer seller n d) d
          (spent_db buyer seller n reference reserve_now settle_now t d s gp) _
          (omega arith, omega arith)
          (credit-rule seller n reference t
            (spent_db buyer seller n reference reserve_now settle_now t d s gp)
            (spent_db-IsSound buyer seller n reference reserve_now settle_now t d s gp fp room
              (ground (arith, limit)))
            (Paid buyer seller n d)
            (λ to y ft k. subst (Paid buyer seller n d) (sym k.2) (
              Paid_lem buyer seller n reference reserve_now settle_now t d s gp fp room
                (ground (arith, limit)) z to ft k.1))))

  after_reserve-Ends :
      (gp : GoldPouch) (x : Db)
      → pouch_of buyer d ≡ some gp
      → Reserved gp n reference t d reserve_now x
      → Ends
          (λ _. Paid buyer seller n d)
          d
          ((settle buyer (pos n) TransactionType.purchase reference settle_now
              >> credit seller (pos n) reference)
            t x)
  after_reserve-Ends gp x fp (z, room, limit, e) =
      subst
        (λ y.
          Ends (λ _. Paid buyer seller n d) d
            ((settle buyer (pos n) TransactionType.purchase reference settle_now
                >> credit seller (pos n) reference)
              t y))
        (sym e)
        (bind-Ends
          (λ _.
            Settled (held buyer seller n reference reserve_now settle_now t d s gp) n reference t
              (held_db buyer seller n reference reserve_now settle_now t d s gp)
              TransactionType.purchase settle_now)
          (λ _. Paid buyer seller n d) d
          (settle buyer (pos n) TransactionType.purchase reference settle_now)
          (λ _. credit seller (pos n) reference) t
          (held_db buyer seller n reference reserve_now settle_now t d s gp)
          (Atomic-Ends
            (λ _.
              Settled (held buyer seller n reference reserve_now settle_now t d s gp) n reference t
                (held_db buyer seller n reference reserve_now settle_now t d s gp)
                TransactionType.purchase settle_now)
            d (held_db buyer seller n reference reserve_now settle_now t d s gp) _
            (omega arith, omega arith)
            (settle-Atomic buyer seller n reference reserve_now settle_now t d s gp fp room))
          (λ _ y k. after_settle-Ends gp y fp room k))

  abbrev AfterReserve : Db → Type 0
  AfterReserve x =
      Ends (λ _. Paid buyer seller n d) d
        ((settle buyer (pos n) TransactionType.purchase reference settle_now
            >> credit seller (pos n) reference)
          t x)

  pub payment-Ends :
      Ends
        (λ _. Paid buyer seller n d)
        d
        ((reserve buyer (pos n) reference reserve_now
            >> (settle buyer (pos n) TransactionType.purchase reference settle_now
                >> credit seller (pos n) reference))
          t d)
  payment-Ends =
      bind-Ends (λ _. AfterReserve) (λ _. Paid buyer seller n d) d
        (reserve buyer (pos n) reference reserve_now)
        (λ _.
          settle buyer (pos n) TransactionType.purchase reference settle_now
          >> credit seller (pos n) reference)
        t d
        (Atomic-Ends (λ _. AfterReserve) d d _ (omega arith, omega arith)
          (reserve-rule buyer n reference t d s AfterReserve reserve_now
            (λ gp x fp k. after_reserve-Ends gp x fp k)))
        (λ _ y k. k)
