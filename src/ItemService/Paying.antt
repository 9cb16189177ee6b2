-- ===== src/ItemService/Paying.antt =====
-- The payment of a purchase: when it succeeds.
use mathlib.Core.Path.{subst}
use dragon_market.Base.{ℕ, pos, ◌≤◌, ◌<◌, ◌≡◌, ◌≢◌, ◌∙◌, ◌+◌, ◌-◌, Option, some, arith}
use dragon_market.Repository.Rows.{GoldPouch, TransactionType, Reference}
use dragon_market.Repository.Db.{Db, ok, ◌>>◌, bind-ok, is_some→eq, int4_max}
use dragon_market.Repository.GoldPouches.{pouch_of}
use dragon_market.GoldPouch.{reset_day, reserve, settle, credit}
use dragon_market.GoldPouch.Outcomes.{reserve_lem, settle_lem, credit_lem}
use dragon_market.Atomic.{Ends}
use dragon_market.ItemService.Payment.{payment-Ends}
use dragon_market.ItemService.Paid.{
  Paid, held, held_db, spent_db, paid_db, held-IsPouch, spent_db-IsSound, pouch_of-spent,
  pouch_of-held,
}
use dragon_market.Invariant.{IsSound}

module _ (buyer seller n : ℕ) (reference : Option Reference) (reserve_now settle_now t : ℕ) (d : Db)
    (s : IsSound d) (gp : GoldPouch) (fp : pouch_of buyer d ≡ some gp) (to : GoldPouch)
    (ft : pouch_of seller d ≡ some to) (apart : seller ≢ buyer) (z : 0 < n)
    (room : n ≤ gp.total_balance - gp.reserved_balance)
    (limit : (reset_day reserve_now gp).spent_today + n ≤ gp.daily_spending_limit)
    (fit : to.total_balance + n ≤ int4_max) where
  abbrev held_state : Db
  held_state = held_db buyer seller n reference reserve_now settle_now t d s gp

  abbrev spent_state : Db
  spent_state = spent_db buyer seller n reference reserve_now settle_now t d s gp

  abbrev held_pouch : GoldPouch
  held_pouch = held buyer seller n reference reserve_now settle_now t d s gp

  -- Settle meets the limit that Reserve has met.
  limit' : (reset_day settle_now held_pouch).spent_today + n ≤ gp.daily_spending_limit
  limit' = ground (arith, limit)

  ft' : pouch_of seller spent_state ≡ some to
  ft' =
      pouch_of-spent buyer seller n reference reserve_now settle_now t d s gp fp seller
      ∙ ground (arith, apart, ft)

  abbrev paid_state : Db
  paid_state =
      paid_db buyer seller n reference reserve_now settle_now t d s gp fp room limit' z to ft'

  reserve-ok : reserve buyer (pos n) reference reserve_now t d ≡ (ok tt, held_state)
  reserve-ok =
      let (row, fg) = is_some→eq (s.members buyer gp fp) in
      reserve_lem buyer gp n reference t d reserve_now fp (s.pouches buyer gp fp) fg
      ∙ ground (arith, z, room, limit)

  settle-ok :
      settle buyer (pos n) TransactionType.purchase reference settle_now t held_state
      ≡ (ok tt, spent_state)
  settle-ok =
      let (row, fg) = is_some→eq (s.members buyer gp fp) in
      settle_lem buyer held_pouch n reference t held_state TransactionType.purchase settle_now
        (pouch_of-held buyer seller n reference reserve_now settle_now t d s gp fp)
        (held-IsPouch buyer seller n reference reserve_now settle_now t d s gp fp room) fg
      ∙ ground (arith, z, limit')

  credit-ok : credit seller (pos n) reference t spent_state ≡ (ok tt, paid_state)
  credit-ok =
      let sound =
        spent_db-IsSound buyer seller n reference reserve_now settle_now t d s gp fp room limit' in
      let (row, fg) = is_some→eq (sound.members seller to ft') in
      credit_lem seller to n reference t spent_state ft' (sound.pouches seller to ft') fg
      ∙ ground (arith, z, fit)

  payment-ok :
      (reserve buyer (pos n) reference reserve_now
          >> (settle buyer (pos n) TransactionType.purchase reference settle_now
              >> credit seller (pos n) reference))
        t d
      ≡ (ok tt, paid_state)
  payment-ok =
      bind-ok (reserve buyer (pos n) reference reserve_now)
        (λ _.
          settle buyer (pos n) TransactionType.purchase reference settle_now
          >> credit seller (pos n) reference)
        t d tt held_state reserve-ok
      ∙ bind-ok (settle buyer (pos n) TransactionType.purchase reference settle_now)
          (λ _. credit seller (pos n) reference) t held_state tt spent_state settle-ok
      ∙ credit-ok

  pub payment-Paid :
      (x : Db) × ((reserve buyer (pos n) reference reserve_now
            >> (settle buyer (pos n) TransactionType.purchase reference settle_now
                >> credit seller (pos n) reference))
          t d
        ≡ (ok tt, x))
      × Paid buyer seller n d x
  payment-Paid = (
    paid_state,
    payment-ok,
    subst (Ends (λ _. Paid buyer seller n d) d) payment-ok
        (payment-Ends buyer seller n reference reserve_now settle_now t d s),
  )
