-- ===== src/Settlement/Winner.antt =====
-- The settlement of an auction that has a highest bid, in a sound database.
pub mod Succeeds
use mathlib.Core.Path.{subst}
use dragon_market.Base.{
  ℕ, pos, ◌≤◌, ◌≡◌, ◌≢◌, refl, sym, ◌∙◌, inl, inr, ◌+◌, true, false, some, List, [], ◌∷◌, ◌==◌,
  if◌then◌else◌, arith, Option-cases,
}
use dragon_market.Repository.Tables.{find_row, delete_rows, select, find_row-never, find_row-select}
use dragon_market.Repository.Rows.{
  Auction, GoldPouch, Bid, BidStatus, Inventory, TransactionType, Reference, bid_active,
}
use dragon_market.Repository.Db.{Db, Tx, Error, is_some→eq, ◌>>=◌, ◌>>◌, int4_max}
use dragon_market.Repository.GoldPouches.{pouch_of}
use dragon_market.Repository.Bids.{bid_row, put_bid_status}
use dragon_market.Repository.Bids
use dragon_market.Repository.Inventories
use dragon_market.Repository.Inventories.{inventory_of}
use dragon_market.Repository.Inventories.Upsert.{with_inventories, Upserted, upsert-Ends}
use dragon_market.Repository.Keys.{
  select-Distinct, Within, select-Within, find_row-update_rows-some,
}
use dragon_market.GoldPouch.{settle, credit, reset_day}
use dragon_market.GoldPouch.Outcomes.{
  IsPouch, written, settled, settle_lem, credit_lem, pouch_of-guild_id,
}
use dragon_market.GoldPouch.Effects.{
  total_gold, total_gold-written, pouch_of-written, written-Distinct,
}
use dragon_market.GoldPouch.Endings.{
  Settled, Credited, settle_outcome-Atomic, credit_outcome-Atomic, credit_missing,
}
use dragon_market.Settlement.{release_losers, settle_with_winner}
use dragon_market.Settlement.Losers.{release_losers_lem}
use dragon_market.Settlement.Round.{Cleared, InPlace, is_loser, total_of}
use dragon_market.Settlement.Marked.{
  Won, settled_db, credited_db, retired_db-IsSound, seller-IsPouch,
}
use dragon_market.Settlement.Ended.{loop-Ends}
use dragon_market.Atomic.{Later, Atomic, Ends, Atomic-Ends, bind-Ends, Ends-from, or_raise-Ends}
use dragon_market.Invariant.{IsSound, bid_key}
use dragon_market.Invariant.Retire.{bid_row-id, retired-IsSound, written-IsSound}

module _ (a : Auction) (w : Bid) (reference : Reference) (settle_now t : ℕ) (d : Db) (s : IsSound d)
    (stored : bid_row w.id d ≡ some w) (active : bid_active w.status ≡ true) (gp : GoldPouch)
    (fp : pouch_of w.guild_id d ≡ some gp) (covered : w.amount ≤ gp.reserved_balance) where
  -- After Settle, and after Credit.
  abbrev settled_state : Db
  settled_state = settled_db a w reference settle_now t d s stored active gp fp covered

  abbrev credited_state : GoldPouch → Db
  credited_state seller =
      credited_db a w reference settle_now t d s stored active gp fp covered seller

  -- The statements after Credit.
  abbrev mark_all : Tx (Unit {0})
  mark_all = do
    Bids.update (record w { status = BidStatus.won })
    all_bids ← Bids.list_by_auction_id a.id
    release_losers w.id reference all_bids

  abbrev hand_over : Inventory → Tx (Unit {0})
  hand_over seller_inv = do
    Inventories.delete seller_inv.id
    _inv ← Inventories.upsert w.guild_id a.item_id 1
    mark_all

  abbrev deliver : Tx (Unit {0})
  deliver = do
    seller_inv ← Inventories.get_by_guild_and_item a.owner_guild_id a.item_id
    hand_over seller_inv

  module _
      (limit : (reset_day settle_now gp).spent_today + w.amount ≤ gp.daily_spending_limit) where
    Upserted-Ends :
        (seller : GoldPouch) (rows0 : List Inventory) (inv : Inventory) (y : Db)
        → seller.total_balance + w.amount ≤ int4_max
        → pouch_of a.owner_guild_id settled_state ≡ some seller
        → Upserted w.guild_id a.item_id 1
            (with_inventories rows0
              (credited_state seller).next.inventories
              (credited_state seller))
            inv
            y
        → Ends (λ _. Won d a w) d (mark_all t y)
    unfolding Bids.update Bids.list_by_auction_id
    Upserted-Ends seller rows0 inv y room fs (q, found, (rows, n, e)) =
        subst (λ z. Ends (λ _. Won d a w) d (mark_all t z)) (sym e)
          (loop-Ends a w reference settle_now t d s stored active gp fp covered seller rows n limit
            room fs inv
            (
              q,
              subst (λ z. inventory_of w.guild_id a.item_id z ≡ some inv) e found,
              (rows, n, refl),
            ))

    deliver-Ends :
        (seller : GoldPouch)
        → seller.total_balance + w.amount ≤ int4_max
        → pouch_of a.owner_guild_id settled_state ≡ some seller
        → Ends (λ _. Won d a w) d (deliver t (credited_state seller))
    unfolding Inventories.get_by_guild_and_item Inventories.delete
    deliver-Ends seller room fs =
        or_raise-Ends (λ _. Won d a w) d
          (inventory_of a.owner_guild_id a.item_id (credited_state seller)) Error.not_found
          hand_over t (credited_state seller) (omega arith, omega arith)
          λ sinv e.
            (let rows0 = delete_rows (λ r. r.id == sinv.id) d.inventories in
              let x =
                with_inventories rows0 (credited_state seller).next.inventories
                  (credited_state seller) in
              bind-Ends (Upserted w.guild_id a.item_id 1 x) (λ _. Won d a w) d
                (Inventories.upsert w.guild_id a.item_id 1) (λ _. mark_all) t x
                (Ends-from (Upserted w.guild_id a.item_id 1 x) d x _ (omega arith, omega arith)
                  (upsert-Ends w.guild_id a.item_id 1 x t))
                (λ inv y u. Upserted-Ends seller rows0 inv y room fs u))

    credit-Atomic :
        (seller : GoldPouch)
        → pouch_of a.owner_guild_id settled_state ≡ some seller
        → Atomic
            (λ _. Credited seller w.amount (some reference) t settled_state)
            settled_state
            (credit a.owner_guild_id (pos w.amount) (some reference) t settled_state)
    credit-Atomic seller fs =
        let (row, fg) = is_some→eq (
          (retired_db-IsSound a w reference settle_now t d s stored active gp fp covered
              limit).members
            a.owner_guild_id seller fs) in
        rw
          (credit_lem a.owner_guild_id seller w.amount (some reference) t settled_state fs
            (seller-IsPouch a w reference settle_now t d s stored active gp fp covered seller limit
              fs)
            fg)
          (credit_outcome-Atomic seller w.amount (some reference) t settled_state (
            seller-IsPouch a w reference settle_now t d s stored active gp fp covered seller limit
              fs))

    credit-Ends :
        Ends
          (λ _. Won d a w)
          d
          ((credit a.owner_guild_id (pos w.amount) (some reference) >> deliver) t settled_state)
    credit-Ends = elim (Option-cases (pouch_of a.owner_guild_id settled_state)) [
      | inl e ↦
          bind-Ends (λ _ _. ⊥) (λ _. Won d a w) d
            (credit a.owner_guild_id (pos w.amount) (some reference)) (λ _. deliver) t settled_state
            (rw (credit_missing a.owner_guild_id w.amount (some reference) t settled_state e)
              (omega arith, omega arith))
            (λ _ _ never. absurd never)
      | inr (seller, fs) ↦
          bind-Ends (λ _. Credited seller w.amount (some reference) t settled_state)
            (λ _. Won d a w) d (credit a.owner_guild_id (pos w.amount) (some reference))
            (λ _. deliver) t settled_state
            (Atomic-Ends (λ _. Credited seller w.amount (some reference) t settled_state) d
              settled_state _ (omega arith, omega arith) (credit-Atomic seller fs))
            (λ _ y c.
              subst (λ z. Ends (λ _. Won d a w) d (deliver t z)) (sym c.2)
                (deliver-Ends seller c.1 fs))
    ]

  settle-Atomic :
      Atomic
        (λ _. Settled gp w.amount (some reference) t d TransactionType.auction_win settle_now)
        d
        (settle w.guild_id
          (pos w.amount)
          TransactionType.auction_win
          (some reference)
          settle_now
          t
          d)
  settle-Atomic =
      let (row, fg) = is_some→eq (s.members w.guild_id gp fp) in
      rw
        (settle_lem w.guild_id gp w.amount (some reference) t d TransactionType.auction_win
          settle_now fp (s.pouches w.guild_id gp fp) fg)
        (settle_outcome-Atomic gp w.amount (some reference) t d TransactionType.auction_win
          settle_now (s.pouches w.guild_id gp fp))

  pub settle_with_winner-Ends :
      Ends (λ _. Won d a w) d (settle_with_winner a w reference settle_now t d)
  unfolding settle_with_winner
  settle_with_winner-Ends =
      bind-Ends
        (λ _. Settled gp w.amount (some reference) t d TransactionType.auction_win settle_now)
        (λ _. Won d a w) d
        (settle w.guild_id (pos w.amount) TransactionType.auction_win (some reference) settle_now)
        (λ _. credit a.owner_guild_id (pos w.amount) (some reference) >> deliver) t d
        (Atomic-Ends
          (λ _. Settled gp w.amount (some reference) t d TransactionType.auction_win settle_now) d d
          _ (omega arith, omega arith) settle-Atomic)
        (λ _ y h.
          subst
            (λ z.
              Ends (λ _. Won d a w) d
                ((credit a.owner_guild_id (pos w.amount) (some reference) >> deliver) t z))
            (sym h.3) (credit-Ends h.2))
