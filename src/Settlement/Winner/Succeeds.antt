-- ===== src/Settlement/Winner/Succeeds.antt =====
-- The settlement with a highest bid: when it succeeds.
use dragon_market.Base.{
  ℕ, pos, ◌≤◌, ◌<◌, ◌≡◌, ◌∙◌, ◌+◌, some, none, List, [], ◌∷◌, ◌++◌, ◌==◌, arith, true,
}
use dragon_market.Repository.Tables.{find_row, delete_rows, find_row-narrower}
use dragon_market.Repository.Rows.{
  Auction, GoldPouch, Item, Inventory, Bid, TransactionType, Reference, bid_active,
}
use dragon_market.Repository.Db.{Db, Tx, Result, ok, ◌>>=◌, ◌>>◌, bind-ok, is_some→eq, int4_max}
use dragon_market.Repository.GoldPouches.{pouch_of}
use dragon_market.Repository.Bids
use dragon_market.Repository.Bids.{bid_row}
use dragon_market.Repository.Auctions.{item_row}
use dragon_market.Repository.Inventories
use dragon_market.Repository.Inventories.{inventory_of, of_guild_and_item, is_legendary_of, insert}
use dragon_market.Repository.Inventories.Upsert.{with_inventories}
use dragon_market.Repository.Keys.{select-Distinct, select-Within}
use dragon_market.GoldPouch.{settle, credit, reset_day}
use dragon_market.GoldPouch.Outcomes.{settle_lem, credit_lem}
use dragon_market.Settlement.{settle_with_winner}
use dragon_market.Settlement.Losers.{release_losers_lem}
use dragon_market.Settlement.Marked.{
  settled_db, credited_db, marked_db, marked_db-IsSound, the_bids, InPlace-Within, seller-IsPouch,
  retired_db-IsSound,
}
use dragon_market.Settlement.Winner.{mark_all, hand_over, deliver}
use dragon_market.Invariant.{IsSound, bid_key}

-- What a call gives, where it succeeds.
abbrev pub Succeeds : Result (Unit {0}) × Db → Type 0
Succeeds r = (d' : Db) × (r ≡ (ok tt, d'))

bind-Succeeds {ℓ} :
    {A : Type ℓ} (m : Tx A) (f : A → Tx (Unit {0})) (t : ℕ) (d : Db) (a : A) (d' : Db)
    → m t d ≡ (ok a, d')
    → Succeeds (f a t d')
    → Succeeds ((m >>= f) t d)
bind-Succeeds m f t d a d' e (x, h) = (x, bind-ok m f t d a d' e ∙ h)

module _ (a : Auction) (w : Bid) (reference : Reference) (settle_now t : ℕ) (d : Db) (s : IsSound d)
    (stored : bid_row w.id d ≡ some w) (active : bid_active w.status ≡ true) (gp : GoldPouch)
    (fp : pouch_of w.guild_id d ≡ some gp) (covered : w.amount ≤ gp.reserved_balance)
    (limit : (reset_day settle_now gp).spent_today + w.amount ≤ gp.daily_spending_limit)
    (seller : GoldPouch)
    (fs : pouch_of a.owner_guild_id
        (settled_db a w reference settle_now t d s stored active gp fp covered)
      ≡ some seller)
    (room : seller.total_balance + w.amount ≤ int4_max) where
  abbrev settled_state : Db
  settled_state = settled_db a w reference settle_now t d s stored active gp fp covered

  abbrev credited_state : Db
  credited_state = credited_db a w reference settle_now t d s stored active gp fp covered seller

  above_zero : 0 < w.amount
  above_zero = (s.bids w.id w stored).0

  settle-ok :
      settle w.guild_id (pos w.amount) TransactionType.auction_win (some reference) settle_now t d
      ≡ (ok tt, settled_state)
  settle-ok =
      let (row, fg) = is_some→eq (s.members w.guild_id gp fp) in
      settle_lem w.guild_id gp w.amount (some reference) t d TransactionType.auction_win settle_now
        fp (s.pouches w.guild_id gp fp) fg
      ∙ ground (arith, above_zero, limit, covered)

  credit-ok :
      credit a.owner_guild_id (pos w.amount) (some reference) t settled_state
      ≡ (ok tt, credited_state)
  credit-ok =
      let (row, fg) = is_some→eq (
        (retired_db-IsSound a w reference settle_now t d s stored active gp fp covered
            limit).members
          a.owner_guild_id seller fs) in
      credit_lem a.owner_guild_id seller w.amount (some reference) t settled_state fs
        (seller-IsPouch a w reference settle_now t d s stored active gp fp covered seller limit fs)
        fg
      ∙ ground (arith, above_zero, room)

  module _ (sinv : Inventory) (fv : inventory_of a.owner_guild_id a.item_id d ≡ some sinv)
      (it : Item) (fi : item_row a.item_id d ≡ some it)
      (sole : find_row
          (λ r. r.item_id == a.item_id)
          (delete_rows (λ r. r.id == sinv.id) d.inventories)
        ≡ none) where
    abbrev left : List Inventory
    left = delete_rows (λ r. r.id == sinv.id) d.inventories

    abbrev handed_over : Db
    handed_over = with_inventories left credited_state.next.inventories credited_state

    abbrev won_inventory : Inventory
    won_inventory = record {
      id = d.next.inventories;
      guild_id = w.guild_id;
      item_id = a.item_id;
      quantity = 1;
      item_rarity = it.rarity;
    }

    abbrev upserted : Db
    upserted = with_inventories (left ++ won_inventory ∷ []) (d.next.inventories + 1) credited_state

    none_of_winner : find_row (of_guild_and_item w.guild_id a.item_id) left ≡ none
    none_of_winner =
        find_row-narrower (of_guild_and_item w.guild_id a.item_id) (λ r. r.item_id == a.item_id)
          left (λ r h. ground arith) sole

    none_legendary : find_row (is_legendary_of a.item_id) left ≡ none
    none_legendary =
        find_row-narrower (is_legendary_of a.item_id) (λ r. r.item_id == a.item_id) left
          (λ r h. ground arith) sole

    upsert-ok :
        Inventories.upsert w.guild_id a.item_id 1 t handed_over ≡ (ok won_inventory, upserted)
    unfolding Inventories.upsert insert
    upsert-ok =
        let (row, fg) = is_some→eq (s.members w.guild_id gp fp) in
        ground (arith, none_of_winner, none_legendary, fi, fg)

    mark_all-Succeeds :
        Succeeds (mark_all a w reference settle_now t d s stored active gp fp covered t upserted)
    unfolding Bids.update Bids.list_by_auction_id
    mark_all-Succeeds =
        let rows = left ++ won_inventory ∷ [] in
        let n = d.next.inventories + 1 in
        let sound =
          marked_db-IsSound a w reference settle_now t d s stored active gp fp covered seller rows n
            limit room fs in
        let bids =
          the_bids a w reference settle_now t d s stored active gp fp covered seller rows n limit
            room fs in
        let (d', e, c) =
          release_losers_lem w.id reference t
            (marked_db a w reference settle_now t d s stored active gp fp covered seller rows n)
            bids sound (select-Distinct bid_key _ _ sound.bids_distinct)
            (InPlace-Within a w reference settle_now t d s stored active gp fp covered seller rows n
              limit room fs
              (marked_db a w reference settle_now t d s stored active gp fp covered seller rows n)
              bids (select-Within bid_key _ _ sound.bids_distinct)) in
        (d', e)

    deliver-Succeeds :
        Succeeds
          (deliver a w reference settle_now t d s stored active gp fp covered t credited_state)
    unfolding Inventories.get_by_guild_and_item Inventories.delete
    deliver-Succeeds =
        bind-Succeeds (Inventories.get_by_guild_and_item a.owner_guild_id a.item_id)
          (hand_over a w reference settle_now t d s stored active gp fp covered) t credited_state
          sinv credited_state (ground (arith, fv))
          (bind-Succeeds (Inventories.upsert w.guild_id a.item_id 1)
            (λ _. mark_all a w reference settle_now t d s stored active gp fp covered) t handed_over
            won_inventory upserted upsert-ok mark_all-Succeeds)

    pub settle_with_winner-Succeeds : Succeeds (settle_with_winner a w reference settle_now t d)
    unfolding settle_with_winner
    settle_with_winner-Succeeds =
        bind-Succeeds
          (settle w.guild_id (pos w.amount) TransactionType.auction_win (some reference) settle_now)
          (λ _.
            credit a.owner_guild_id (pos w.amount) (some reference)
            >> deliver a w reference settle_now t d s stored active gp fp covered)
          t d tt settled_state settle-ok
          (bind-Succeeds (credit a.owner_guild_id (pos w.amount) (some reference))
            (λ _. deliver a w reference settle_now t d s stored active gp fp covered) t
            settled_state tt credited_state credit-ok deliver-Succeeds)
