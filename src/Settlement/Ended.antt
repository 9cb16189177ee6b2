-- ===== src/Settlement/Ended.antt =====
-- What the loop of settleWithWinner leaves, in a sound database.
use mathlib.Core.Path.{subst}
use dragon_market.Base.{
  ℕ, ◌≤◌, ◌≡◌, sym, ◌∙◌, inl, inr, ◌+◌, true, false, some, List, ◌==◌, arith, Option-cases,
}
use dragon_market.Repository.Tables.{find_row, find_row-never, find_row-select}
use dragon_market.Repository.Rows.{
  Auction, GoldPouch, Bid, BidStatus, Inventory, Reference, bid_active,
}
use dragon_market.Repository.Db.{Db, int4_max}
use dragon_market.Repository.GoldPouches.{pouch_of}
use dragon_market.Repository.Bids.{bid_row}
use dragon_market.Repository.Inventories.Upsert.{with_inventories, Upserted}
use dragon_market.Repository.Keys.{select-Distinct, select-Within}
use dragon_market.GoldPouch.{reset_day}
use dragon_market.Settlement.{release_losers}
use dragon_market.Settlement.Losers.{release_losers_lem}
use dragon_market.Settlement.Round.{Cleared, InPlace, is_loser}
use dragon_market.Atomic.{Ends}
use dragon_market.Settlement.History.{Cleared-Ages}
use dragon_market.Invariant.{IsSound, bid_key}
use dragon_market.Invariant.History.{Ages-trans}
use dragon_market.Invariant.Retire.{bid_row-id}
use dragon_market.Settlement.Marked.{
  Won, settled_db, credited_db, marked_db, the_bids, marked_db-IsSound, marked-rows, marked-gold,
  marked-paid, marked-Ages, InPlace-Within,
}

module _ (a : Auction) (w : Bid) (reference : Reference) (settle_now t : ℕ) (d : Db) (s : IsSound d)
    (stored : bid_row w.id d ≡ some w) (active : bid_active w.status ≡ true) (gp : GoldPouch)
    (fp : pouch_of w.guild_id d ≡ some gp) (covered : w.amount ≤ gp.reserved_balance) where
  module _ (seller : GoldPouch) (rows : List Inventory) (n : ℕ)
      (limit : (reset_day settle_now gp).spent_today + w.amount ≤ gp.daily_spending_limit)
      (room : seller.total_balance + w.amount ≤ int4_max)
      (fs : pouch_of a.owner_guild_id
          (settled_db a w reference settle_now t d s stored active gp fp covered)
        ≡ some seller) where
    abbrev marked_state : Db
    marked_state =
        marked_db a w reference settle_now t d s stored active gp fp covered seller rows n

    abbrev credited_state : Db
    credited_state = credited_db a w reference settle_now t d s stored active gp fp covered seller

    abbrev read_bids : List Bid
    read_bids =
        the_bids a w reference settle_now t d s stored active gp fp covered seller rows n limit room
          fs

    -- After the loop.
    module _ (d' : Db) (place : InPlace w.id marked_state read_bids)
        (c : Cleared w.id marked_state read_bids d') where
      winner_kept : bid_row w.id d' ≡ some (record w { status = BidStatus.won })
      winner_kept =
          c.kept w.id (find_row-never (is_loser w.id w.id) read_bids (λ b. ground arith))
          ∙ rw
              (marked-rows a w reference settle_now t d s stored active gp fp covered seller rows n
                limit room fs w.id)
              (ground arith)

      all_ended :
          (id : ℕ) (x : Bid)
          → bid_row id d' ≡ some x
          → x.auction_id ≡ a.id
          → bid_active x.status ≡ false
      all_ended id x found on = elim (Option-cases (find_row (is_loser w.id id) read_bids)) [
        | inl free ↦ ground (
          arith,
          c.kept id free,
          marked-rows a w reference settle_now t d s stored active gp fp covered seller rows n limit
              room fs id,
          find_row-select (is_loser w.id id) (λ b. b.auction_id == a.id) (λ b. b.id == id)
              marked_state.bids x free,
          bid_row-id id d' x found,
        )
        | inr (y, lost) ↦ ground (arith, c.ended id y lost)
      ]

      won_lem :
          (inv : Inventory)
          → Upserted w.guild_id a.item_id 1 credited_state inv
              (with_inventories rows n credited_state)
          → Won d a w d'
      won_lem inv u = record {
        sound = c.sound;
        later = omega (arith, c.later);
        auctions = c.auctions;
        items = c.items;
        gold =
            c.gold
            ∙ marked-gold a w reference settle_now t d s stored active gp fp covered seller rows n
                limit room fs;
        paid = λ apart. ground (
          arith,
          c.balances w.guild_id,
          c.balances a.owner_guild_id,
          marked-paid a w reference settle_now t d s stored active gp fp covered seller rows n limit
              room fs apart,
        );
        delivered = (inv, rw c.inventories u.1, u.0);
        won = winner_kept;
        ages =
            Ages-trans d marked_state d'
              (marked-Ages a w reference settle_now t d s stored active gp fp covered seller rows n
                limit room fs)
              (Cleared-Ages w.id marked_state read_bids d' place c);
        none_active = all_ended;
      }

    -- The loop, from the marked state.
    pub loop-Ends :
        (inv : Inventory)
        → Upserted w.guild_id a.item_id 1 credited_state inv
            (with_inventories rows n credited_state)
        → Ends (λ _. Won d a w) d (release_losers w.id reference read_bids t marked_state)
    loop-Ends inv u =
        let sound =
          marked_db-IsSound a w reference settle_now t d s stored active gp fp covered seller rows n
            limit room fs in
        let place : InPlace w.id marked_state read_bids =
          InPlace-Within a w reference settle_now t d s stored active gp fp covered seller rows n
            limit room fs marked_state read_bids (select-Within bid_key _ _ sound.bids_distinct) in
        let (d', e, c) =
          release_losers_lem w.id reference t marked_state read_bids sound
            (select-Distinct bid_key _ _ sound.bids_distinct) place in
        subst (Ends (λ _. Won d a w) d) (sym e) (won_lem d' place c inv u)
