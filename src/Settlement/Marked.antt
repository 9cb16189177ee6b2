-- ===== src/Settlement/Marked.antt =====
-- What settleWithWinner has written by the end of its loop, in a sound database.
use dragon_market.Base.{
  ℕ, ◌≤◌, ◌≡◌, ◌≢◌, refl, ◌+◌, true, false, some, List, [], ◌∷◌, ◌==◌, if◌then◌else◌, arith,
}
use dragon_market.Repository.Tables.{select}
use dragon_market.Repository.Rows.{
  Auction, GoldPouch, Bid, BidStatus, Inventory, TransactionType, Reference, bid_active,
}
use dragon_market.Repository.Db.{Db, int4_max}
use dragon_market.Repository.GoldPouches.{pouch_of}
use dragon_market.Repository.Bids.{bid_row, put_bid_status}
use dragon_market.Repository.Inventories.{inventory_of}
use dragon_market.Repository.Inventories.Upsert.{with_inventories}
use dragon_market.Repository.Keys.{Within, find_row-update_rows-some}
use dragon_market.GoldPouch.{reset_day}
use dragon_market.GoldPouch.Outcomes.{IsPouch, written, settled, pouch_of-guild_id}
use dragon_market.GoldPouch.Effects.{
  total_gold, total_gold-written, pouch_of-written, written-Distinct,
}
use dragon_market.Settlement.Round.{InPlace, total_of}
use dragon_market.Atomic.{Later}
use dragon_market.Invariant.{IsSound, bid_key}
use dragon_market.Invariant.History.{Ages, Ages-same, Ages-trans, put_bid_status-Ages}
use dragon_market.Invariant.Retire.{retired-IsSound, written-IsSound}

with_inventories-IsSound :
    (rows : List Inventory) (n : ℕ) (d : Db) → IsSound d → IsSound (with_inventories rows n d)
with_inventories-IsSound rows n d s = record {
  pouches = s.pouches;
  members = s.members;
  pouches_distinct = s.pouches_distinct;
  bids_distinct = s.bids_distinct;
  bids_below = s.bids_below;
  bids = s.bids;
  auctions_below = s.auctions_below;
  auctions_distinct = s.auctions_distinct;
  auctions = s.auctions;
  balanced = s.balanced;
}

-- What the settlement leaves: the gold moved from the winner to the seller, the item with the
-- winner, the winning bid WON and no bid of the auction ACTIVE.
pub record Won (d : Db) (a : Auction) (w : Bid) (d' : Db) : Type 0 where
  pub sound : IsSound d'
  pub later : Later d d'
  pub auctions : d'.auctions ≡ d.auctions
  pub items : d'.items ≡ d.items
  pub gold : total_gold d' ≡ total_gold d
  pub paid :
      w.guild_id ≢ a.owner_guild_id
      → (total_of w.guild_id d' + w.amount ≡ total_of w.guild_id d)
        × (total_of a.owner_guild_id d' ≡ total_of a.owner_guild_id d + w.amount)
  pub delivered :
      (inv : Inventory) × (inventory_of w.guild_id a.item_id d' ≡ some inv) × (inv.quantity ≡ 1)
  pub won : bid_row w.id d' ≡ some (record w { status = BidStatus.won })
  pub ages : Ages d d'
  pub none_active :
      (id : ℕ) (c : Bid)
      → bid_row id d' ≡ some c
      → c.auction_id ≡ a.id
      → bid_active c.status ≡ false

module _ (a : Auction) (w : Bid) (reference : Reference) (settle_now t : ℕ) (d : Db) (s : IsSound d)
    (stored : bid_row w.id d ≡ some w) (active : bid_active w.status ≡ true) (gp : GoldPouch)
    (fp : pouch_of w.guild_id d ≡ some gp) (covered : w.amount ≤ gp.reserved_balance) where
  -- After Settle, after Credit, and with the winning bid marked.
  abbrev pub settled_db : Db
  settled_db =
      written (settled gp w.amount settle_now) TransactionType.auction_win w.amount (some reference)
        t d

  abbrev pub credited_db : GoldPouch → Db
  credited_db seller =
      written (record seller { total_balance = seller.total_balance + w.amount })
        TransactionType.credit w.amount (some reference) t settled_db

  abbrev pub marked_db : GoldPouch → List Inventory → ℕ → Db
  marked_db seller rows n =
      put_bid_status w.id BidStatus.won (with_inventories rows n (credited_db seller))

  settled-guild : (settled gp w.amount settle_now).guild_id ≡ w.guild_id
  settled-guild = ground (arith, pouch_of-guild_id w.guild_id d gp fp)

  settled-IsPouch :
      (reset_day settle_now gp).spent_today + w.amount ≤ gp.daily_spending_limit
      → IsPouch (settled gp w.amount settle_now)
  settled-IsPouch limit = ground (arith, s.pouches w.guild_id gp fp)

  pub retired_db-IsSound :
      (reset_day settle_now gp).spent_today + w.amount ≤ gp.daily_spending_limit
      → IsSound (put_bid_status w.id BidStatus.won settled_db)
  retired_db-IsSound limit =
      retired-IsSound w.guild_id gp (settled gp w.amount settle_now) TransactionType.auction_win
        w.amount (some reference) t d s fp settled-guild (ground arith) (settled-IsPouch limit) w
        BidStatus.won stored active refl refl (ground arith)

  pub seller-IsPouch :
      (seller : GoldPouch)
      → (reset_day settle_now gp).spent_today + w.amount ≤ gp.daily_spending_limit
      → pouch_of a.owner_guild_id settled_db ≡ some seller
      → IsPouch seller
  seller-IsPouch seller limit e = (retired_db-IsSound limit).pouches a.owner_guild_id seller e

  module _ (seller : GoldPouch) (rows : List Inventory) (n : ℕ)
      (limit : (reset_day settle_now gp).spent_today + w.amount ≤ gp.daily_spending_limit)
      (room : seller.total_balance + w.amount ≤ int4_max)
      (fs : pouch_of a.owner_guild_id settled_db ≡ some seller) where
    seller_guild : seller.guild_id ≡ a.owner_guild_id
    seller_guild = pouch_of-guild_id a.owner_guild_id settled_db seller fs

    pub marked_db-IsSound : IsSound (marked_db seller rows n)
    marked_db-IsSound = with_inventories-IsSound rows n _ (
        written-IsSound a.owner_guild_id seller
          (record seller { total_balance = seller.total_balance + w.amount }) TransactionType.credit
          w.amount (some reference) t (put_bid_status w.id BidStatus.won settled_db)
          (retired_db-IsSound limit) fs seller_guild refl
          (ground (arith, seller-IsPouch seller limit fs)) refl)

    pub marked-gold : total_gold (marked_db seller rows n) ≡ total_gold d
    marked-gold = ground (
      arith,
      total_gold-written w.guild_id gp (settled gp w.amount settle_now) d
          TransactionType.auction_win w.amount (some reference) t s.pouches_distinct fp
          settled-guild,
      total_gold-written a.owner_guild_id seller
          (record seller { total_balance = seller.total_balance + w.amount }) settled_db
          TransactionType.credit w.amount (some reference) t
          (written-Distinct w.guild_id gp (settled gp w.amount settle_now) d
            TransactionType.auction_win w.amount (some reference) t s.pouches_distinct)
          fs seller_guild,
      s.pouches w.guild_id gp fp,
    )

    pouch_of-settled :
        (h : ℕ)
        → pouch_of h settled_db
          ≡ (if h == w.guild_id then some (settled gp w.amount settle_now) else pouch_of h d)
    pouch_of-settled h =
        pouch_of-written w.guild_id gp (settled gp w.amount settle_now) d
          TransactionType.auction_win w.amount (some reference) t h fp settled-guild
          (pouch_of-guild_id w.guild_id d gp fp) (ground arith)

    pouch_of-credited :
        (h : ℕ)
        → pouch_of h (credited_db seller) ≡ (
            if h == a.owner_guild_id
            then some (record seller { total_balance = seller.total_balance + w.amount })
            else pouch_of h settled_db)
    pouch_of-credited h =
        pouch_of-written a.owner_guild_id seller
          (record seller { total_balance = seller.total_balance + w.amount }) settled_db
          TransactionType.credit w.amount (some reference) t h fs seller_guild seller_guild refl

    pub marked-paid :
        w.guild_id ≢ a.owner_guild_id
        → (total_of w.guild_id (marked_db seller rows n) + w.amount ≡ total_of w.guild_id d)
          × (total_of a.owner_guild_id (marked_db seller rows n)
              ≡ total_of a.owner_guild_id d + w.amount)
    marked-paid apart = ground (
      arith,
      pouch_of-settled w.guild_id,
      pouch_of-settled a.owner_guild_id,
      pouch_of-credited w.guild_id,
      pouch_of-credited a.owner_guild_id,
      s.pouches w.guild_id gp fp,
    )

    pub marked-rows :
        (id : ℕ)
        → bid_row id (marked_db seller rows n)
          ≡ (if id == w.id then some (record w { status = BidStatus.won }) else bid_row id d)
    marked-rows id =
        find_row-update_rows-some bid_key w.id id (λ r. record r { status = BidStatus.won }) d.bids
          w (λ r. refl) stored

    abbrev pub the_bids : List Bid
    the_bids = select (λ b. b.auction_id == a.id) (marked_db seller rows n).bids

    pub marked-Ages : Ages d (marked_db seller rows n)
    marked-Ages =
        let x = with_inventories rows n (credited_db seller) in
        Ages-trans d x (marked_db seller rows n) (Ages-same d x refl refl)
          (put_bid_status-Ages x w BidStatus.won stored active refl)

    pub InPlace-Within : (x : Db) (ys : List Bid) → Within bid_key x.bids ys → InPlace w.id x ys
    InPlace-Within x [] v = tt
    InPlace-Within x (y ∷ ys) v = (λ _. v.0, InPlace-Within x ys v.1)
