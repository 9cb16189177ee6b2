-- ===== src/Settlement/Sold.antt =====
-- SettleAuction of an auction with a highest bid: when it succeeds.
use mathlib.Core.Path.{subst}
use dragon_market.Base.{
  ℕ, ◌≤◌, ◌<◌, ◌≡◌, ◌≢◌, refl, sym, ◌∙◌, ◌+◌, some, none, ◌==◌, arith, true, some_eq,
}
use dragon_market.Repository.Tables.{find_row, delete_rows}
use dragon_market.Repository.Rows.{
  Auction, GoldPouch, Item, Inventory, Bid, TransactionType, Reference, auction_active, bid_active,
}
use dragon_market.Repository.Db.{Db, ok, bind-ok, int4_max, run_tx, end_tx}
use dragon_market.Repository.GoldPouches.{pouch_of}
use dragon_market.Repository.Bids.{bid_row, highest_active, auction_row}
use dragon_market.Repository.Bids
use dragon_market.Repository.Bids.Highest.{highest_active-stored}
use dragon_market.Repository.Auctions
use dragon_market.Repository.Auctions.{item_row, put_auction}
use dragon_market.Repository.Inventories.{inventory_of}
use dragon_market.GoldPouch.{reset_day}
use dragon_market.GoldPouch.Outcomes.{settled, pouch_of-guild_id}
use dragon_market.GoldPouch.Effects.{pouch_of-written}
use dragon_market.Auction.{optional}
use dragon_market.Settlement.{
  Reading, settle_auction, settle_auction_body, settle_with_winner, settle_bids,
}
use dragon_market.Settlement.Marked.{Won, settled_db}
use dragon_market.Settlement.Winner.{settle_with_winner-Ends}
use dragon_market.Settlement.Winner.Succeeds.{settle_with_winner-Succeeds}
use dragon_market.Settlement.Closing.{expired, expire-ok, rest_of, highest-read, Due}
use dragon_market.Settlement.Sweep.{settle_auction-Due}
use dragon_market.Atomic.{Ends}
use dragon_market.Invariant.{IsSound, auction_row-id}
use dragon_market.Invariant.Retire.{covered-active}

module _ (auction_id now settle_now t : ℕ) (d : Db) (s : IsSound d) (a : Auction) (w : Bid)
    (gp seller : GoldPouch) (sinv : Inventory) (it : Item) (here : auction_row a.id d ≡ some a)
    (wins : highest_active a.id d ≡ some w) (fp : pouch_of w.guild_id d ≡ some gp)
    (fo : pouch_of a.owner_guild_id d ≡ some seller) (apart : w.guild_id ≢ a.owner_guild_id)
    (limit : (reset_day settle_now gp).spent_today + w.amount ≤ gp.daily_spending_limit)
    (room : seller.total_balance + w.amount ≤ int4_max)
    (fv : inventory_of a.owner_guild_id a.item_id d ≡ some sinv)
    (fi : item_row a.item_id d ≡ some it)
    (sole : find_row
        (λ r. r.item_id == a.item_id)
        (delete_rows (λ r. r.id == sinv.id) d.inventories)
      ≡ none) where
  stored : bid_row w.id d ≡ some w
  stored = (highest_active-stored a.id d w s.bids_distinct wins).0

  active : bid_active w.status ≡ true
  active = (highest_active-stored a.id d w s.bids_distinct wins).1

  covered : w.amount ≤ gp.reserved_balance
  covered =
      let (gp', fp', c) = covered-active w.id w d s stored active in
      subst (λ p. w.amount ≤ p.reserved_balance) (some_eq fp' fp) c

  abbrev paid_db : Db
  paid_db = settled_db a w (Reference.auction a.id) settle_now t d s stored active gp fp covered

  seller_found : pouch_of a.owner_guild_id paid_db ≡ some seller
  seller_found =
      pouch_of-written w.guild_id gp (settled gp w.amount settle_now) d TransactionType.auction_win
        w.amount (some (Reference.auction a.id)) t a.owner_guild_id fp
        (ground (arith, pouch_of-guild_id w.guild_id d gp fp))
        (pouch_of-guild_id w.guild_id d gp fp) (ground arith)
      ∙ ground (arith, fo)

  rest-sold : (x : Db) × (rest_of a settle_now (some w) t d ≡ (ok tt, x))
  unfolding settle_bids
  rest-sold =
      let (x, e) =
        settle_with_winner-Succeeds a w (Reference.auction a.id) settle_now t d s stored active gp
          fp covered limit seller seller_found room sinv fv it fi sole in
      let k : Won d a w x = subst (Ends (λ _. Won d a w) d) e (
        settle_with_winner-Ends a w (Reference.auction a.id) settle_now t d s stored active gp fp
          covered) in
      let row : auction_row a.id x ≡ some a = rw k.auctions here in
      (
        put_auction (expired a) x,
        bind-ok (settle_with_winner a w (Reference.auction a.id) settle_now)
              (λ _. Auctions.update (expired a)) t d tt x e
            ∙ expire-ok a t x k.sound row,
      )

  body-sold :
      auction_row auction_id d ≡ some a
      → auction_active a.status ≡ true
      → a.end_time < now
      → (x : Db) × (settle_auction_body auction_id now settle_now t d ≡ (ok tt, x))
  unfolding settle_auction_body Auctions.get_by_id
  body-sold found on past =
      let (x, e) = rest-sold in
      let read =
        bind-ok (optional (Bids.get_highest_active_by_auction_id a.id)) (rest_of a settle_now) t d
          (some w) d (rw wins at (highest-read a.id t d))
        ∙ e in
      (x, ground (arith, read))

settle_run :
    (r : Reading) (auction_id : ℕ) (d x : Db)
    → r.connection.begins ≡ true
    → r.connection.commits ≡ true
    → settle_auction_body auction_id r.now r.settle_now r.begin d ≡ (ok tt, x)
    → settle_auction r auction_id d ≡ (ok tt, x)
unfolding settle_auction run_tx end_tx
settle_run r auction_id d x begins commits e = rw (begins, commits, e) refl

-- In a sound database and over a connection that begins and commits, SettleAuction of an ACTIVE
-- auction past its end succeeds and settles it, where its highest bid is another guild's than the
-- seller's and within that guild's limit of the day, the seller's pouch has room for it in its
-- INTEGER column, and the seller's inventory of the item is the only one of it.
pub settle_auction-sold :
    (r : Reading) (auction_id : ℕ) (d : Db) (a : Auction) (w : Bid) (gp seller : GoldPouch)
    (sinv : Inventory) (it : Item)
    → IsSound d
    → r.connection.begins ≡ true
    → r.connection.commits ≡ true
    → auction_row auction_id d ≡ some a
    → auction_active a.status ≡ true
    → a.end_time < r.now
    → highest_active a.id d ≡ some w
    → pouch_of w.guild_id d ≡ some gp
    → pouch_of a.owner_guild_id d ≡ some seller
    → w.guild_id ≢ a.owner_guild_id
    → (reset_day r.settle_now gp).spent_today + w.amount ≤ gp.daily_spending_limit
    → seller.total_balance + w.amount ≤ int4_max
    → inventory_of a.owner_guild_id a.item_id d ≡ some sinv
    → item_row a.item_id d ≡ some it
    → find_row
        (λ row. row.item_id == a.item_id)
        (delete_rows (λ row. row.id == sinv.id) d.inventories)
      ≡ none
    → (x : Db) × (settle_auction r auction_id d ≡ (ok tt, x)) × Due auction_id r.now d x
settle_auction-sold r auction_id d a w gp seller sinv it s begins commits found on past wins fp fo
      apart limit room fv fi sole =
    let here =
      subst (λ k. auction_row k d ≡ some a) (sym (auction_row-id auction_id d a found)) found in
    let (x, e) =
      body-sold auction_id r.now r.settle_now r.begin d s a w gp seller sinv it here wins fp fo
        apart limit room fv fi sole found on past in
    let run = settle_run r auction_id d x begins commits e in
    (x, run, settle_auction-Due r auction_id d x s run)
