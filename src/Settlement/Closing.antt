-- ===== src/Settlement/Closing.antt =====
-- SettleAuction in a sound database: what the transaction leaves behind, with a highest bid and
-- without one.
use mathlib.Core.Path.{subst}
use dragon_market.Base.{
  ℕ, ◌<◌, ◌≡◌, ◌≢◌, refl, sym, ◌∙◌, inl, inr, ◌+◌, true, false, not, ◌||◌, Option, none, some, ltb,
  arith, Option-cases,
}
use dragon_market.Repository.Rows.{
  Auction, AuctionStatus, Bid, BidStatus, Inventory, Reference, auction_active, bid_active,
}
use dragon_market.Repository.Db.{Db, Tx, Error, ok, ◌>>=◌, ◌>>◌, bind-ok, raise_if}
use dragon_market.Repository.Bids.{auction_row, bid_row, highest_active}
use dragon_market.Repository.Bids
use dragon_market.Repository.Bids.Highest.{highest_active-stored, highest_active-none}
use dragon_market.Repository.Auctions
use dragon_market.Repository.Auctions.{put_auction, is_rival}
use dragon_market.Repository.Inventories.{inventory_of}
use dragon_market.Repository.Keys.{find_row-update_rows}
use dragon_market.GoldPouch.Effects.{total_gold}
use dragon_market.Auction.{optional}
use dragon_market.Auction.Rows.{put_auction-IsSound}
use dragon_market.Settlement.{settle_with_winner, settle_bids, settle_auction_body}
use dragon_market.Settlement.Round.{total_of}
use dragon_market.Settlement.Marked.{Won}
use dragon_market.Settlement.Winner.{settle_with_winner-Ends}
use dragon_market.Atomic.{Later, Ends, bind-Ends, or_raise-Ends, raise_if-Ends, weaken_Ends}
use dragon_market.Invariant.{IsSound, auction_key, auction_row-id}
use dragon_market.Invariant.Retire.{covered-active}
use dragon_market.Invariant.History.{Ages, Ages-refl, Ages-trans, put_auction-Ages}

abbrev pub expired : Auction → Auction
expired a = record a { status = AuctionStatus.expired }

-- What the settlement of an auction with a highest bid has done for the winner and the seller.
pub record Sold (d : Db) (a : Auction) (w : Bid) (d' : Db) : Type 0 where
  pub paid :
      w.guild_id ≢ a.owner_guild_id
      → (total_of w.guild_id d' + w.amount ≡ total_of w.guild_id d)
        × (total_of a.owner_guild_id d' ≡ total_of a.owner_guild_id d + w.amount)
  pub delivered :
      (inv : Inventory) × (inventory_of w.guild_id a.item_id d' ≡ some inv) × (inv.quantity ≡ 1)
  pub won : bid_row w.id d' ≡ some (record w { status = BidStatus.won })

-- An auction that has been settled.
pub record Closed (d : Db) (a : Auction) (d' : Db) : Type 0 where
  pub sound : IsSound d'
  pub later : Later d d'
  pub gold : total_gold d' ≡ total_gold d
  pub items : d'.items ≡ d.items
  pub over : auction_row a.id d' ≡ some (expired a)
  pub none_active :
      (id : ℕ) (c : Bid)
      → bid_row id d' ≡ some c
      → c.auction_id ≡ a.id
      → bid_active c.status ≡ false
  pub ages : Ages d d'
  pub sold : (w : Bid) → highest_active a.id d ≡ some w → Sold d a w d'

-- The statement that ends it, in any state that still has the auction's row.
module _ (a : Auction) (t : ℕ) (x : Db) (s : IsSound x) (found : auction_row a.id x ≡ some a) where
  pub expire-ok : Auctions.update (expired a) t x ≡ (ok tt, put_auction (expired a) x)
  unfolding Auctions.update
  expire-ok = ground (arith, (s.auctions a.id a found).lasting)

  expire-IsSound : IsSound (put_auction (expired a) x)
  expire-IsSound =
      put_auction-IsSound (expired a) a x s found (λ e. ground arith)
        (s.auctions a.id a found).lasting

  expire-row : auction_row a.id (put_auction (expired a) x) ≡ some (expired a)
  expire-row =
      find_row-update_rows auction_key a.id a.id
        (λ r. record r { status = AuctionStatus.expired; end_time = a.end_time }) x.auctions
        (λ r. refl)
      ∙ ground (arith, found)

-- The statements after the query of the highest bid.
abbrev pub rest_of : Auction → ℕ → Option Bid → Tx (Unit {0})
rest_of a settle_now winner = do settle_bids a winner settle_now; Auctions.update (expired a)

pub highest-read :
    (id t : ℕ) (d : Db)
    → optional (Bids.get_highest_active_by_auction_id id) t d ≡ (ok (highest_active id d), d)
unfolding optional Bids.get_highest_active_by_auction_id
highest-read id t d = ground (arith, Option-cases (highest_active id d))

module _ (a : Auction) (settle_now t : ℕ) (d : Db) (s : IsSound d)
    (found : auction_row a.id d ≡ some a) (on : auction_active a.status ≡ true) where
  close :
      (x : Db)
      → IsSound x
      → Later d x
      → x.auctions ≡ d.auctions
      → x.items ≡ d.items
      → total_gold x ≡ total_gold d
      → Ages d x
      → ((id : ℕ) (c : Bid)
          → bid_row id x ≡ some c
          → c.auction_id ≡ a.id
          → bid_active c.status ≡ false)
      → ((w : Bid) → highest_active a.id d ≡ some w → Sold d a w x)
      → Ends (λ _. Closed d a) d (Auctions.update (expired a) t x)
  close x sx l same items gold ages ended sold =
      let here : auction_row a.id x ≡ some a = rw same found in
      rw (expire-ok a t x sx here) (record {
        sound = expire-IsSound a t x sx here;
        later = l;
        gold = gold;
        items = items;
        over = expire-row a t x sx here;
        none_active = ended;
        ages =
            Ages-trans d x (put_auction (expired a) x) ages
              (put_auction-Ages x a AuctionStatus.expired a.end_time here on (omega arith));
        sold = λ w e.
            (let k = sold w e in record { paid = k.paid; delivered = k.delivered; won = k.won });
      })

  close_unsold :
      highest_active a.id d ≡ none
      → Ends
          (λ _. Closed d a)
          d
          ((settle_bids a none settle_now >> Auctions.update (expired a)) t d)
  unfolding settle_bids
  close_unsold e =
      close d s (omega arith, omega arith) refl refl refl (Ages-refl d)
        (λ id c f on. highest_active-none a.id d id c e f on) (λ w f. absurd (ground arith))

  close-Won :
      (w : Bid) (x : Db)
      → highest_active a.id d ≡ some w
      → Won d a w x
      → Ends (λ _. Closed d a) d (Auctions.update (expired a) t x)
  close-Won w x e k = close x k.sound k.later k.auctions k.items k.gold k.ages k.none_active (λ v f.
      subst (λ y. Sold d a y x) (let p : w ≡ v = ground arith in p)
        (record { paid = k.paid; delivered = k.delivered; won = k.won }))

  close_sold :
      (w : Bid)
      → highest_active a.id d ≡ some w
      → Ends
          (λ _. Closed d a)
          d
          ((settle_bids a (some w) settle_now >> Auctions.update (expired a)) t d)
  unfolding settle_bids
  close_sold w e =
      let (stored, active, _on) = highest_active-stored a.id d w s.bids_distinct e in
      let (gp, fp, c) = covered-active w.id w d s stored active in
      bind-Ends (λ _. Won d a w) (λ _. Closed d a) d
        (settle_with_winner a w (Reference.auction a.id) settle_now)
        (λ _. Auctions.update (expired a)) t d
        (settle_with_winner-Ends a w (Reference.auction a.id) settle_now t d s stored active gp fp
          c)
        (λ _ x k. close-Won w x e k)

  rest_of-Ends : Ends (λ _. Closed d a) d (rest_of a settle_now (highest_active a.id d) t d)
  rest_of-Ends = elim (Option-cases (highest_active a.id d)) [
    | inl e ↦
        subst (λ o. Ends (λ _. Closed d a) d (rest_of a settle_now o t d)) (sym e) (close_unsold e)
    | inr (w, e) ↦
        subst (λ o. Ends (λ _. Closed d a) d (rest_of a settle_now o t d)) (sym e) (close_sold w e)
  ]

  pub close-Ends :
      Ends
        (λ _. Closed d a)
        d
        ((optional (Bids.get_highest_active_by_auction_id a.id) >>= rest_of a settle_now) t d)
  close-Ends =
      subst (Ends (λ _. Closed d a) d)
        (sym (
          bind-ok (optional (Bids.get_highest_active_by_auction_id a.id)) (rest_of a settle_now) t d
            (highest_active a.id d) d (highest-read a.id t d)))
        rest_of-Ends

-- The whole body, on any auction: only an ACTIVE auction past its end is settled.
abbrev pub Due : ℕ → ℕ → Db → Db → Type 0
Due auction_id now d d' =
    (a : Auction) × (auction_row auction_id d ≡ some a)
    × (auction_active a.status ≡ true)
    × (a.end_time < now)
    × Closed d a d'

module _ (auction_id now settle_now t : ℕ) (d : Db) (s : IsSound d) where
  due_lem :
      (a : Auction) (d' : Db)
      → auction_row auction_id d ≡ some a
      → (not (auction_active a.status) || not (ltb a.end_time now)) ≡ false
      → Closed d a d'
      → Due auction_id now d d'
  due_lem a d' found eligible k = (a, found, ground arith, ground arith, k)

  found-Ends :
      (a : Auction)
      → auction_row auction_id d ≡ some a
      → (not (auction_active a.status) || not (ltb a.end_time now)) ≡ false
      → Ends
          (λ _. Due auction_id now d)
          d
          ((optional (Bids.get_highest_active_by_auction_id a.id) >>= rest_of a settle_now) t d)
  found-Ends a found eligible =
      weaken_Ends (λ _. Closed d a) d (λ _. Due auction_id now d) _
        (close-Ends a settle_now t d s
          (subst (λ k. auction_row k d ≡ some a) (sym (auction_row-id auction_id d a found)) found)
          (ground (arith, eligible)))
        (λ _ d' k. due_lem a d' found eligible k)

  pub body-Ends :
      Ends (λ _. Due auction_id now d) d (settle_auction_body auction_id now settle_now t d)
  unfolding settle_auction_body Auctions.get_by_id
  body-Ends =
      or_raise-Ends (λ _. Due auction_id now d) d (auction_row auction_id d) Error.not_found
        (λ a.
          raise_if (not (auction_active a.status) || not (ltb a.end_time now))
            Error.auction_not_eligible
          >> (optional (Bids.get_highest_active_by_auction_id a.id) >>= rest_of a settle_now))
        t d (omega arith, omega arith)
        λ a found.
          raise_if-Ends (λ _. Due auction_id now d) d
            (not (auction_active a.status) || not (ltb a.end_time now)) Error.auction_not_eligible
            (optional (Bids.get_highest_active_by_auction_id a.id) >>= rest_of a settle_now) t d
            (omega arith, omega arith) (λ eligible. found-Ends a found eligible)
