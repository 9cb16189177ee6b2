-- ===== src/Auction/Gold.antt =====
-- The sum of all balances over the calls of AuctionService.
use mathlib.Core.Path.{subst}
use dragon_market.Base.{ℕ, ◌≡◌, refl, sym, some, arith, ◌+◌}
use dragon_market.Repository.Rows.{Auction, GoldPouch, Bid, TransactionType, Reference}
use dragon_market.Repository.Db.{Db, Connection}
use dragon_market.Repository.GoldPouches.{pouch_of}
use dragon_market.GoldPouch.{reset_day}
use dragon_market.GoldPouch.Outcomes.{pouch_of-guild_id}
use dragon_market.GoldPouch.Effects.{total_gold, total_gold-written}
use dragon_market.Auction.{PlaceBidInput, CancelBidInput, place_bid, cancel_bid}
use dragon_market.Auction.Bidding.{Placed}
use dragon_market.Auction.Cancelling.{freed, Cancelled}
use dragon_market.Auction.Opening.{CreateAuctionInput, create_auction}
use dragon_market.ItemService.{Prices}
use dragon_market.Auction.Rules.{place_bid-rule, cancel_bid-rule, create_auction-rule}
use dragon_market.Invariant.{IsSound}

abbrev pub SameGold : Db → Db → Type 0
SameGold d d' = total_gold d' ≡ total_gold d

Placed-gold :
    (input : PlaceBidInput) (n now reserve_now t : ℕ) (d : Db) (s : IsSound d) (a : Auction)
    (gp : GoldPouch) (b : Bid) (d' : Db)
    → pouch_of input.guild_id d ≡ some gp
    → Placed input n now reserve_now t d a gp b d'
    → SameGold d d'
Placed-gold input n now reserve_now t d s a gp b d' fp p = subst (SameGold d) (sym p.state) (
    ground (
      arith,
      total_gold-written input.guild_id gp
          (record (reset_day reserve_now gp) { reserved_balance = gp.reserved_balance + n }) d
          TransactionType.reserve n (some (Reference.auction a.id)) t s.pouches_distinct fp,
      pouch_of-guild_id input.guild_id d gp fp,
    ))

pub place_bid-gold :
    (c : Connection) (input : PlaceBidInput) (begin now reserve_now : ℕ) (d : Db)
    → IsSound d
    → SameGold d (place_bid c input begin now reserve_now d).1
place_bid-gold c input begin now reserve_now d s =
    place_bid-rule c begin d (SameGold d) refl (λ _ _. refl) input now reserve_now s
      λ n a gp b x _ fp p. Placed-gold input n now reserve_now begin d s a gp b x fp p

pub create_auction-gold :
    (c : Connection) (prices : Prices) (input : CreateAuctionInput) (begin now : ℕ) (d : Db)
    → SameGold d (create_auction c prices input begin now d).1
create_auction-gold c prices input begin now d =
    create_auction-rule c begin d (SameGold d) refl (λ _ _. refl) prices input now (λ _ _. refl)

Cancelled-gold :
    (input : CancelBidInput) (t : ℕ) (d : Db) (a : Auction) (b : Bid) (d' : Db)
    → IsSound d
    → Cancelled input t d a b d'
    → SameGold d d'
Cancelled-gold input t d a b d' s (own, active, low, (gp, fp, c, e)) = subst (SameGold d) (sym e) (
    ground (
      arith,
      total_gold-written b.guild_id gp (freed gp b.amount) d TransactionType.release b.amount
          (some (Reference.auction a.id)) t s.pouches_distinct fp,
      pouch_of-guild_id b.guild_id d gp fp,
    ))

pub cancel_bid-gold :
    (c : Connection) (input : CancelBidInput) (begin : ℕ) (d : Db)
    → IsSound d
    → SameGold d (cancel_bid c input begin d).1
cancel_bid-gold c input begin d s =
    cancel_bid-rule c begin d (SameGold d) refl (λ _ _. refl) input s
      λ a b x _ k. Cancelled-gold input begin d a b x s k
