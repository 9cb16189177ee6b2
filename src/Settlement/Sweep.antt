-- ===== src/Settlement/Sweep.antt =====
-- SettleAuction and Tick: what each call leaves behind, however it ends.
use mathlib.Core.Path.{subst}
use dragon_market.Base.{ℕ, ◌≡◌, refl, ◌∙◌, true, false, ◌&&◌, some, List, [], ◌∷◌, ltb, leb, arith}
use dragon_market.Repository.Tables.{select}
use dragon_market.Repository.Rows.{Auction, auction_active}
use dragon_market.Repository.Db.{Db, Error, ok, err, run_tx, end_tx}
use dragon_market.Repository.Bids.{auction_row}
use dragon_market.Repository.Auctions
use dragon_market.Repository.Auctions.{put_auction, is_rival}
use dragon_market.GoldPouch.Effects.{total_gold}
use dragon_market.Settlement.{settle_auction_body, Reading, settle_auction}
use dragon_market.Atomic.{Later, Ends, weaken_Ends, run_tx-keeps, run_tx-ok}
use dragon_market.Invariant.{IsSound, auction_row-id, rollback-IsSound}
use dragon_market.Settlement.{settle_all, tick}
use dragon_market.Settlement.Closing.{Due, expired, body-Ends}

Due-IsSound : (auction_id now : ℕ) (d d' : Db) → Due auction_id now d d' → IsSound d' × Later d d'
Due-IsSound auction_id now d d' (a, found, active, past, k) = (k.sound, k.later)

Due-gold : (auction_id now : ℕ) (d d' : Db) → Due auction_id now d d' → total_gold d' ≡ total_gold d
Due-gold auction_id now d d' (a, found, active, past, k) = k.gold

-- SettleAuction keeps a sound database sound, however it ends.
pub settle_auction-IsSound :
    (r : Reading) (auction_id : ℕ) (d : Db) → IsSound d → IsSound (settle_auction r auction_id d).1
unfolding settle_auction
settle_auction-IsSound r auction_id d s =
    run_tx-keeps IsSound d s (rollback-IsSound d s) r.connection r.begin _ (
      weaken_Ends (λ _. Due auction_id r.now d) d (λ _ d'. IsSound d' × Later d d') _
        (body-Ends auction_id r.now r.settle_now r.begin d s) (λ _. Due-IsSound auction_id r.now d))

-- SettleAuction neither makes nor loses gold, however it ends.
pub settle_auction-gold :
    (r : Reading) (auction_id : ℕ) (d : Db)
    → IsSound d
    → total_gold (settle_auction r auction_id d).1 ≡ total_gold d
unfolding settle_auction
settle_auction-gold r auction_id d s =
    run_tx-keeps (λ x. total_gold x ≡ total_gold d) d refl (λ _ _. refl) r.connection r.begin _
      (weaken_Ends (λ _. Due auction_id r.now d) d
        (λ _ d'. (total_gold d' ≡ total_gold d) × Later d d') _
        (body-Ends auction_id r.now r.settle_now r.begin d s)
        (λ _ d' k. (Due-gold auction_id r.now d d' k, (Due-IsSound auction_id r.now d d' k).1)))

-- A settlement that succeeds, from a sound database, found an ACTIVE auction past its end. It leaves
-- the database sound and the sum of all balances as it was, the auction EXPIRED and no bid of it
-- ACTIVE. With a highest bid, that bid is WON, its guild holds one of the item, and, unless it is
-- the seller, its total went down by the bid and the seller's up by it.
pub settle_auction-Due :
    (r : Reading) (auction_id : ℕ) (d d' : Db)
    → IsSound d
    → settle_auction r auction_id d ≡ (ok tt, d')
    → Due auction_id r.now d d'
unfolding settle_auction
settle_auction-Due r auction_id d d' s e =
    subst (Ends (λ _. Due auction_id r.now d) d)
      (run_tx-ok r.connection r.begin (settle_auction_body auction_id r.now r.settle_now) d tt d' e)
      (body-Ends auction_id r.now r.settle_now r.begin d s)

-- Without an ACTIVE auction past its end there is nothing to settle: the call is refused and the
-- database is as it was.
refused-body :
    (auction_id now settle_now t : ℕ) (d : Db) (a : Auction)
    → auction_row auction_id d ≡ some a
    → (auction_active a.status && ltb a.end_time now) ≡ false
    → settle_auction_body auction_id now settle_now t d ≡ (err Error.auction_not_eligible, d)
unfolding settle_auction_body Auctions.get_by_id
refused-body auction_id now settle_now t d a found e = ground arith

refused-run :
    (r : Reading) (auction_id : ℕ) (d : Db) (a : Auction)
    → r.connection.begins ≡ true
    → auction_row auction_id d ≡ some a
    → (auction_active a.status && ltb a.end_time r.now) ≡ false
    → settle_auction r auction_id d ≡ (err Error.auction_not_eligible, d)
unfolding settle_auction run_tx end_tx
refused-run r auction_id d a begins found e =
    rw (begins, refused-body auction_id r.now r.settle_now r.begin d a found e) refl

-- An auction is settled once only: after a settlement that succeeds, from a sound database, a
-- further one over a connection that begins is refused as not eligible and changes nothing.
pub settle_auction-once :
    (r again : Reading) (auction_id : ℕ) (d d' : Db)
    → IsSound d
    → again.connection.begins ≡ true
    → settle_auction r auction_id d ≡ (ok tt, d')
    → settle_auction again auction_id d' ≡ (err Error.auction_not_eligible, d')
settle_auction-once r again auction_id d d' s begins e =
    let (a, found, active, past, k) = settle_auction-Due r auction_id d d' s e in
    refused-run again auction_id d' (expired a) begins
      (subst (λ i. auction_row i d' ≡ some (expired a)) (auction_row-id auction_id d a found)
        k.over)
      refl

-- The sweep, over any list of auctions.
settle_all-keeps :
    (readings : ℕ → Reading) (todo : List Auction) (d : Db)
    → IsSound d
    → IsSound (settle_all readings todo d)
      × (total_gold (settle_all readings todo d) ≡ total_gold d)
unfolding settle_all
settle_all-keeps readings [] d s = (s, refl)
settle_all-keeps readings (a ∷ rest) d s =
    let x = (settle_auction (readings a.id) a.id d).1 in
    let (sound, gold) =
      settle_all-keeps readings rest x (settle_auction-IsSound (readings a.id) a.id d s) in
    (sound, gold ∙ settle_auction-gold (readings a.id) a.id d s)

-- A sweep keeps a sound database sound and neither makes nor loses gold, whichever of its settlements
-- fail.
pub tick-keeps :
    (readings : ℕ → Reading) (cutoff : ℕ) (d : Db)
    → IsSound d
    → IsSound (tick readings cutoff d) × (total_gold (tick readings cutoff d) ≡ total_gold d)
unfolding tick Auctions.list_active_ending_before
tick-keeps readings cutoff d s =
    settle_all-keeps readings
      (select (λ a. auction_active a.status && leb a.end_time cutoff) d.auctions) d s
