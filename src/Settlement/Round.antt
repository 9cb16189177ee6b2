-- ===== src/Settlement/Round.antt =====
-- One round of the loop of settleWithWinner over the losing bids, in a sound database.
use dragon_market.Base.{
  ℕ, pos, ◌≤◌, ◌≡◌, refl, ◌∙◌, ◌-◌, Bool, true, false, not, ◌||◌, ◌&&◌, none, some, List, [], ◌∷◌,
  ◌==◌, if◌then◌else◌, arith,
}
use dragon_market.Repository.Tables.{find_row}
use dragon_market.Repository.Rows.{
  GoldPouch, Bid, BidStatus, TransactionType, Reference, bid_active,
}
use dragon_market.Repository.Db.{Db, Tx, ◌>>◌, bind-ok, ok, is_some→eq}
use dragon_market.Repository.GoldPouches.{pouch_of}
use dragon_market.Repository.Bids.{bid_row, put_bid_status}
use dragon_market.Repository.Bids
use dragon_market.Repository.Keys.{find_row-update_rows-some}
use dragon_market.GoldPouch.{release}
use dragon_market.GoldPouch.Outcomes.{written, release_lem, release_outcome, pouch_of-guild_id}
use dragon_market.GoldPouch.Effects.{total_gold, total_gold-written, pouch_of-written}
use dragon_market.Atomic.{Later}
use dragon_market.Invariant.{IsSound, bid_key}
use dragon_market.Invariant.Retire.{retired-IsSound}

-- The rows that the loop passes over.
abbrev pub is_spared : ℕ → Bid → Bool
is_spared w b = b.id == w || not (bid_active b.status)

-- The row of a given id, if the loop ends it.
abbrev pub is_loser : ℕ → ℕ → Bid → Bool
is_loser w id b = b.id == id && not (is_spared w b)

-- The rows that the loop is still to end stand in the table as they were read.
abbrev pub InPlace : ℕ → Db → List Bid → Type 0
InPlace w d [] = Unit
InPlace w d (b ∷ bs) = (is_spared w b ≡ false → bid_row b.id d ≡ some b) × InPlace w d bs

abbrev pub total_of : ℕ → Db → ℕ
total_of g d = elim (pouch_of g d) [ none ↦ 0 | some gp ↦ gp.total_balance ]

pub record Cleared (w : ℕ) (d : Db) (bs : List Bid) (d' : Db) : Type 0 where
  pub sound : IsSound d'
  pub later : Later d d'
  pub gold : total_gold d' ≡ total_gold d
  pub balances : (g : ℕ) → total_of g d' ≡ total_of g d
  pub auctions : d'.auctions ≡ d.auctions
  pub inventories : d'.inventories ≡ d.inventories
  pub items : d'.items ≡ d.items
  pub kept : (id : ℕ) → find_row (is_loser w id) bs ≡ none → bid_row id d' ≡ bid_row id d
  pub ended :
      (id : ℕ) (c : Bid)
      → find_row (is_loser w id) bs ≡ some c
      → bid_row id d' ≡ some (record c { status = BidStatus.lost })

abbrev pub lost_db : Bid → GoldPouch → Reference → ℕ → Db → Db
lost_db b gp reference t d = put_bid_status b.id BidStatus.lost (
    written (record gp { reserved_balance = gp.reserved_balance - b.amount })
      TransactionType.release b.amount (some reference) t d)

-- One round of the loop on a losing bid.
module _ (w : ℕ) (reference : Reference) (t : ℕ) (d : Db) (s : IsSound d) (b : Bid)
    (active : bid_active b.status ≡ true) (stored : bid_row b.id d ≡ some b) (gp : GoldPouch)
    (fp : pouch_of b.guild_id d ≡ some gp) (covered : b.amount ≤ gp.reserved_balance) where
  abbrev less : GoldPouch
  less = record gp { reserved_balance = gp.reserved_balance - b.amount }

  pub round-IsSound : IsSound (lost_db b gp reference t d)
  round-IsSound =
      retired-IsSound b.guild_id gp less TransactionType.release b.amount (some reference) t d s fp
        (pouch_of-guild_id b.guild_id d gp fp) refl (ground (arith, s.pouches b.guild_id gp fp)) b
        BidStatus.lost stored active refl refl (omega arith)

  pub round-rows :
      (id : ℕ)
      → bid_row id (lost_db b gp reference t d)
        ≡ (if id == b.id then some (record b { status = BidStatus.lost }) else bid_row id d)
  round-rows id =
      find_row-update_rows-some bid_key b.id id (λ r. record r { status = BidStatus.lost }) d.bids b
        (λ r. refl) stored

  pub round-gold : total_gold (lost_db b gp reference t d) ≡ total_gold d
  round-gold = omega (
    arith,
    total_gold-written b.guild_id gp less d TransactionType.release b.amount (some reference) t
        s.pouches_distinct fp (pouch_of-guild_id b.guild_id d gp fp),
  )

  pub round-balances : (g : ℕ) → total_of g (lost_db b gp reference t d) ≡ total_of g d
  round-balances g = ground (
    arith,
    pouch_of-written b.guild_id gp less d TransactionType.release b.amount (some reference) t g fp
        (pouch_of-guild_id b.guild_id d gp fp) (pouch_of-guild_id b.guild_id d gp fp) refl,
  )

  pub round-InPlace :
      (bs : List Bid)
      → find_row (λ c. c.id == b.id) bs ≡ none
      → InPlace w d bs
      → InPlace w (lost_db b gp reference t d) bs
  unfolding find_row
  round-InPlace [] apart v = tt
  round-InPlace (c ∷ bs) apart v =
      (λ e. ground (arith, round-rows c.id, v.0 e), round-InPlace bs (ground arith) v.1)

  released :
      release_outcome gp b.amount (some reference) t d
      ≡ (ok tt, written less TransactionType.release b.amount (some reference) t d)
  released = ground (arith, s.bids b.id b stored)

  round-release :
      release b.guild_id (pos b.amount) (some reference) t d
      ≡ (ok tt, written less TransactionType.release b.amount (some reference) t d)
  round-release =
      let (row, fg) = is_some→eq (s.members b.guild_id gp fp) in
      release_lem b.guild_id gp b.amount (some reference) t d fp (s.pouches b.guild_id gp fp) fg
      ∙ released

  -- The round's two statements, and what comes after.
  pub released_then :
      (k : Tx (Unit {0}))
      → (release b.guild_id (pos b.amount) (some reference)
            >> (Bids.update (record b { status = BidStatus.lost }) >> k))
          t d
        ≡ k t (lost_db b gp reference t d)
  unfolding Bids.update
  released_then k =
      bind-ok (release b.guild_id (pos b.amount) (some reference))
        (λ _. Bids.update (record b { status = BidStatus.lost }) >> k) t d tt _ round-release
