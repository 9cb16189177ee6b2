-- ===== src/Settlement/Losers.antt =====
-- The loop of settleWithWinner over the losing bids, in a sound database.
use dragon_market.Base.{
  ℕ, ◌≤◌, ◌≡◌, refl, ◌∙◌, inl, inr, Bool, true, false, none, some, List, [], ◌∷◌, ◌==◌,
  if◌then◌else◌, arith, Bool-cases,
}
use dragon_market.Repository.Tables.{find_row, find_row-narrower}
use dragon_market.Repository.Rows.{GoldPouch, Bid, BidStatus, Reference, bid_active}
use dragon_market.Repository.Db.{Db, Tx, Result, ok}
use dragon_market.Repository.GoldPouches.{pouch_of}
use dragon_market.Repository.Bids.{bid_row, put_bid_status}
use dragon_market.Repository.Bids
use dragon_market.Repository.Keys.{Distinct}
use dragon_market.GoldPouch.Effects.{total_gold}
use dragon_market.Settlement.{release_losers}
use dragon_market.Atomic.{Later}
use dragon_market.Invariant.{IsSound, bid_key}
use dragon_market.Invariant.Retire.{covered-active}
use dragon_market.Settlement.Round.{
  is_spared, is_loser, InPlace, total_of, Cleared, lost_db, round-IsSound, round-rows, round-gold,
  round-balances, round-InPlace, released_then,
}

else_branch :
    (c : Bool) (x y : Tx (Unit {0})) (t : ℕ) (d : Db) → c ≡ false → (if c then x else y) t d ≡ y t d
else_branch true x y t d e = cc
else_branch false x y t d e = refl

module _ (w : ℕ) (reference : Reference) (t : ℕ) where
  -- The statement on the loop's result.
  abbrev pub AllCleared : Db → List Bid → Result (Unit {0}) × Db → Type 0
  AllCleared d bs r = (d' : Db) × (r ≡ (ok tt, d')) × Cleared w d bs d'

  nothing_left : (d : Db) → IsSound d → Cleared w d [] d
  unfolding find_row
  nothing_left d s = record {
    sound = s;
    later = (omega arith, omega arith);
    gold = refl;
    balances = λ g. refl;
    auctions = refl;
    inventories = refl;
    items = refl;
    kept = λ id e. refl;
    ended = λ id c e. absurd (ground (arith, e));
  }

  spared_first :
      (d : Db) (b : Bid) (bs : List Bid) (d' : Db)
      → is_spared w b ≡ true
      → Cleared w d bs d'
      → Cleared w d (b ∷ bs) d'
  unfolding find_row
  spared_first d b bs d' e c = record {
    sound = c.sound;
    later = c.later;
    gold = c.gold;
    balances = c.balances;
    auctions = c.auctions;
    inventories = c.inventories;
    items = c.items;
    kept = λ id free. c.kept id (ground arith);
    ended = λ id x found. c.ended id x (ground arith);
  }

  lost_first :
      (d d1 : Db) (b : Bid) (bs : List Bid) (d' : Db)
      → is_spared w b ≡ false
      → find_row (λ c. c.id == b.id) bs ≡ none
      → total_gold d1 ≡ total_gold d
      → ((g : ℕ) → total_of g d1 ≡ total_of g d)
      → ((id : ℕ)
          → bid_row id d1
            ≡ (if id == b.id then some (record b { status = BidStatus.lost }) else bid_row id d))
      → Later d d1
      → d1.auctions ≡ d.auctions
      → d1.inventories ≡ d.inventories
      → d1.items ≡ d.items
      → Cleared w d1 bs d'
      → Cleared w d (b ∷ bs) d'
  unfolding find_row
  lost_first d d1 b bs d' e apart gold balances rows later same_auctions same_inventories same_items
        c =
      record {
        sound = c.sound;
        later = omega (arith, c.later);
        gold = c.gold ∙ gold;
        balances = λ g. c.balances g ∙ balances g;
        auctions = c.auctions ∙ same_auctions;
        inventories = c.inventories ∙ same_inventories;
        items = c.items ∙ same_items;
        kept = λ id free. ground (arith, c.kept id, rows id);
        ended = λ id x found. (elim (Bool-cases (b.id == id)) [
          | inl hit ↦ ground (
            arith,
            c.kept id (
                find_row-narrower (is_loser w id) (λ y. y.id == b.id) bs (λ y h. ground arith)
                  apart),
            rows id,
          )
          | inr miss ↦ c.ended id x (ground arith)
        ]);
      }

  losing_round :
      (d : Db) (b : Bid) (bs : List Bid) (gp : GoldPouch)
      → IsSound d
      → is_spared w b ≡ false
      → bid_row b.id d ≡ some b
      → pouch_of b.guild_id d ≡ some gp
      → b.amount ≤ gp.reserved_balance
      → release_losers w reference (b ∷ bs) t d
        ≡ release_losers w reference bs t (lost_db b gp reference t d)
  unfolding release_losers Bids.update
  losing_round d b bs gp s e stored fp covered =
      else_branch (is_spared w b) _ _ t d e
      ∙ released_then w reference t d s b (ground arith) stored gp fp covered
          (release_losers w reference bs)

  -- In a sound database the loop over distinct bids, the losing ones as they are stored, never
  -- fails. It leaves the database sound, each losing bid LOST, every other bid, each guild's total,
  -- the auctions and the inventories as they were.
  pub release_losers_lem :
      (d : Db) (bs : List Bid)
      → IsSound d
      → Distinct bid_key bs
      → InPlace w d bs
      → AllCleared d bs (release_losers w reference bs t d)
  unfolding release_losers
  release_losers_lem d [] s v place = (d, refl, nothing_left d s)
  release_losers_lem d (b ∷ bs) s v place = elim (Bool-cases (is_spared w b)) [
    | inl e ↦
        (let (d', eq, c) = release_losers_lem d bs s v.1 place.1 in
          (d', rw e eq, spared_first d b bs d' e c))
    | inr e ↦
        (let stored = place.0 e in
          let (gp, fp, covered) = covered-active b.id b d s stored (ground arith) in
          let d1 = lost_db b gp reference t d in
          let active : bid_active b.status ≡ true = ground arith in
          let (d', eq, c) =
            release_losers_lem d1 bs (round-IsSound w reference t d s b active stored gp fp covered)
              v.1 (round-InPlace w reference t d s b active stored gp fp covered bs v.0 place.1) in
          (
            d',
            losing_round d b bs gp s e stored fp covered ∙ eq,
            lost_first d d1 b bs d' e v.0
                (round-gold w reference t d s b active stored gp fp covered)
                (round-balances w reference t d s b active stored gp fp covered)
                (round-rows w reference t d s b active stored gp fp covered)
                (omega arith, omega arith) refl refl refl c,
          ))
  ]
