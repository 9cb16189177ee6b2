-- ===== src/Invariant/History.antt =====
-- How the rows of the tables of auctions and bids may change while the program runs.
use mathlib.Core.Path.{subst}
use dragon_market.Base.{
  ℕ, ◌≤◌, ◌≡◌, refl, sym, ◌∙◌, ap, inl, inr, ◌⊎◌, true, false, some, ◌++◌, [], ◌∷◌, ◌==◌,
  if◌then◌else◌, arith, Bool-cases, ==→eq, some_eq,
}
use dragon_market.Repository.Tables.{find_row-append_found}
use dragon_market.Repository.Rows.{
  Auction, AuctionStatus, Bid, BidStatus, auction_active, bid_active,
}
use dragon_market.Repository.Db.{Db}
use dragon_market.Repository.Bids.{bid_row, auction_row, put_bid_status, has_id}
use dragon_market.Repository.Auctions.{put_auction}
use dragon_market.Repository.Keys.{find_row-update_rows-some}
use dragon_market.Invariant.{bid_key, auction_key}

-- A bid stays, or it was ACTIVE and has got another status, and nothing else of it has changed.
abbrev pub BidAdvances : Bid → Bid → Type 0
BidAdvances b c =
    (c ≡ b)
    ⊎ ((bid_active b.status ≡ true)
        × (bid_active c.status ≡ false)
        × (c ≡ record b { status = c.status }))

-- An auction stays, or it was ACTIVE and has got another status or a later end, and nothing else of
-- it has changed.
abbrev pub AuctionAdvances : Auction → Auction → Type 0
AuctionAdvances a e =
    (e ≡ a)
    ⊎ ((auction_active a.status ≡ true)
        × (a.end_time ≤ e.end_time)
        × (e ≡ record a { status = e.status; end_time = e.end_time }))

abbrev moved : Auction → AuctionStatus → ℕ → Auction
moved a s t = record a { status = s; end_time = t }

BidAdvances-trans : (a b c : Bid) → BidAdvances a b → BidAdvances b c → BidAdvances a c
BidAdvances-trans a b c (inl p) k = subst (λ x. BidAdvances x c) p k
BidAdvances-trans a b c (inr h) (inl q) = subst (BidAdvances a) (sym q) (inr h)
BidAdvances-trans a b c (inr (on, off, p)) (inr (on', off', q)) = absurd (ground (arith, off, on'))

AuctionAdvances-trans :
    (a b c : Auction) → AuctionAdvances a b → AuctionAdvances b c → AuctionAdvances a c
AuctionAdvances-trans a b c (inl p) k = subst (λ x. AuctionAdvances x c) p k
AuctionAdvances-trans a b c (inr h) (inl q) = subst (AuctionAdvances a) (sym q) (inr h)
AuctionAdvances-trans a b c (inr (on, later, p)) (inr (on', later', q)) =
    inr (on, omega arith, q ∙ ap (λ (x : Auction). moved x c.status c.end_time) p)

abbrev pub BidAged : ℕ → Bid → Db → Type 0
BidAged id b x = (c : Bid) × (bid_row id x ≡ some c) × BidAdvances b c

abbrev pub AuctionAged : ℕ → Auction → Db → Type 0
AuctionAged id a x = (e : Auction) × (auction_row id x ≡ some e) × AuctionAdvances a e

-- What each row of d has come to in x.
pub record Ages (d x : Db) : Type 0 where
  pub bids : (id : ℕ) (b : Bid) → bid_row id d ≡ some b → BidAged id b x
  pub auctions : (id : ℕ) (a : Auction) → auction_row id d ≡ some a → AuctionAged id a x

pub Ages-same : (d x : Db) → x.bids ≡ d.bids → x.auctions ≡ d.auctions → Ages d x
Ages-same d x same_bids same_auctions = record {
  bids = λ id b e. (b, rw same_bids e, inl refl);
  auctions = λ id a e. (a, rw same_auctions e, inl refl);
}

pub Ages-refl : (d : Db) → Ages d d
Ages-refl d = Ages-same d d refl refl

pub Ages-trans : (d x y : Db) → Ages d x → Ages x y → Ages d y
Ages-trans d x y p q = record {
  bids = λ id a e.
      (let (b, f, h) = p.bids id a e in
        let (c, g, k) = q.bids id b f in (c, g, BidAdvances-trans a b c h k));
  auctions = λ id a e.
      (let (b, f, h) = p.auctions id a e in
        let (c, g, k) = q.auctions id b f in (c, g, AuctionAdvances-trans a b c h k));
}

-- The statements that write to the two tables.
status_row :
    (d : Db) (b : Bid) (s : BidStatus) (id : ℕ)
    → bid_row b.id d ≡ some b
    → bid_row id (put_bid_status b.id s d)
      ≡ (if id == b.id then some (record b { status = s }) else bid_row id d)
status_row d b s id stored =
    find_row-update_rows-some bid_key b.id id (λ r. record r { status = s }) d.bids b (λ r. refl)
      stored

moved_row :
    (d : Db) (a : Auction) (s : AuctionStatus) (t id : ℕ)
    → auction_row a.id d ≡ some a
    → auction_row id (put_auction (moved a s t) d)
      ≡ (if id == a.id then some (moved a s t) else auction_row id d)
moved_row d a s t id stored =
    find_row-update_rows-some auction_key a.id id (λ r. moved r s t) d.auctions a (λ r. refl) stored

pub put_bid_status-Ages :
    (d : Db) (b : Bid) (s : BidStatus)
    → bid_row b.id d ≡ some b
    → bid_active b.status ≡ true
    → bid_active (record b { status = s }).status ≡ false
    → Ages d (put_bid_status b.id s d)
put_bid_status-Ages d b s stored on off = record {
  bids = λ id c e. (elim (Bool-cases (id == b.id)) [
    | inl hit ↦
        let same : b ≡ c =
          some_eq stored (subst (λ k. bid_row k d ≡ some c) (==→eq id b.id hit) e) in
        (
          record b { status = s },
          status_row d b s id stored ∙ rw hit refl,
          subst (λ x. BidAdvances x (record b { status = s })) same (inr (on, off, refl)),
        )
    | inr miss ↦ (c, status_row d b s id stored ∙ rw miss e, inl refl)
  ]);
  auctions = λ id a e. (a, e, inl refl);
}

pub put_auction-Ages :
    (d : Db) (a : Auction) (s : AuctionStatus) (t : ℕ)
    → auction_row a.id d ≡ some a
    → auction_active a.status ≡ true
    → a.end_time ≤ t
    → Ages d (put_auction (record a { status = s; end_time = t }) d)
put_auction-Ages d a s t stored on later = record {
  bids = λ id c e. (c, e, inl refl);
  auctions = λ id c e. (elim (Bool-cases (id == a.id)) [
    | inl hit ↦
        let same : a ≡ c =
          some_eq stored (subst (λ k. auction_row k d ≡ some c) (==→eq id a.id hit) e) in
        (
          moved a s t,
          moved_row d a s t id stored ∙ rw hit refl,
          subst (λ x. AuctionAdvances x (moved a s t)) same (inr (on, later, refl)),
        )
    | inr miss ↦ (c, moved_row d a s t id stored ∙ rw miss e, inl refl)
  ]);
}

pub add_bid-Ages :
    (d x : Db) (b : Bid) → x.bids ≡ d.bids ++ b ∷ [] → x.auctions ≡ d.auctions → Ages d x
add_bid-Ages d x b more same = record {
  bids = λ id c e. (c, rw more (find_row-append_found (has_id id) d.bids b c e), inl refl);
  auctions = λ id a e. (a, rw same e, inl refl);
}

pub add_auction-Ages :
    (d x : Db) (a : Auction) → x.auctions ≡ d.auctions ++ a ∷ [] → x.bids ≡ d.bids → Ages d x
add_auction-Ages d x a more same = record {
  bids = λ id b e. (b, rw same e, inl refl);
  auctions =
      λ id c e. (c, rw more (find_row-append_found (λ r. r.id == id) d.auctions a c e), inl refl);
}
