-- ===== src/Repository/Bids/Highest.antt =====
-- The row that GetHighestActiveByAuctionID finds.
use mathlib.Core.Path.{subst}
use dragon_market.Base.{
  ℕ, ◌≤◌, ◌<◌, ◌≡◌, ◌⊎◌, refl, inl, inr, Bool, true, false, none, some, List, [], ◌∷◌, ◌==◌, arith,
  Option-cases, Bool-cases,
}
use dragon_market.Repository.Tables.{find_row, select}
use dragon_market.Repository.Rows.{Bid, bid_active}
use dragon_market.Repository.Db.{Db}
use dragon_market.Repository.Keys.{Distinct, Within, select-Within}
use dragon_market.Repository.Bids.{first_by_amount, highest_active, is_active_in, beats, bid_row}
use dragon_market.Invariant.{bid_key}

abbrev AllFit : (Bid → Bool) → List Bid → Type 0
AllFit p [] = Unit
AllFit p (b ∷ bs) = (p b ≡ true) × AllFit p bs

select-AllFit : (p : Bid → Bool) (bs : List Bid) → AllFit p (select p bs)
unfolding select
select-AllFit p [] = tt
select-AllFit p (b ∷ bs) = ground (arith, select-AllFit p bs)

first-fits :
    (p : Bid → Bool) (bs : List Bid) (w : Bid)
    → AllFit p bs
    → first_by_amount bs ≡ some w
    → p w ≡ true
unfolding first_by_amount
first-fits p [] w v e = cc
first-fits p (b ∷ bs) w v e = elim (Option-cases (first_by_amount bs)) [
  | inl f ↦ ground (arith, v.0)
  | inr (a, f) ↦ ground (arith, v.0, first-fits p bs a v.1 f)
]

first-stored :
    (xs bs : List Bid) (w : Bid)
    → Within bid_key xs bs
    → first_by_amount bs ≡ some w
    → find_row (λ b. b.id == w.id) xs ≡ some w
unfolding first_by_amount
first-stored xs [] w v e = cc
first-stored xs (b ∷ bs) w v e = elim (Option-cases (first_by_amount bs)) [
  | inl f ↦ stored_eq b w (ground arith) v.0
  | inr (a, f) ↦ (elim (Bool-cases (beats a b)) [
    | inl up ↦ stored_eq a w (ground arith) (first-stored xs bs a v.1 f)
    | inr down ↦ stored_eq b w (ground arith) v.0
  ])
]
  where
    stored_eq :
        (x y : Bid)
        → x ≡ y
        → find_row (λ b. b.id == x.id) xs ≡ some x
        → find_row (λ b. b.id == y.id) xs ≡ some y
    stored_eq x y p = subst (λ z. find_row (λ b. b.id == z.id) xs ≡ some z) p

pub highest_active-stored :
    (id : ℕ) (d : Db) (w : Bid)
    → Distinct bid_key d.bids
    → highest_active id d ≡ some w
    → (bid_row w.id d ≡ some w) × (bid_active w.status ≡ true) × (w.auction_id ≡ id)
highest_active-stored id d w v e =
    let fit = first-fits (is_active_in id) _ w (select-AllFit (is_active_in id) d.bids) e in
    (
      first-stored d.bids _ w (select-Within bid_key (is_active_in id) d.bids v) e,
      ground (arith, fit),
      ground (arith, fit),
    )

first-none : (bs : List Bid) → first_by_amount bs ≡ none → bs ≡ []
unfolding first_by_amount
first-none [] e = refl
first-none (b ∷ bs) e = ground arith

none-selected :
    (p q : Bid → Bool) (bs : List Bid) (x : Bid)
    → select p bs ≡ []
    → find_row q bs ≡ some x
    → p x ≡ false
unfolding select find_row
none-selected p q [] x e f = cc
none-selected p q (b ∷ bs) x e f = ground (arith, none-selected p q bs x)

-- Without a highest bid no bid of the auction is ACTIVE.
pub highest_active-none :
    (id : ℕ) (d : Db) (k : ℕ) (c : Bid)
    → highest_active id d ≡ none
    → bid_row k d ≡ some c
    → c.auction_id ≡ id
    → bid_active c.status ≡ false
highest_active-none id d k c e f on =
    ground (arith, none-selected (is_active_in id) (λ b. b.id == k) d.bids c (first-none _ e) f)

-- A bid stands before another under ORDER BY amount DESC, created_at ASC, or level with it.
abbrev pub IsBefore : Bid → Bid → Type 0
IsBefore w x = (x.amount < w.amount) ⊎ ((x.amount ≡ w.amount) × (w.created_at ≤ x.created_at))

first-IsBefore :
    (p q : Bid → Bool) (bs : List Bid) (w x : Bid)
    → first_by_amount (select p bs) ≡ some w
    → find_row q bs ≡ some x
    → p x ≡ true
    → IsBefore w x
unfolding first_by_amount select find_row
first-IsBefore p q [] w x e f h = cc
first-IsBefore p q (b ∷ bs) w x e f h = elim (Option-cases (first_by_amount (select p bs))) [
  | inl g ↦ ground (arith, none-selected p q bs x (first-none _ g))
  | inr (a, g) ↦ ground (arith, first-IsBefore p q bs a x g)
]

-- Where bid ids are distinct, the bid that the query returns is in the table under its id, is ACTIVE
-- and is a bid of the auction asked for; any ACTIVE bid of that auction is for less, or for as much
-- and not from before it.
pub highest_active-first :
    (id : ℕ) (d : Db) (w : Bid) (k : ℕ) (c : Bid)
    → Distinct bid_key d.bids
    → highest_active id d ≡ some w
    → bid_row k d ≡ some c
    → c.auction_id ≡ id
    → bid_active c.status ≡ true
    → ((bid_row w.id d ≡ some w) × (bid_active w.status ≡ true) × (w.auction_id ≡ id))
      × IsBefore w c
highest_active-first id d w k c v e f on active = (
  highest_active-stored id d w v e,
  first-IsBefore (is_active_in id) (λ b. b.id == k) d.bids w c e f (ground arith),
)
