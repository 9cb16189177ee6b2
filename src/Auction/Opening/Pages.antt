-- ===== src/Auction/Opening/Pages.antt =====
-- ListActiveAuctions: its bounds on the slice against the window of the list that they stand for.
use dragon_market.Base.{
  ℕ, ℤ, pos, negsuc, some, zero, suc, ◌≤◌, ◌<◌, ◌≡◌, refl, sym, inl, inr, ◌+◌, ◌-◌, ◌^◌, List, [],
  ◌∷◌, map, take, drop, length, leb, ltb, if◌then◌else◌, arith, tests, ap, Bool-cases,
}
use dragon_market.Repository.Tables.{select}
use dragon_market.Repository.Rows.{Auction, auction_active}
use dragon_market.Repository.Db.{Db, ok}
use dragon_market.Repository.Auctions
use dragon_market.ItemService.{limit_of, offset_of}
use dragon_market.Auction.Opening.{page, slice, slice_end, AuctionView, list_active_auctions}

module _ {ℓ} {A : Type ℓ} where
  drop-all : (k : ℕ) (xs : List A) → length xs ≤ k → drop k xs ≡ []
  drop-all zero [] h = refl
  drop-all zero (x ∷ xs) h = absurd (omega arith)
  drop-all (suc k) [] h = refl
  drop-all (suc k) (x ∷ xs) h = drop-all k xs (omega arith)

  take-empty : (k : ℕ) → take {A = A} k [] ≡ []
  take-empty zero = refl
  take-empty (suc k) = refl

  take-all : (k : ℕ) (xs : List A) → length xs ≤ k → take k xs ≡ xs
  take-all zero [] h = refl
  take-all zero (x ∷ xs) h = absurd (omega arith)
  take-all (suc k) [] h = refl
  take-all (suc k) (x ∷ xs) h = ap (λ ys. x ∷ ys) (take-all k xs (omega arith))

  length-drop : (k : ℕ) (xs : List A) → length (drop k xs) ≡ length xs - k
  length-drop zero xs = omega arith
  length-drop (suc k) [] = omega arith
  length-drop (suc k) (x ∷ xs) = omega (arith, length-drop k xs)

-- The end of the window, set back to the end of the list.
abbrev set_back : ℕ → ℕ → ℕ
set_back end n = if ltb n end then n else end

slice_end_lem :
    (offset limit n : ℕ)
    → offset < 2 ^ 63
    → limit < 2 ^ 63
    → n < 2 ^ 63
    → slice_end offset limit n ≡ pos (set_back (offset + limit) n)
slice_end_lem offset limit n o l small = ground arith

slice-window :
    (offset limit : ℕ) (all : List Auction)
    → offset < length all
    → slice offset (pos (set_back (offset + limit) (length all))) all
      ≡ some (take limit (drop offset all))
slice-window offset limit all within = elim (Bool-cases (ltb (length all) (offset + limit))) [
  | inl over ↦ rw over (
      ground (
        arith,
        over,
        take-all (length all - offset) (drop offset all) (omega (arith, length-drop offset all)),
        take-all limit (drop offset all) (ground (arith, length-drop offset all, over)),
      ))
  | inr inside ↦ rw inside (ground (arith, inside))
]

page-window :
    (offset limit : ℕ) (all : List Auction)
    → offset < 2 ^ 63
    → limit < 2 ^ 63
    → length all < 2 ^ 63
    → page offset limit all ≡ some (take limit (drop offset all))
unfolding page
page-window offset limit all o l small = elim (Bool-cases (leb (length all) offset)) [
  | inl past ↦
      rw (past, drop-all offset all (omega (tests, past))) (ap some (sym (take-empty limit)))
  | inr within ↦
      rw (within, slice_end_lem offset limit (length all) o l small)
        (slice-window offset limit all (ground (arith, within)))
]

-- The limit that a caller asks for, where it is positive, and else 100.
abbrev pub asked_limit : ℤ → ℕ
asked_limit (pos zero) = 100
asked_limit (pos (suc n)) = suc n
asked_limit (negsuc _) = 100

-- The offset that a caller asks for, where it is not negative, and else 0.
abbrev pub asked_offset : ℤ → ℕ
asked_offset (pos n) = n
asked_offset (negsuc _) = 0

limit_lem : (limit : ℤ) → limit_of limit ≡ asked_limit limit
limit_lem (pos zero) = refl
limit_lem (pos (suc n)) = refl
limit_lem (negsuc _) = refl

offset_lem : (offset : ℤ) → offset_of offset ≡ asked_offset offset
offset_lem (pos n) = refl
offset_lem (negsuc _) = refl

abbrev pub shown : Auction → AuctionView
shown a = record {
  id = a.id;
  item_id = a.item_id;
  owner_guild_id = a.owner_guild_id;
  status = a.status;
  start_time = a.start_time;
  end_time = a.end_time;
  base_price = a.base_price;
}

-- For int64s, and with fewer than 2 ^ 63 ACTIVE auctions, ListActiveAuctions does not panic and
-- answers with the window of limit many from the offset on, the limit being 100 where it is not
-- positive and the offset 0 where it is negative, also where their sum wraps around; it changes
-- nothing.
pub list_active_auctions-window :
    (limit offset : ℤ) (t : ℕ) (d : Db)
    → asked_limit limit < 2 ^ 63
    → asked_offset offset < 2 ^ 63
    → length (select (λ a. auction_active a.status) d.auctions) < 2 ^ 63
    → list_active_auctions limit offset t d ≡ (
      ok (
          map shown (
            take
              (asked_limit limit)
              (drop (asked_offset offset) (select (λ a. auction_active a.status) d.auctions)))),
      d,
    )
unfolding list_active_auctions Auctions.list_active
list_active_auctions-window limit offset t d l o small =
    rw
      (
        limit_lem limit,
        offset_lem offset,
        page-window (asked_offset offset) (asked_limit limit)
            (select (λ a. auction_active a.status) d.auctions) o l small,
      )
      refl
