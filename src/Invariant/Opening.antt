-- ===== src/Invariant/Opening.antt =====
-- A guild's first pouch, from GoldPouchRepository.Create, keeps the invariant.
use mathlib.Core.Path.{subst}
use dragon_market.Base.{
  ℕ, ◌≤◌, ◌≡◌, refl, ◌+◌, true, none, some, List, [], ◌∷◌, ◌++◌, ◌==◌, if◌then◌else◌, arith,
}
use dragon_market.Repository.Tables.{find_row}
use dragon_market.Repository.Rows.{GoldPouch}
use dragon_market.Repository.Db.{Db, is_some, ok}
use dragon_market.Repository.GoldPouches
use dragon_market.Repository.GoldPouches.{pouch_of, columns_fit}
use dragon_market.Repository.TransactionLogs.{guild_row}
use dragon_market.Repository.Keys.{Distinct, has_key}
use dragon_market.GoldPouch.Outcomes.{IsPouch}
use dragon_market.GoldPouch.Effects.{guild_key}
use dragon_market.Atomic.{Ends}
use dragon_market.Invariant.{IsSound}

find_row-append_other :
    (k : ℕ) (xs : List GoldPouch) (y : GoldPouch)
    → find_row (has_key guild_key (guild_key y)) xs ≡ none
    → find_row (has_key guild_key k) (xs ++ y ∷ [])
      ≡ (if guild_key y == k then some y else find_row (has_key guild_key k) xs)
unfolding find_row
find_row-append_other k [] y e = refl
find_row-append_other k (x ∷ xs) y e = ground (arith, find_row-append_other k xs y)

append-Distinct_new :
    (xs : List GoldPouch) (y : GoldPouch)
    → Distinct guild_key xs
    → find_row (has_key guild_key (guild_key y)) xs ≡ none
    → Distinct guild_key (xs ++ y ∷ [])
unfolding find_row
append-Distinct_new [] y v e = (refl, tt)
append-Distinct_new (x ∷ xs) y v e = (
  ground (arith, find_row-append_other (guild_key x) xs y, v.0),
  append-Distinct_new xs y v.1 (ground (arith, e)),
)

module _ (gp : GoldPouch) (d : Db) (s : IsSound d) (empty : gp.reserved_balance ≡ 0) where
  abbrev stored : GoldPouch
  stored = record gp { id = d.next.gold_pouches }

  abbrev with_pouch : Db
  with_pouch = record d {
    gold_pouches = d.gold_pouches ++ stored ∷ [];
    next = record (d.next) { gold_pouches = d.next.gold_pouches + 1 };
  }

  module _ (free : pouch_of gp.guild_id d ≡ none) (v : IsPouch gp)
      (there : is_some (guild_row gp.guild_id d) ≡ true) where
    after-pouch_of :
        (h : ℕ) → pouch_of h with_pouch ≡ (if gp.guild_id == h then some stored else pouch_of h d)
    after-pouch_of h = find_row-append_other h d.gold_pouches stored free

    with_pouch-IsSound : IsSound with_pouch
    with_pouch-IsSound = record {
      pouches = λ h p e. ground (arith, after-pouch_of h, s.pouches h p, v);
      members = λ h p e. ground (arith, after-pouch_of h, s.members h p, there);
      pouches_distinct = append-Distinct_new d.gold_pouches stored s.pouches_distinct free;
      bids_distinct = s.bids_distinct;
      bids_below = s.bids_below;
      bids = s.bids;
      auctions_below = s.auctions_below;
      auctions_distinct = s.auctions_distinct;
      auctions = s.auctions;
      balanced = λ h. ground (arith, after-pouch_of h, s.balanced h, empty, free);
    }

  create-Ends : (t : ℕ) → Ends (λ _ x. IsSound x) d (GoldPouches.create gp t d)
  unfolding GoldPouches.create
  create-Ends t = ground (arith, with_pouch-IsSound, valid)
    where
      valid : columns_fit gp ≡ true → gp.reserved_balance ≤ gp.total_balance → IsPouch gp
      valid fit covered = ground arith

-- Create of a pouch that holds nothing in reserve keeps a sound database sound, wherever it
-- succeeds: a guild without a pouch has no ACTIVE bid.
pub create-IsSound :
    (gp out : GoldPouch) (t : ℕ) (d d' : Db)
    → IsSound d
    → gp.reserved_balance ≡ 0
    → GoldPouches.create gp t d ≡ (ok out, d')
    → IsSound d'
create-IsSound gp out t d d' s empty e =
    subst (Ends (λ _ x. IsSound x) d) e (create-Ends gp d s empty t)
