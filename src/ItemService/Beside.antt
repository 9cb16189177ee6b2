-- ===== src/ItemService/Beside.antt =====
-- CreateItem writes to the tables that the invariant leaves aside, however it ends.
use mathlib.Core.Path.{subst}
use dragon_market.Base.{ℕ, ◌≡◌, refl, sym, ap, arith}
use dragon_market.Repository.Rows.{ItemRarity}
use dragon_market.Repository.Db.{Db, Connection, rollback}
use dragon_market.Repository.Items
use dragon_market.Repository.Inventories
use dragon_market.Repository.Listings
use dragon_market.ItemService.{
  Prices, CreateItemInput, create_item, create_item_body, create_listing,
}
use dragon_market.GoldPouch.Effects.{total_gold}
use dragon_market.Atomic.{Later, Ends, weaken_Ends, run_tx-keeps}
use dragon_market.Atomic.Reads.{Undone, run_tx-Undone}
use dragon_market.ItemService.Admission.{create_item-rule}
use dragon_market.Invariant.{IsSound, rollback-IsSound}
use dragon_market.Invariant.Side.{beside, beside-IsSound}

-- The database differs in those tables only.
abbrev pub Beside : Db → Db → Type 0
Beside d x =
    x
    ≡ beside x.items x.inventories x.listings x.transaction_logs x.next.items x.next.inventories
        x.next.listings x.next.transaction_logs d

body-Beside :
    (prices : Prices) (input : CreateItemInput) (rarity : ItemRarity) (price quantity g t : ℕ)
    (d : Db)
    → Ends (λ _. Beside d) d (create_item_body prices input rarity price quantity g t d)
unfolding create_item_body create_listing Items.create Inventories.create Inventories.insert
    Listings.create
body-Beside prices input rarity price quantity g t d = ground arith

module _ (c : Connection) (prices : Prices) (input : CreateItemInput) (begin : ℕ) (d : Db) where
  Beside-Later : (x : Db) → Beside d x → Later d x
  Beside-Later x b = subst (Later d) (sym b) (omega arith, omega arith)

  -- What holds before the call, whatever those tables hold, holds after it.
  create_item-keeps :
      (P : Db → Type 0)
      → P d
      → ((x : Db) → Later d x → P (rollback d x))
      → ((x : Db) → Beside d x → P x)
      → P (create_item c prices input begin d).1
  create_item-keeps P p restored step =
      create_item-rule c prices input begin d (λ r. P r.1) (λ e. p)
        λ rarity price quantity g _.
          run_tx-keeps P d p restored c begin
            (create_item_body prices input rarity price quantity g)
            (weaken_Ends (λ _. Beside d) d (λ _ x. P x × Later d x) _
              (body-Beside prices input rarity price quantity g begin d)
              (λ _ x b. (step x b, Beside-Later x b)))

  pub create_item-IsSound : IsSound d → IsSound (create_item c prices input begin d).1
  create_item-IsSound s =
      create_item-keeps IsSound s (rollback-IsSound d s)
        λ x b. subst IsSound (sym b) (beside-IsSound _ _ _ _ _ _ _ _ d s)

  pub create_item-gold : total_gold (create_item c prices input begin d).1 ≡ total_gold d
  create_item-gold =
      create_item-keeps (λ x. total_gold x ≡ total_gold d) refl (λ _ _. refl) λ x b. ap total_gold b

  pub create_item-Undone : Undone d (create_item c prices input begin d)
  create_item-Undone =
      create_item-rule c prices input begin d (Undone d) (λ e. refl)
        λ rarity price quantity g _.
          run_tx-Undone c begin (create_item_body prices input rarity price quantity g) d
