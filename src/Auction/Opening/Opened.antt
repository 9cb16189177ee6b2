-- ===== src/Auction/Opening/Opened.antt =====
-- CreateAuction: what a call that succeeds has established and added, and what the others leave.
use mathlib.Core.Path.{subst}
use dragon_market.Base.{
  ℕ, positive, ◌<◌, ◌≡◌, refl, sym, inl, inr, true, false, not, none, some, arith, Option-cases,
}
use dragon_market.Clock.{truncate_us, add_seconds}
use dragon_market.Repository.Rows.{Auction, AuctionStatus, Item, Inventory, is_legendary}
use dragon_market.Repository.Db.{
  Db, Tx, Error, ok, ◌>>=◌, ◌>>◌, pure, raise_if, on_not_found, Connection,
}
use dragon_market.Repository.Auctions
use dragon_market.Repository.Auctions.{item_row, active_for_item, is_active_for, is_rival}
use dragon_market.Repository.Items
use dragon_market.Repository.Inventories
use dragon_market.Repository.Inventories.{inventory_of}
use dragon_market.ItemService.{Prices, cached_price, on_conflict}
use dragon_market.Auction.Opening.{
  CreateAuctionInput, AuctionView, to_auction_view, create_auction_body, create_auction,
}
use dragon_market.Atomic.{Later, Ends, weaken_Ends, run_tx-keeps, run_tx-ok}
use dragon_market.Invariant.{IsSound, rollback-IsSound}
use dragon_market.Auction.Opening.Sound.{opened_db, opened_db-IsSound}
use dragon_market.Atomic.{query-Ends, raise_if-Ends}

module _ (prices : Prices) (input : CreateAuctionInput) (n now : ℕ) (item : Item) (d : Db) where
  abbrev pub new_auction : Auction
  new_auction = record {
    id = d.next.auctions;
    item_id = input.item_id;
    owner_guild_id = input.owner_guild_id;
    status = AuctionStatus.active;
    start_time = truncate_us now;
    end_time = add_seconds (truncate_us now) n;
    base_price = cached_price prices item;
    item_rarity = item.rarity;
  }

-- An auction that was opened: the tests that it passed, the answer and the new state.
pub record OpenedFor (prices : Prices) (input : CreateAuctionInput) (n now : ℕ) (d : Db)
    (item : Item) (inv : Inventory) (v : AuctionView) (d' : Db) : Type 0 where
  pub found : item_row input.item_id d ≡ some item
  pub owned : inventory_of input.owner_guild_id input.item_id d ≡ some inv
  pub legendary : is_legendary item.rarity ≡ true
  pub free : active_for_item input.item_id d ≡ none
  pub lasting : truncate_us now < add_seconds (truncate_us now) n
  pub view : v ≡ to_auction_view (new_auction prices input n now item d)
  pub state : d' ≡ opened_db (new_auction prices input n now item d) d

module _ (prices : Prices) (input : CreateAuctionInput) (n now t : ℕ) (d : Db) where
  abbrev pub Opened : AuctionView → Db → Type 0
  Opened v d' = (item : Item) × (inv : Inventory) × OpenedFor prices input n now d item inv v d'

  abbrev store : Item → Tx AuctionView
  store item = do
    auction ← on_conflict Error.auction_already_exists (
        Auctions.create input.item_id input.owner_guild_id none (truncate_us now)
          (add_seconds (truncate_us now) n) (cached_price prices item))
    pure (to_auction_view auction)

  abbrev after_inventory : Item → Inventory → Tx AuctionView
  after_inventory item inv =
      raise_if (not (is_legendary item.rarity)) Error.item_not_legendary >> store item

  abbrev after_item : Item → Tx AuctionView
  after_item item = do
    inv ←
        on_not_found Error.not_item_owner
          (Inventories.get_by_guild_and_item input.owner_guild_id input.item_id)
    after_inventory item inv

  module _ (item : Item) (inv : Inventory) (fi : item_row input.item_id d ≡ some item)
      (fv : inventory_of input.owner_guild_id input.item_id d ≡ some inv) where
    opened_lem :
        is_legendary item.rarity ≡ true
        → active_for_item input.item_id d ≡ none
        → truncate_us now < add_seconds (truncate_us now) n
        → Opened
            (to_auction_view (new_auction prices input n now item d))
            (opened_db (new_auction prices input n now item d) d)
    opened_lem legendary free lasting = (
      item,
      inv,
      record {
        found = fi;
        owned = fv;
        legendary = legendary;
        free = free;
        lasting = lasting;
        view = refl;
        state = refl;
      },
    )

    store-Ends : not (is_legendary item.rarity) ≡ false → Ends Opened d (store item t d)
    unfolding Auctions.create
    store-Ends plain = ground (arith, opened_lem, fi)

  pub create_auction_body-Ends : Ends Opened d (create_auction_body prices input n now t d)
  unfolding create_auction_body Items.get_by_id Inventories.get_by_guild_and_item
  create_auction_body-Ends =
      query-Ends Opened d (item_row input.item_id d) Error.item_not_found after_item t d
        (omega arith, omega arith)
        λ item fi.
          query-Ends Opened d (inventory_of input.owner_guild_id input.item_id d)
            Error.not_item_owner (after_inventory item) t d (omega arith, omega arith)
            λ inv fv.
              raise_if-Ends Opened d (not (is_legendary item.rarity)) Error.item_not_legendary
                (store item) t d (omega arith, omega arith)
                (λ plain. store-Ends item inv fi fv plain)

  Opened-IsSound : (v : AuctionView) (d' : Db) → IsSound d → Opened v d' → IsSound d' × Later d d'
  Opened-IsSound v d' s (item, inv, o) =
      subst (λ x. IsSound x × Later d x) (sym o.state)
        (
          opened_db-IsSound (new_auction prices input n now item d) d s refl o.lasting refl o.free,
          (omega arith, omega arith),
        )

-- CreateAuction keeps a sound database sound, however it ends.
pub create_auction-IsSound :
    (c : Connection) (prices : Prices) (input : CreateAuctionInput) (begin now : ℕ) (d : Db)
    → IsSound d
    → IsSound (create_auction c prices input begin now d).1
unfolding create_auction
create_auction-IsSound c prices input begin now d s =
    elim (Option-cases (positive input.duration_seconds)) [
      | inl e ↦ rw (e, create_auction) s
      | inr (n, e) ↦
          rw (e, create_auction)
            (run_tx-keeps IsSound d s (rollback-IsSound d s) c begin
              (create_auction_body prices input n now)
              (weaken_Ends (Opened prices input n now begin d) d (λ _ x. IsSound x × Later d x) _
                (create_auction_body-Ends prices input n now begin d)
                (λ v x o. Opened-IsSound prices input n now begin d v x s o)))
    ]

pub create_auction-Opened :
    (c : Connection) (prices : Prices) (input : CreateAuctionInput) (begin now : ℕ) (d : Db)
    (v : AuctionView) (d' : Db)
    → create_auction c prices input begin now d ≡ (ok v, d')
    → (n : ℕ) × (positive input.duration_seconds ≡ some n) × Opened prices input n now begin d v d'
unfolding create_auction
create_auction-Opened c prices input begin now d v d' h =
    elim (Option-cases (positive input.duration_seconds)) [
      | inl e ↦ absurd (ground (arith, (rw (e, create_auction) at h)))
      | inr (n, e) ↦ (
        n,
        e,
        subst (Ends (Opened prices input n now begin d) d)
            (run_tx-ok c begin (create_auction_body prices input n now) d v d'
              (rw (e, create_auction) at h))
            (create_auction_body-Ends prices input n now begin d),
      )
    ]
