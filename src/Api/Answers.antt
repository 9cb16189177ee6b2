-- ===== src/Api/Answers.antt =====
-- What holds of every refusal by the API itself, and of the answer to every result of a service,
-- holds of the answer to every request: the handlers and the middleware know the services through
-- their interfaces only.
use Prim.Native.String.{String}
use dragon_market.Base.{ℕ, ℤ, some, ◌≤◌, ◌<◌, inl, inr, Bool-cases, pos, Option-cases, arith}
use dragon_market.Strconv.{Text}
use dragon_market.Repository.Db.{Db, Result}
use dragon_market.ItemService.{CreateItemInput, PurchaseInput}
use dragon_market.Auction.{PlaceBidInput, CancelBidInput}
use dragon_market.Auction.Opening.{CreateAuctionInput}
use dragon_market.Api.{Response, Handler, Context, ItemService, AuctionService, WalletService}
use dragon_market.Api.Errors.{write_error, respond}
use dragon_market.Api.Middleware.{
  is_empty, parse_param, with_param, guild_header, require_guild_id, validate_item_id_param,
  validate_bid_id_param,
}
use dragon_market.Api.Items
use dragon_market.Api.Items.{bind_create_item, bind_purchase}
use dragon_market.Api.Auctions
use dragon_market.Api.Auctions.{bind_create_auction, bind_place_bid}
use dragon_market.Api.Wallets

module _ (d : Db) (R : (A : Type 0) → Result A × Db → Type 0) where
  -- R holds of every call of a service.
  pub record ItemLaws (svc : ItemService) : Type 0 where
    pub create_item : (input : CreateItemInput) → R _ (svc.create_item input d)
    pub get_item : (id : ℕ) → R _ (svc.get_item id d)
    pub list_items : (limit offset : ℤ) → R _ (svc.list_items limit offset d)
    pub purchase_item : (input : PurchaseInput) → R _ (svc.purchase_item input d)

  pub record AuctionLaws (svc : AuctionService) : Type 0 where
    pub create_auction : (input : CreateAuctionInput) → R _ (svc.create_auction input d)
    pub get_auction : (id : ℕ) → R _ (svc.get_auction id d)
    pub list_active_auctions : (limit offset : ℤ) → R _ (svc.list_active_auctions limit offset d)
    pub place_bid : (input : PlaceBidInput) → R _ (svc.place_bid input d)
    pub cancel_bid : (input : CancelBidInput) → R _ (svc.cancel_bid input d)

  pub record WalletLaws (svc : WalletService) : Type 0 where
    pub get_wallet : (id : ℕ) → R _ (svc.get_wallet id d)

-- An answer to a call that succeeds.
abbrev pub IsSuccess {ℓ} : {A : Type ℓ} → (A → Response) → Type ℓ
IsSuccess {A = A} answer = (a : A) → (answer a).status < 400

module _ (d : Db) (R : (A : Type 0) → Result A × Db → Type 0) (Q : Response × Db → Type 0)
    (refused : (status : ℕ) (code : String) → 400 ≤ status → Q (write_error status code, d))
    (answered : (A : Type 0) (answer : A → Response) (r : Result A × Db)
      → IsSuccess answer
      → R A r
      → Q (respond answer r)) where
  with_param-rule :
      (code : String) (raw : Text) (next : ℤ → Db → Response × Db)
      → ((id : ℤ) → Q (next id d))
      → Q (with_param code raw next d)
  unfolding with_param
  with_param-rule code raw next k = elim (Option-cases (parse_param raw)) [
    | inl e ↦ rw (e, with_param) (refused 400 code (omega arith))
    | inr (id, e) ↦ rw (e, with_param) (k id)
  ]

  pub validate_item_id_param-rule :
      (next : Handler) (c : Context) → Q (next c d) → Q (validate_item_id_param next c d)
  unfolding validate_item_id_param
  validate_item_id_param-rule next c k =
      with_param-rule "INVALID_ITEM_ID" c.request.id (λ _. next c) (λ _. k)

  pub validate_bid_id_param-rule :
      (next : Handler) (c : Context) → Q (next c d) → Q (validate_bid_id_param next c d)
  unfolding validate_bid_id_param
  validate_bid_id_param-rule next c k =
      with_param-rule "INVALID_BID_ID" c.request.bid_id (λ _. next c) (λ _. k)

  pub require_guild_id-rule :
      (next : Handler) (c : Context)
      → ((c' : Context) → Q (next c' d))
      → Q (require_guild_id next c d)
  unfolding require_guild_id
  require_guild_id-rule next c k = elim (Bool-cases (is_empty c.request.guild_header)) [
    | inl e ↦ rw e (refused 400 "MISSING_GUILD_HEADER" (omega arith))
    | inr e ↦ elim (Option-cases (guild_header c.request.guild_header)) [
      | inl f ↦ rw (e, f) (refused 400 "INVALID_GUILD_HEADER" (omega arith))
      | inr (id, f) ↦ rw (e, f) (k (record c { guild = some (pos id) }))
    ]
  ]

  module _ (svc : ItemService) (laws : ItemLaws d R svc) where
    pub items-create-rule : (c : Context) → Q (Items.create svc c d)
    unfolding Items.create
    items-create-rule c = elim (Option-cases (bind_create_item c.request.create_item)) [
      | inl e ↦ rw (e, Items.create) (refused 400 "VALIDATION_ERROR" (omega arith))
      | inr (req, e) ↦
          rw (e, Items.create)
            (answered _ _ _ (λ r. omega arith) (laws.create_item (Items.create_item_input req)))
    ]

    pub items-list-rule : (c : Context) → Q (Items.list svc c d)
    unfolding Items.list
    items-list-rule c = answered _ _ _ (λ r. omega arith) (laws.list_items _ _)

    pub items-get-rule : (c : Context) → Q (Items.get svc c d)
    unfolding Items.get
    items-get-rule c =
        with_param-rule "INVALID_ITEM_ID" c.request.id _
          λ id. answered _ _ _ (λ r. omega arith) (laws.get_item _)

    pub items-purchase-rule : (c : Context) → Q (Items.purchase svc c d)
    unfolding Items.purchase
    items-purchase-rule c = with_param-rule "INVALID_ITEM_ID" c.request.id _ λ id.
        elim (Option-cases (bind_purchase c.request.purchase)) [
          | inl e ↦ rw e (refused 400 "VALIDATION_ERROR" (omega arith))
          | inr (req, e) ↦ rw e (answered _ _ _ (λ r. omega arith) (laws.purchase_item _))
        ]

  module _ (svc : AuctionService) (laws : AuctionLaws d R svc) where
    pub auctions-create-rule : (c : Context) → Q (Auctions.create svc c d)
    unfolding Auctions.create
    auctions-create-rule c = elim (Option-cases (bind_create_auction c.request.create_auction)) [
      | inl e ↦ rw (e, Auctions.create) (refused 400 "VALIDATION_ERROR" (omega arith))
      | inr (req, e) ↦
          rw (e, Auctions.create) (answered _ _ _ (λ r. omega arith) (laws.create_auction _))
    ]

    pub auctions-list-rule : (c : Context) → Q (Auctions.list svc c d)
    unfolding Auctions.list
    auctions-list-rule c = answered _ _ _ (λ r. omega arith) (laws.list_active_auctions _ _)

    pub auctions-get-rule : (c : Context) → Q (Auctions.get svc c d)
    unfolding Auctions.get
    auctions-get-rule c =
        with_param-rule "INVALID_AUCTION_ID" c.request.id _
          λ id. answered _ _ _ (λ r. omega arith) (laws.get_auction _)

    pub auctions-place_bid-rule : (c : Context) → Q (Auctions.place_bid svc c d)
    unfolding Auctions.place_bid
    auctions-place_bid-rule c = with_param-rule "INVALID_ITEM_ID" c.request.id _ λ id.
        elim (Option-cases (bind_place_bid c.request.place_bid)) [
          | inl e ↦ rw e (refused 400 "VALIDATION_ERROR" (omega arith))
          | inr (req, e) ↦ rw e (answered _ _ _ (λ r. omega arith) (laws.place_bid _))
        ]

    pub auctions-cancel_bid-rule : (c : Context) → Q (Auctions.cancel_bid svc c d)
    unfolding Auctions.cancel_bid
    auctions-cancel_bid-rule c = with_param-rule "INVALID_ITEM_ID" c.request.id _ λ id.
        with_param-rule "INVALID_BID_ID" c.request.bid_id _
          λ bid_id. answered _ _ _ (λ r. omega arith) (laws.cancel_bid _)

  module _ (svc : WalletService) (laws : WalletLaws d R svc) where
    pub wallets-get-rule : (c : Context) → Q (Wallets.get svc c d)
    unfolding Wallets.get
    wallets-get-rule c =
        with_param-rule "INVALID_GUILD_ID" c.request.id _
          λ id. answered _ _ _ (λ r. omega arith) (laws.get_wallet _)
