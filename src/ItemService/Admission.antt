-- ===== src/ItemService/Admission.antt =====
-- CreateItem from its request to its answer: the tests in front of the transaction, and the whole
-- method.
use mathlib.Core.Path.{subst}
use dragon_market.Base.{
  ℕ, zero, suc, ℤ, pos, negsuc, ◌<◌, ◌≡◌, refl, sym, Bool, true, false, Option, none, some, ◌==◌,
  if◌then◌else◌, arith,
}
use text.Mathlib.Text.{◌==◌ as str_eq}
use dragon_market.Repository.Tables.{find_row}
use dragon_market.Repository.Rows.{Guild, ItemRarity, is_legendary}
use dragon_market.Repository.Db.{
  Db, Tx, Error, Result, ok, err, ◌>>=◌, ◌>>◌, or_raise, raise_if, Connection, run_tx,
}
use dragon_market.Repository.Guilds
use dragon_market.Repository.Auctions.{item_row}
use dragon_market.ItemService.{
  Prices, CreateItemInput, CreateItemResult, create_item_body, create_item, resolve_guild_id,
  inv_quantity, positive_of, non_negative, default_guild_name,
}
use dragon_market.Atomic.{Later, Ends, weaken_Ends, run_tx-Ends}
use dragon_market.Atomic.Reads.{lookup-rule, or_raise-rule, raise_if-rule}
use dragon_market.ItemService.Creation.{created_db, created_result, create_item_body-Ends}

-- The guild that a request names, or the one with the default name.
abbrev pub is_owner : Option ℕ → Guild → Bool
is_owner none g = str_eq g.name default_guild_name
is_owner (some id) g = g.id == id

abbrev OwnedBy : Option ℕ → Db → ℕ → Type 0
OwnedBy o d g = (row : Guild) × (row.id ≡ g) × (find_row (is_owner o) d.guilds ≡ some row)

resolve-rule :
    (R : Result CreateItemResult × Db → Type 0) (t : ℕ) (d : Db)
    (refused : (e : Error) → R (err e, d)) (o : Option ℕ) (f : ℕ → Tx CreateItemResult)
    → ((g : ℕ) → OwnedBy o d g → R (f g t d))
    → R ((resolve_guild_id o >>= f) t d)
unfolding resolve_guild_id Guilds.get_by_id Guilds.get_by_name
resolve-rule R t d refused none f k =
    lookup-rule R t d refused (find_row (is_owner none) d.guilds) Error.guild_not_found (λ g. g.id)
      f (λ g e. k g.id (g, refl, e))
resolve-rule R t d refused (some id) f k =
    lookup-rule R t d refused (find_row (is_owner (some id)) d.guilds) Error.guild_not_found
      (λ g. g.id) f (λ g e. k g.id (g, refl, e))

quantity_lem : (o : Option ℤ) (n : ℕ) → positive_of o ≡ some n → (o ≡ some (pos n)) × (0 < n)
quantity_lem none n e = cc
quantity_lem (some (pos zero)) n e = cc
quantity_lem (some (pos (suc m))) n e = (ground arith, ground arith)
quantity_lem (some (negsuc m)) n e = cc

-- What CreateItem has established about its request before its transaction.
pub record Admitted (input : CreateItemInput) (d : Db) (rarity : ItemRarity)
    (price quantity guild_id : ℕ) : Type 0 where
  pub rarity_given : input.rarity ≡ some rarity
  pub price_given : input.price ≡ some (pos price)
  pub priced : is_legendary rarity ≡ false → 0 < price
  pub one_legendary : is_legendary rarity ≡ true → quantity ≡ 1
  pub quantity_given :
      is_legendary rarity ≡ false → (input.quantity ≡ some (pos quantity)) × (0 < quantity)
  pub owner : OwnedBy input.guild_id d guild_id

module _ (c : Connection) (prices : Prices) (input : CreateItemInput) (begin : ℕ) (d : Db) where
  abbrev pub Created : CreateItemResult → Db → Type 0
  Created r d' =
      (rarity : ItemRarity) × (price : ℕ) × (quantity : ℕ) × (guild_id : ℕ) × Admitted input d
        rarity price quantity guild_id
      × (r ≡ created_result prices input rarity price quantity guild_id d)
      × (d' ≡ created_db prices input rarity price quantity guild_id d)

  abbrev after_guild : ItemRarity → ℕ → ℕ → ℕ → Tx CreateItemResult
  after_guild rarity price quantity guild_id begin' x =
      run_tx c begin' (create_item_body prices input rarity price quantity guild_id) x

  abbrev after_quantity : ItemRarity → ℕ → ℕ → Tx CreateItemResult
  after_quantity rarity price quantity = do
    guild_id ← resolve_guild_id input.guild_id
    after_guild rarity price quantity guild_id

  abbrev after_price : ItemRarity → ℕ → Tx CreateItemResult
  after_price rarity price = do
    quantity ← or_raise (inv_quantity rarity input.quantity) Error.missing_quantity
    after_quantity rarity price quantity

  abbrev after_sign : ItemRarity → ℕ → Tx CreateItemResult
  after_sign rarity price =
      raise_if (if is_legendary rarity then false else price == 0) Error.missing_price
      >> after_price rarity price

  abbrev after_asked : ItemRarity → ℤ → Tx CreateItemResult
  after_asked rarity asked = do
    price ← or_raise (non_negative asked) Error.invalid_price
    after_sign rarity price

  abbrev after_rarity : ItemRarity → Tx CreateItemResult
  after_rarity rarity = do
    asked ← or_raise input.price Error.missing_price
    after_asked rarity asked

  Created-Later : (r : CreateItemResult) (x : Db) → Created r x → Later d x
  Created-Later r x (rarity, price, quantity, g, a, e, f) =
      subst (Later d) (sym f) (omega arith, omega arith)

  admitted_lem :
      (rarity : ItemRarity) (asked : ℤ) (price quantity g : ℕ)
      → input.rarity ≡ some rarity
      → input.price ≡ some asked
      → non_negative asked ≡ some price
      → (if is_legendary rarity then false else price == 0) ≡ false
      → inv_quantity rarity input.quantity ≡ some quantity
      → OwnedBy input.guild_id d g
      → Admitted input d rarity price quantity g
  admitted_lem rarity asked price quantity g er ea en ez eq o = record {
    rarity_given = er;
    price_given = given asked price ea en;
    priced = λ plain. ground (arith, ez);
    one_legendary = λ legendary. ground (arith, eq);
    quantity_given = λ plain. quantity_lem input.quantity quantity (rw plain at eq);
    owner = o;
  }
    where
      given :
          (v : ℤ) (n : ℕ)
          → input.price ≡ some v
          → non_negative v ≡ some n
          → input.price ≡ some (pos n)
      given (pos m) n e f = ground arith
      given (negsuc m) n e f = ground arith

  -- What holds of every refusal in the state that the call began with, and of the transaction of
  -- every request that is admitted, holds of the call.
  pub create_item-rule :
      (R : Result CreateItemResult × Db → Type 0)
      → ((e : Error) → R (err e, d))
      → ((rarity : ItemRarity) (price quantity g : ℕ)
          → Admitted input d rarity price quantity g
          → R (after_guild rarity price quantity g begin d))
      → R (create_item c prices input begin d)
  unfolding create_item
  create_item-rule R refused k =
      or_raise-rule R begin d refused input.rarity Error.invalid_rarity after_rarity λ rarity er.
        or_raise-rule R begin d refused input.price Error.missing_price (after_asked rarity)
          λ asked ea.
            or_raise-rule R begin d refused (non_negative asked) Error.invalid_price
              (after_sign rarity)
              λ price en.
                raise_if-rule R begin d refused (if is_legendary rarity then false else price == 0)
                  Error.missing_price (after_price rarity price)
                  λ ez.
                    or_raise-rule R begin d refused (inv_quantity rarity input.quantity)
                      Error.missing_quantity (after_quantity rarity price)
                      λ quantity eq.
                        resolve-rule R begin d refused input.guild_id
                          (after_guild rarity price quantity)
                          λ g o.
                            k rarity price quantity g
                              (admitted_lem rarity asked price quantity g er ea en ez eq o)

  module _ (free : item_row d.next.items d ≡ none) where
    after_guild-Created :
        (rarity : ItemRarity) (price quantity g : ℕ)
        → Admitted input d rarity price quantity g
        → Ends Created d (after_guild rarity price quantity g begin d)
    after_guild-Created rarity price quantity g a =
        run_tx-Ends Created c begin (create_item_body prices input rarity price quantity g) d
          Created-Later
          (weaken_Ends
            (λ r x.
              (r ≡ created_result prices input rarity price quantity g d)
              × (x ≡ created_db prices input rarity price quantity g d))
            d Created _ (create_item_body-Ends prices input rarity price quantity g d begin free)
            (λ r x k. (rarity, price, quantity, g, a, k.0, k.1)))

    create_item-Ends : Ends Created d (create_item c prices input begin d)
    create_item-Ends =
        create_item-rule (Ends Created d) (λ e. (omega arith, omega arith)) after_guild-Created

    -- A CreateItem that succeeds, where the sequence of item ids is past the ids in use: the request
    -- named a rarity, a price of zero or more, above zero unless the item is LEGENDARY, and, unless it
    -- is LEGENDARY, a positive quantity; the named guild, or the default one, is there. It has added
    -- the item, the guild's inventory of it, 1 of a LEGENDARY one, and, unless it is LEGENDARY, an
    -- ACTIVE listing of the whole quantity at that price, and changed nothing else.
    pub create_item-Created :
        (r : CreateItemResult) (d' : Db)
        → create_item c prices input begin d ≡ (ok r, d')
        → Created r d'
    create_item-Created r d' e = subst (Ends Created d) e create_item-Ends
