-- ===== src/Tests/Prices.antt =====
-- A round of the price updater over a cache that is a function, and a wallet.
use dragon_market.Base.{
  ℕ, ◌+◌, ℤ, pos, ◌≡◌, ◌≢◌, refl, Bool, true, false, ◌&&◌, [], ◌∷◌, Option, none, some, ◌==◌,
  if◌then◌else◌, arith,
}
use dragon_market.Repository.Tables.{find_row, select, update_rows}
use mathlib.Core.Option
use dragon_market.Strconv.{Text}
use dragon_market.Repository.Rows.{Item, ItemRarity}
use dragon_market.Repository.Db.{Error, err}
use dragon_market.Repository.Items
use dragon_market.Repository.Guilds
use dragon_market.Repository.GoldPouches
use dragon_market.Repository.Auctions.{item_row}
use dragon_market.GoldPouch.{reserve}
use dragon_market.Wallet.{wallet_view, get_wallet}
use dragon_market.Wallet.Forecast.{get_wallet-reserve}
use dragon_market.Oracle.{GoCache, cache_get, refresh_item, refresh_all, update_prices}
use dragon_market.Oracle.Mock.{get_price, ticker_oracle}
use dragon_market.Oracle.Priced.{AllPriced, update_prices-AllPriced}
use dragon_market.Repository.Items.{rarity_eq}
use dragon_market.Tests.Market.{opened, opened-IsSound, a_pouch}

abbrev pub same_text : Text → Text → Bool
same_text [] [] = true
same_text [] (_ ∷ _) = false
same_text (_ ∷ _) [] = false
same_text (a ∷ s) (b ∷ t) = (a == b) && same_text s t

pub same_text_refl : (s : Text) → same_text s s ≡ true
same_text_refl [] = refl
same_text_refl (a ∷ s) = ground (arith, same_text_refl s)

pub same_text→eq : (s t : Text) → same_text s t ≡ true → s ≡ t
same_text→eq [] [] h = refl
same_text→eq [] (b ∷ t) h = cc
same_text→eq (a ∷ s) [] h = cc
same_text→eq (a ∷ s) (b ∷ t) h = ground (arith, same_text→eq s t)

abbrev pub put_text : (Text → Option ℕ) → Text → ℕ → Text → Option ℕ
put_text c k v j = if same_text j k then some v else c j

pub put_text_same : (c : Text → Option ℕ) (k : Text) (v : ℕ) → put_text c k v k ≡ some v
put_text_same c k v = ground (arith, same_text_refl k)

pub put_text_other : (c : Text → Option ℕ) (j k : Text) (v : ℕ) → j ≢ k → put_text c k v j ≡ c j
put_text_other c j k v apart = ground (arith, same_text→eq j k)

abbrev pub a_cache : GoCache
a_cache = record {
  State = Text → Option ℕ;
  get = λ c k. c k;
  set = put_text;
  get-set = put_text_same;
  get-set_other = put_text_other;
}

abbrev quotes : ℕ → Option ℤ
quotes _ = some (pos 130)

pub none_cached : {A : Type 0} (id p : ℕ) → cache_get a_cache (λ _. none) id ≡ some p → A
unfolding cache_get
none_cached id p e = absurd (ground (arith, e))

new_price :
    Option.map {A = Item}
      (λ i. i.price)
      (item_row 5 (update_prices a_cache quotes 10 ((λ _. none), opened)).1)
    ≡ some 130
unfolding update_prices refresh_all refresh_item Items.list_by_rarity Items.update_price find_row
    select update_rows
new_price = refl

-- A hold of 1001 is above the usable balance of 1000.
get_wallet-reserve_example :
    (reserve 2 (pos 1001) none 30 10 opened).0 ≡ err Error.insufficient_balance
unfolding get_wallet Guilds.get_by_id GoldPouches.get_by_guild_id find_row
get_wallet-reserve_example =
    get_wallet-reserve 2 1001 30 10 none opened opened (wallet_view 30 (a_pouch 2)) opened-IsSound
      (omega arith) refl

update_prices-AllPriced_example :
    AllPriced a_cache 7000 9000
      (update_prices a_cache
        (λ id. get_price ticker_oracle false (1234 + id) id)
        10
        ((λ _. none), opened))
      (select (λ i. rarity_eq i.rarity ItemRarity.legendary) opened.items)
update_prices-AllPriced_example =
    update_prices-AllPriced a_cache (λ id. 1234 + id) 10 ((λ _. none), opened)
