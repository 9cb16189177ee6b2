-- ===== src/Wallet.antt =====
-- WalletService, internal/service/wallet_service.go.
pub mod Forecast
use dragon_market.Base.{ℕ, ◌-◌, Bool, if◌then◌else◌}
use dragon_market.Clock.{utc_midnight, same_utc_date}
use dragon_market.Repository.Rows.{GoldPouch, usable_balance}
use dragon_market.Repository.Db.{Tx, Error, ◌>>=◌, ◌>>◌, pure, on_not_found}
use dragon_market.Repository.Guilds
use dragon_market.Repository.GoldPouches

pub record WalletView : Type 0 where
  pub guild_id : ℕ
  pub total_balance : ℕ
  pub reserved_balance : ℕ
  pub usable : ℕ
  pub daily_spending_limit : ℕ
  pub spent_today : ℕ

abbrev pub wallet_view : ℕ → GoldPouch → WalletView
wallet_view now gp = record {
  guild_id = gp.guild_id;
  total_balance = gp.total_balance;
  reserved_balance = gp.reserved_balance;
  usable = usable_balance gp;
  daily_spending_limit = gp.daily_spending_limit;
  spent_today = if same_utc_date gp.last_reset_date (utc_midnight now) then gp.spent_today else 0;
}

unfoldable pub get_wallet : ℕ → ℕ → Tx WalletView
get_wallet guild_id now = do
  _guild ← on_not_found Error.guild_not_found (Guilds.get_by_id guild_id)
  gp ← GoldPouches.get_by_guild_id guild_id
  pure (wallet_view now gp)
