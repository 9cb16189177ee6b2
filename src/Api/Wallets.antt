-- ===== src/Api/Wallets.antt =====
-- The handler of wallets, internal/api/wallet_handlers.go.
use dragon_market.Wallet.{WalletView}
use dragon_market.Api.{Body, Handler, WalletService, WalletResponse, id_of}
use dragon_market.Api.Errors.{respond}
use dragon_market.Api.Middleware.{with_param}

abbrev pub new_wallet_response : WalletView → WalletResponse
new_wallet_response v = record {
  total_balance = v.total_balance;
  reserved_balance = v.reserved_balance;
  usable = v.usable;
  daily_spending_limit = v.daily_spending_limit;
  spent_today = v.spent_today;
}

unfoldable pub get : WalletService → Handler
get svc c = with_param "INVALID_GUILD_ID" c.request.id λ guild_id d.
    respond (λ view. record { status = 200; body = Body.wallet (new_wallet_response view) })
      (svc.get_wallet (id_of guild_id) d)
