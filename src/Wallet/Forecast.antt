-- ===== src/Wallet/Forecast.antt =====
-- What GetWallet shows against what Reserve answers.
use dragon_market.Base.{
  ℕ, pos, ◌<◌, ◌≡◌, ◌≢◌, inl, inr, ◌+◌, Option, none, some, ltb, if◌then◌else◌, arith, Option-cases,
}
use dragon_market.Repository.Rows.{GoldPouch, Reference}
use dragon_market.Repository.Db.{Db, Result, Error, ok, err, is_some→eq}
use dragon_market.Repository.Guilds
use dragon_market.Repository.GoldPouches
use dragon_market.Repository.GoldPouches.{pouch_of}
use dragon_market.Repository.TransactionLogs.{guild_row}
use dragon_market.GoldPouch.{reserve}
use dragon_market.GoldPouch.Outcomes.{reserve_lem}
use dragon_market.Wallet.{WalletView, wallet_view, get_wallet}
use dragon_market.Invariant.{IsSound}

-- The answer that a wallet promises for a hold of n.
abbrev pub forecast : WalletView → ℕ → Result (Unit {0})
forecast v n =
    if ltb v.usable n
    then err Error.insufficient_balance
    else if ltb v.daily_spending_limit (v.spent_today + n)
    then err Error.daily_limit_exceeded
    else ok tt

shown-pouch :
    (g now t : ℕ) (d d' : Db) (v : WalletView) (gp : GoldPouch)
    → pouch_of g d ≡ some gp
    → get_wallet g now t d ≡ (ok v, d')
    → v ≡ wallet_view now gp
unfolding get_wallet Guilds.get_by_id GoldPouches.get_by_guild_id
shown-pouch g now t d d' v gp fp e = ground (arith, e, Option-cases (guild_row g d))

shown-some :
    (g now t : ℕ) (d d' : Db) (v : WalletView)
    → get_wallet g now t d ≡ (ok v, d')
    → pouch_of g d ≢ none
unfolding get_wallet Guilds.get_by_id GoldPouches.get_by_guild_id
shown-some g now t d d' v e fp = ground (arith, e, Option-cases (guild_row g d))

reserve-answer :
    (g n now t : ℕ) (reference : Option Reference) (d : Db) (gp : GoldPouch)
    → IsSound d
    → 0 < n
    → pouch_of g d ≡ some gp
    → (reserve g (pos n) reference now t d).0 ≡ forecast (wallet_view now gp) n
reserve-answer g n now t reference d gp s z fp =
    let (row, fg) = is_some→eq (s.members g gp fp) in
    rw (reserve_lem g gp n reference t d now fp (s.pouches g gp fp) fg) (ground (arith, z))

-- In a sound database, at the same time of day, Reserve answers as the wallet that GetWallet showed
-- lets one expect: a positive amount is refused for the balance exactly where it is above the usable
-- one, then for the limit exactly where it and the shown spending are above that; else it is held.
pub get_wallet-reserve :
    (g n now t : ℕ) (reference : Option Reference) (d d' : Db) (v : WalletView)
    → IsSound d
    → 0 < n
    → get_wallet g now t d ≡ (ok v, d')
    → (reserve g (pos n) reference now t d).0 ≡ forecast v n
get_wallet-reserve g n now t reference d d' v s z e = elim (Option-cases (pouch_of g d)) [
  | inl f ↦ absurd (shown-some g now t d d' v e f)
  | inr (gp, fp) ↦
      rw (shown-pouch g now t d d' v gp fp e) (reserve-answer g n now t reference d gp s z fp)
]
