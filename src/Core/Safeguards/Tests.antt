-- ===== src/Core/Safeguards/Tests.antt =====
-- Settings of a development machine.
use keryx_talos.Base.{true}
use keryx_talos.Base.Int.{ℤ}
use keryx_talos.Number.{fixed}
use keryx_talos.Core.Safeguards.{LiveTradingSafeguards, new}

abbrev safeguards : LiveTradingSafeguards ℤ
safeguards = new record {
  has_binance_credentials = true;
  risk_per_trade = fixed.lit 5 2;
  max_daily_drawdown = fixed.lit 5 2;
  stop_loss_type = "atr";
  env = "development";
}
