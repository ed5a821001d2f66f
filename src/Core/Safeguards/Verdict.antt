-- ===== src/Core/Safeguards/Verdict.antt =====
-- keryxflow/core/safeguards.py: when the safeguards pass.
use keryx_talos.Base.{◌≡◌, true, false, Bool}
use keryx_talos.Number.{Number}
use keryx_talos.Core.Safeguards.{LiveTradingSafeguards}

module _ {N : Type 0} ⦃num : Number N⦄ where
  open num use {lt}

  -- What must hold for the safeguards to pass.
  abbrev pub IsReady : N → Bool → LiveTradingSafeguards N → Type 0
  IsReady balance breaker s =
      (s.settings.has_binance_credentials ≡ true)
      × (lt balance s.min_balance_usdt ≡ false)
      × (breaker ≡ false)
