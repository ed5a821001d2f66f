-- ===== src/Core/Safeguards.antt =====
-- keryxflow/core/safeguards.py: the checks before live trading, less their messages. Of the settings,
-- the fields that they read.
pub mod Verdict
mod Tests
use keryx_talos.Base.{
  ◌==◌, ◌&&◌, length, keep, not, ◌||◌, str_eq, if◌then◌else◌, ltb, ◌∷◌, [], none, true, false, ℕ,
  Bool, String, List,
}
use keryx_talos.Number.{Number, nought, larger}
use keryx_talos.Aegis.Guardrails.{member}

pub data Severity : Type 0 where
  error warning : Severity

pub record SafeguardCheck : Type 0 where
  pub name : String
  pub passed : Bool
  pub severity : Severity

pub record SafeguardResult : Type 0 where
  pub all_passed : Bool
  pub checks : List SafeguardCheck

pub record Settings (N : Type 0) : Type 0 where
  pub has_binance_credentials : Bool
  pub risk_per_trade : N
  pub max_daily_drawdown : N
  pub stop_loss_type : String
  pub env : String

pub record LiveTradingSafeguards (N : Type 0) : Type 0 where
  pub settings : Settings N
  pub min_paper_trades : ℕ
  pub min_balance_usdt : N

abbrev pub is_severe : SafeguardCheck → Bool
is_severe c = elim c.severity [ error ↦ true | warning ↦ false ]

abbrev pub failed_checks : List SafeguardCheck → List SafeguardCheck
failed_checks checks = keep (λ c. not c.passed) checks

abbrev pub warnings : List SafeguardCheck → List SafeguardCheck
warnings checks = keep (λ c. not c.passed && not (is_severe c)) checks

abbrev pub errors : List SafeguardCheck → List SafeguardCheck
errors checks = keep (λ c. not c.passed && is_severe c) checks

-- A check that fails with a severity, or passes with the default one.
abbrev pub check : String → Severity → Bool → SafeguardCheck
check name severity fails =
    if fails
    then record { name = name; passed = false; severity = severity }
    else record { name = name; passed = true; severity = Severity.error }

abbrev pub check_circuit_breaker : Bool → SafeguardCheck
check_circuit_breaker circuit_breaker_active =
    check "Circuit Breaker" Severity.error circuit_breaker_active

module _ {N : Type 0} ⦃num : Number N⦄ where
  open num use {lit, lt}

  abbrev pub new : Settings N → LiveTradingSafeguards N
  new settings = record { settings = settings; min_paper_trades = 30; min_balance_usdt = lit 100 0 }

  abbrev pub check_api_credentials : LiveTradingSafeguards N → SafeguardCheck
  check_api_credentials s =
      check "API Credentials" Severity.error (not s.settings.has_binance_credentials)

  abbrev pub check_balance_minimum : N → LiveTradingSafeguards N → SafeguardCheck
  check_balance_minimum current_balance s =
      check "Minimum Balance" Severity.error (lt current_balance s.min_balance_usdt)

  abbrev pub check_paper_trading_history : ℕ → LiveTradingSafeguards N → SafeguardCheck
  check_paper_trading_history paper_trade_count s =
      check "Paper Trading History" Severity.warning (ltb paper_trade_count s.min_paper_trades)

  -- `if issues`
  abbrev pub has_issues : Settings N → Bool
  has_issues settings =
      lt (lit 2 2) settings.risk_per_trade
      || lt (lit 10 2) settings.max_daily_drawdown
      || not (member settings.stop_loss_type ("atr" ∷ "fixed" ∷ "percentage" ∷ []))

  abbrev pub check_risk_settings : LiveTradingSafeguards N → SafeguardCheck
  check_risk_settings s = check "Risk Settings" Severity.warning (has_issues s.settings)

  abbrev pub check_environment : LiveTradingSafeguards N → SafeguardCheck
  check_environment s = check "Environment" Severity.warning (str_eq s.settings.env "development")

  unfoldable pub verify_ready_for_live : N → ℕ → Bool → LiveTradingSafeguards N → SafeguardResult
  verify_ready_for_live current_balance paper_trade_count circuit_breaker_active s =
      let checks =
        check_api_credentials s
        ∷ check_balance_minimum current_balance s
        ∷ check_paper_trading_history paper_trade_count s
        ∷ check_risk_settings s
        ∷ check_circuit_breaker circuit_breaker_active
        ∷ check_environment s
        ∷ [] in
      record { all_passed = length (errors checks) == 0; checks = checks }

  -- A negative count becomes 0 in the code; a natural number is none.
  abbrev pub set_min_paper_trades : ℕ → LiveTradingSafeguards N → LiveTradingSafeguards N
  set_min_paper_trades count s = record s { min_paper_trades = count }

  abbrev pub set_min_balance : N → LiveTradingSafeguards N → LiveTradingSafeguards N
  set_min_balance amount s = record s { min_balance_usdt = larger nought amount }
