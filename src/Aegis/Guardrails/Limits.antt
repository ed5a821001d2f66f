-- ===== src/Aegis/Guardrails/Limits.antt =====
-- keryxflow/aegis/guardrails.py: the limits that an order is measured against.
use keryx_talos.Aegis.Guardrails.{
  GuardrailCheckResult, decimal?, or_else, member, check_rates, total_risk_at_stop, total_exposure,
  allow, PortfolioState, check_loss, check_exposure, check_losses, TradingGuardrails, check_risk,
  validate_order,
}
use keryx_talos.Base.{Option, String, some, ◌≡◌, ◌⊎◌, ◌<◌, none, arith, ◌↔◌, false, true, List}
use keryx_talos.Base.Result.{ok}
use keryx_talos.Number.{Number, Conversion, nought}

module _ {D : Type 0} ⦃dec : Number D⦄ where
  open dec use {add, sub, mul, quot, abs, lt, le, eqb}

  -- A period lost nothing, or its loss can be computed and is under the limit.
  abbrev pub LossUnder : D → D → D → Type 0
  LossUnder pnl starting_value limit =
      (lt pnl nought ≡ false)
      ⊎ ((eqb starting_value nought ≡ false) × (le limit (quot (abs pnl) starting_value) ≡ false))

  -- The risk of the trade, and with it of all stops, is not over its limit.
  abbrev pub RiskUnder : TradingGuardrails D → PortfolioState D → D → D → Option D → Type 0
  RiskUnder g p quantity entry_price none = Unit
  RiskUnder g p quantity entry_price (some stop) =
      let trade_risk = mul (abs (sub entry_price stop)) quantity in
      (lt g.max_loss_per_trade_pct (quot trade_risk p.total_value) ≡ false)
      × (lt g.max_daily_loss_pct (quot (add (total_risk_at_stop p) trade_risk) p.total_value)
          ≡ false)

  -- The limits on rates and losses, which do not depend on the order.
  pub record MayTrade (g : TradingGuardrails D) (p : PortfolioState D) : Type 0 where
    pub daily : LossUnder p.daily_pnl p.daily_starting_value g.max_daily_loss_pct
    pub weekly : LossUnder p.weekly_pnl p.weekly_starting_value g.max_weekly_loss_pct
    pub losses : p.consecutive_losses < g.consecutive_losses_halt
    pub today : p.trades_today < g.max_trades_per_day
    pub this_hour : p.trades_this_hour < g.max_trades_per_hour

  -- The limits on the size of an order of `quantity` at `entry_price`.
  pub record Fits (g : TradingGuardrails D) (p : PortfolioState D) (quantity entry_price : D)
      : Type 0 where
    pub has_value : le p.total_value nought ≡ false
    pub size : lt g.max_position_size_pct (quot (mul quantity entry_price) p.total_value) ≡ false
    pub exposure :
        lt g.max_total_exposure_pct
          (quot (add (total_exposure p) (mul quantity entry_price)) p.total_value)
        ≡ false
    pub reserve :
        lt
          (quot (sub p.cash_available (mul quantity entry_price)) p.total_value)
          g.min_cash_reserve_pct
        ≡ false

  check_losses_iff :
      (g : TradingGuardrails D) (p : PortfolioState D)
      → (check_losses g p ≡ ok allow) ↔ MayTrade g p
  unfolding check_losses check_loss check_rates
  check_losses_iff g p = ground arith

  check_risk_iff :
      (g : TradingGuardrails D) (p : PortfolioState D) (quantity entry_price : D) (stop : Option D)
      → (check_risk g p quantity entry_price stop ≡ ok allow)
        ↔ (RiskUnder g p quantity entry_price stop × MayTrade g p)
  unfolding check_risk
  check_risk_iff g p quantity entry_price none = ground (arith, check_losses_iff g p)
  check_risk_iff g p quantity entry_price (some stop) = ground (arith, check_losses_iff g p)

  check_exposure_iff :
      (g : TradingGuardrails D) (p : PortfolioState D) (quantity entry_price : D) (stop : Option D)
      → (check_exposure g p quantity entry_price stop ≡ ok allow)
        ↔ (Fits g p quantity entry_price × RiskUnder g p quantity entry_price stop × MayTrade g p)
  unfolding check_exposure
  check_exposure_iff g p quantity entry_price stop =
      ground (arith, check_risk_iff g p quantity entry_price stop)

  check_losses_allowed :
      (g : TradingGuardrails D) (p : PortfolioState D) (r : GuardrailCheckResult)
      → check_losses g p ≡ ok r
      → r.allowed ≡ true
      → r ≡ allow
  unfolding check_losses check_loss check_rates
  check_losses_allowed g p r e a = ground arith

  check_exposure_allowed :
      (g : TradingGuardrails D) (p : PortfolioState D) (quantity entry_price : D) (stop : Option D)
      (r : GuardrailCheckResult)
      → check_exposure g p quantity entry_price stop ≡ ok r
      → r.allowed ≡ true
      → r ≡ allow
  unfolding check_exposure check_risk
  check_exposure_allowed g p quantity entry_price stop r e a =
      ground (arith, check_losses_allowed g p r)

  module _ {N : Type 0} ⦃conv : Conversion N D⦄ where
    -- An order is allowed exactly when its symbol and side are, its value fits the limits on
    -- position size, exposure and cash reserve, its risk to the stop (if it has one) fits the limits
    -- for a trade and for all stops, and the losses and the numbers of trades are under theirs.
    pub validate_order_iff :
        (g : TradingGuardrails D) (symbols : List String) (symbol side : String)
        (quantity entry_price : N) (stop_loss : Option N) (p : PortfolioState D)
        → (validate_order g symbols symbol side quantity entry_price stop_loss p ≡ ok allow) ↔ (
            (member symbol (or_else symbols g.allowed_symbols) ≡ true)
            × (member side g.allowed_sides ≡ true)
            × Fits g p (conv.decimal quantity) (conv.decimal entry_price)
            × RiskUnder g p (conv.decimal quantity) (conv.decimal entry_price) (decimal? stop_loss)
            × MayTrade g p)
    unfolding validate_order
    validate_order_iff g symbols symbol side quantity entry_price stop_loss p = ground (
      arith,
      check_exposure_iff g p (conv.decimal quantity) (conv.decimal entry_price)
          (decimal? stop_loss),
    )

    -- A result that allows the order has no violation.
    pub validate_order_allowed :
        (g : TradingGuardrails D) (symbols : List String) (symbol side : String)
        (quantity entry_price : N) (stop_loss : Option N) (p : PortfolioState D)
        (r : GuardrailCheckResult)
        → validate_order g symbols symbol side quantity entry_price stop_loss p ≡ ok r
        → r.allowed ≡ true
        → r ≡ allow
    unfolding validate_order
    validate_order_allowed g symbols symbol side quantity entry_price stop_loss p r e a = ground (
      arith,
      check_exposure_allowed g p (conv.decimal quantity) (conv.decimal entry_price)
          (decimal? stop_loss) r,
    )
