-- ===== src/Aegis/Quant.antt =====
-- keryxflow/aegis/quant.py: position sizes, stops, risk and reward. The explanations in words are
-- left out.
use keryx_talos.Base.{str_eq, if◌then◌else◌, Bool, ◌||◌, String}
use keryx_talos.Base.Result.{
  Result, ok, value_error, zero_division_error, ◌>>=◌, ◌>>◌, raise_if, or_raise,
}
use keryx_talos.Number.{Number, nought, of_ℕ, divide, larger, smaller}

pub record PositionSizeResult (N : Type 0) : Type 0 where
  pub quantity : N
  pub risk_amount : N
  pub stop_distance : N
  pub position_value : N
  pub risk_percentage : N

pub record RiskRewardResult (N : Type 0) : Type 0 where
  pub ratio : N
  pub potential_profit : N
  pub potential_loss : N
  pub breakeven_winrate : N
  pub is_favorable : Bool

module _ {N : Type 0} ⦃num : Number N⦄ where
  open num use {lit, add, sub, mul, quot, abs, le, eqb}

  -- `risk_per_trade` is the argument, or the default of the engine.
  unfoldable pub position_size : N → N → N → N → Result (PositionSizeResult N)
  position_size balance entry_price stop_loss risk_per_trade = do
    let stop_distance = abs (sub entry_price stop_loss)
    raise_if (eqb stop_distance nought) value_error
    let risk_amount = mul balance risk_per_trade
    let quantity = quot risk_amount stop_distance
    ok (record {
      quantity = quantity;
      risk_amount = risk_amount;
      stop_distance = stop_distance;
      position_value = mul quantity entry_price;
      risk_percentage = risk_per_trade;
    })

  unfoldable pub fixed_percentage_stop : N → String → N → N
  fixed_percentage_stop entry_price side percentage =
      if str_eq side "buy"
      then mul entry_price (sub (of_ℕ 1) percentage)
      else mul entry_price (add (of_ℕ 1) percentage)

  unfoldable pub risk_reward_ratio : N → N → N → N → Result (RiskRewardResult N)
  risk_reward_ratio entry_price stop_loss take_profit quantity = do
    let potential_loss = mul (abs (sub entry_price stop_loss)) quantity
    let potential_profit = mul (abs (sub take_profit entry_price)) quantity
    raise_if (eqb potential_loss nought) value_error
    let ratio = quot potential_profit potential_loss
    breakeven_winrate ← or_raise (divide (of_ℕ 1) (add (of_ℕ 1) ratio)) zero_division_error
    ok (record {
      ratio = ratio;
      potential_profit = potential_profit;
      potential_loss = potential_loss;
      breakeven_winrate = breakeven_winrate;
      is_favorable = le (of_ℕ 1) ratio;
    })

  pub kelly_criterion : N → N → N → N → Result N
  kelly_criterion win_rate avg_win avg_loss fraction = do
    raise_if (le win_rate nought || le (of_ℕ 1) win_rate) value_error
    raise_if (le avg_loss nought) value_error
    let r = quot avg_win avg_loss
    kelly ← or_raise (divide (sub (mul win_rate r) (sub (of_ℕ 1) win_rate)) r) zero_division_error
    ok (larger nought (smaller (mul kelly fraction) (lit 25 2)))

  pub calculate_expectancy : N → N → N → N
  calculate_expectancy win_rate avg_win avg_loss =
      sub (mul win_rate avg_win) (mul (sub (of_ℕ 1) win_rate) avg_loss)
