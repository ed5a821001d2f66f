-- ===== src/Aegis/Profiles.antt =====
-- keryxflow/aegis/profiles.py: the risk profiles, less their texts.
use keryx_talos.Base.{ℕ, not, Bool}
use keryx_talos.Number.{Number}

pub data RiskProfile : Type 0 where
  conservative balanced aggressive : RiskProfile

pub data ExperienceLevel : Type 0 where
  beginner intermediate advanced : ExperienceLevel

pub record RiskProfileConfig (N : Type 0) : Type 0 where
  pub risk_per_trade : N
  pub max_daily_drawdown : N
  pub max_open_positions : ℕ
  pub min_risk_reward : N
  pub atr_multiplier : N

-- `EXPERIENCE_TO_PROFILE`, by `get_suggested_profile`
pub get_suggested_profile : ExperienceLevel → RiskProfile
get_suggested_profile beginner = conservative
get_suggested_profile intermediate = balanced
get_suggested_profile advanced = balanced

module _ {N : Type 0} ⦃num : Number N⦄ where
  open num use {lit, mul, lt}

  -- `RISK_PROFILES`, by `get_risk_profile`
  unfoldable pub get_risk_profile : RiskProfile → RiskProfileConfig N
  get_risk_profile conservative = record {
    risk_per_trade = lit 5 3;
    max_daily_drawdown = lit 2 2;
    max_open_positions = 2;
    min_risk_reward = lit 20 1;
    atr_multiplier = lit 25 1;
  }
  get_risk_profile balanced = record {
    risk_per_trade = lit 1 2;
    max_daily_drawdown = lit 5 2;
    max_open_positions = 3;
    min_risk_reward = lit 15 1;
    atr_multiplier = lit 20 1;
  }
  get_risk_profile aggressive = record {
    risk_per_trade = lit 2 2;
    max_daily_drawdown = lit 10 2;
    max_open_positions = 5;
    min_risk_reward = lit 10 1;
    atr_multiplier = lit 15 1;
  }

  -- The flag of `validate_profile_for_balance`.
  pub validate_profile_for_balance : RiskProfile → N → N → Bool
  unfolding get_risk_profile
  validate_profile_for_balance profile balance min_trade_size =
      not (lt (mul balance (get_risk_profile profile).risk_per_trade) min_trade_size)
