-- ===== src/Exchange/Paper/State.antt =====
-- keryxflow/core/models.py and keryxflow/exchange/paper.py: the rows that the paper engine keeps in
-- the database and its own state. Balances are keyed by their unique currency and positions by their
-- unique symbol; the trades stand newest first. Time stamps and fields that the engine never sets are
-- left out.
use keryx_talos.Base.{Bool, Option, List, String, Side, ℕ}
use keryx_talos.Base.Dict.{Dict}

pub data TradeStatus : Type 0 where
  pending opened closed cancelled : TradeStatus

pub record PaperBalance (N : Type 0) : Type 0 where
  pub total : N
  pub free : N
  pub used : N

pub record Trade (N : Type 0) : Type 0 where
  pub id : ℕ
  pub symbol : String
  pub side : Side
  pub quantity : N
  pub entry_price : N
  pub exit_price : Option N
  pub pnl : Option N
  pub pnl_percentage : Option N
  pub status : TradeStatus
  pub is_paper : Bool

pub record Position (N : Type 0) : Type 0 where
  pub side : Side
  pub quantity : N
  pub entry_price : N
  pub current_price : N
  pub unrealized_pnl : N
  pub unrealized_pnl_percentage : N
  pub stop_loss : Option N
  pub take_profit : Option N
  pub trade_id : ℕ

pub record Database (N : Type 0) : Type 0 where
  pub balances : Dict (PaperBalance N)
  pub trades : List (Trade N)
  pub positions : Dict (Position N)

-- With `settings.system.base_currency` and the database.
pub record PaperTradingEngine (N : Type 0) : Type 0 where
  pub base_currency : String
  pub initial_balance : N
  pub slippage_pct : N
  pub prices : Dict N
  pub initialized : Bool
  pub database : Database N

-- The dict that `execute_market_order` returns, less its random id and its time.
pub record OrderResult (N : Type 0) : Type 0 where
  pub symbol : String
  pub side : String
  pub amount : N
  pub price : N
  pub cost : N
  pub filled : N
  pub remaining : N

-- The dict that `close_position` returns.
pub record CloseResult (N : Type 0) : Type 0 where
  pub symbol : String
  pub side : Side
  pub quantity : N
  pub entry_price : N
  pub exit_price : N
  pub pnl : N
  pub pnl_percentage : N

-- The calls that change the engine.
pub data Op (N : Type 0) : Type 0 where
  update_price : String → N → Op N
  execute_market_order : String → String → N → Option N → Op N
  open_position : String → String → N → N → Option N → Option N → Op N
  close_position : String → Option N → Op N
  update_position_prices : Op N
  close_all_positions : Op N
