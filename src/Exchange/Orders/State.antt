-- ===== src/Exchange/Orders/State.antt =====
-- keryxflow/exchange/orders.py: orders and the state of `OrderManager`, with the paper engine that it
-- executes on. Time stamps, the stop price, which nothing sets, and `is_paper` are left out.
use keryx_talos.Base.{Bool, Option, String}
use keryx_talos.Base.Dict.{Dict}
use keryx_talos.Exchange.Paper.{PaperTradingEngine}

pub data OrderType : Type 0 where
  market limit stop_loss take_profit : OrderType

pub data OrderStatus : Type 0 where
  pending opened filled partially_filled cancelled rejected : OrderStatus

pub record Order (N : Type 0) : Type 0 where
  pub id : String
  pub symbol : String
  pub order_type : OrderType
  pub side : String
  pub amount : N
  pub price : Option N
  pub status : OrderStatus
  pub filled : N
  pub remaining : N
  pub cost : N
  pub average_price : N

-- `has_engine` tells whether `_paper_engine` is set; the engine is the global one.
pub record OrderManager (N : Type 0) : Type 0 where
  pub has_engine : Bool
  pub engine : PaperTradingEngine N
  pub pending_orders : Dict (Order N)
