-- ===== src/Agent/Execution/State.antt =====
-- keryxflow/agent/execution_tools.py: the arguments of `place_order`, and the shared objects that the
-- tools work on.
use keryx_talos.Base.{String, Option}
use keryx_talos.Exchange.Orders.{OrderManager}
use keryx_talos.Aegis.Risk.{RiskManager}

-- The global risk manager and the global order manager with its paper engine.
pub record Desk (N D : Type 0) : Type 0 where
  pub manager : RiskManager N D
  pub orders : OrderManager N

pub record PlaceOrder (N : Type 0) : Type 0 where
  pub symbol : String
  pub side : String
  pub quantity : N
  pub order_type : String
  pub price : Option N
  pub stop_loss : Option N
  pub take_profit : Option N
