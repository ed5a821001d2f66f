-- ===== src/Agent/Execution/Parts.antt =====
-- keryxflow/agent/execution_tools.py: what the tools do on prices, orders and the order manager alone.
use keryx_talos.Base.{
  false, Option, some, buy, String, sell, if◌then◌else◌, none, true, Side, str_eq, Bool,
}
use keryx_talos.Base.Result.{Result, ok}
use keryx_talos.Number.{Number, is_nonzero}
use keryx_talos.Aegis.Risk.{OrderRequest}
use keryx_talos.Exchange.Paper.{PaperTradingEngine, Position, get_price}
use keryx_talos.Exchange.Orders.{
  OrderManager, Order, OrderStatus, place_market_order, place_limit_order,
}
use keryx_talos.Agent.Execution.State.{PlaceOrder}

abbrev pub is_filled : OrderStatus → Bool
is_filled OrderStatus.filled = true
is_filled _ = false

module _ {N : Type 0} ⦃num : Number N⦄ where
  open num use {le}

  -- `x or y`
  abbrev pub or_number : N → N → N
  or_number x y = if is_nonzero x then x else y

  abbrev pub order_request : PlaceOrder N → N → OrderRequest N
  order_request a price = record {
    symbol = a.symbol;
    side = a.side;
    quantity = a.quantity;
    entry_price = price;
    stop_loss = a.stop_loss;
    take_profit = a.take_profit;
  }

  abbrev pub send_order :
      PlaceOrder N → String → N → OrderManager N → OrderManager N × Result (Order N)
  send_order a id price m =
      if str_eq a.order_type "market"
      then place_market_order id a.symbol a.side a.quantity m
      else place_limit_order id a.symbol a.side a.quantity price m

  -- The price of the order, else of the engine, else of the exchange.
  abbrev pub find_price : Option N → Result (Option N) → Result (Option N)
  find_price none ticker = ticker
  find_price (some price) ticker = ok (some price)

  -- `engine.get_price(symbol) or position.current_price`
  abbrev pub current_price : String → Position N → PaperTradingEngine N → N
  current_price symbol p e = elim (get_price symbol e) [
    | none ↦ p.current_price
    | some price ↦ or_number price p.current_price
  ]

  -- A stop of a long position has to be below its entry price, of a short position above.
  abbrev pub wrong_stop : Side → N → N → Bool
  wrong_stop buy entry stop = le entry stop
  wrong_stop sell entry stop = le stop entry
