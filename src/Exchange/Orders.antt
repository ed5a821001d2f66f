-- ===== src/Exchange/Orders.antt =====
-- keryxflow/exchange/orders.py: `OrderManager` in paper mode, where its executor is the paper engine.
-- The id of an order, random or made of the time, is an argument; events and the log are left out.
mod State
pub mod Pending
mod Tests
pub use State.*
use keryx_talos.Base.{
  ◌||◌, ℕ, refl, inr, false, sell, str_eq, eq_refl, ◌/◌, microseconds_per_second, ◌<◌, Bool, keep,
  none, max, ◌++◌, is_some, All-append, inl, same_date, buy, ◌∷◌, String, arith, lt→ltb, Side,
  le→leb, Bool-cases, sym, List, leb, length-append, subst, leb→le, date_of, zero, ◌↔◌,
  microseconds_per_minute, ap, eq_iff, Option, length, ◌≤◌, ◌^◌, ◌&&◌, some, true, map, ◌%◌,
  if◌then◌else◌, Option-cases, ◌*◌, ◌≢◌, ltb, ◌+◌, All, microseconds_per_day, ◌⊎◌, ◌==◌, ◌∙◌, ◌≡◌,
  [], All-keep, get_elem?, if_keeps, not, suc, ◌-◌,
}
use keryx_talos.Base.Dict.{Dict, lookup, insert, erase}
use keryx_talos.Base.Result.{Result, Exception, ok, raised}
use keryx_talos.Number.{Number, nought}
use keryx_talos.Exchange.Paper.{
  PaperTradingEngine, OrderResult, execute_market_order, update_price, get_price,
}

module _ {N : Type 0} ⦃num : Number N⦄ where
  open num use {le}

  -- `executor` keeps the paper engine that it returns.
  abbrev pub executor : OrderManager N → OrderManager N
  executor m = record m { has_engine = true }

  abbrev pub with_engine : PaperTradingEngine N → OrderManager N → OrderManager N
  with_engine e m = record m { engine = e; has_engine = true }

  -- `update_price`, which does nothing before the first use of the executor.
  pub update_engine_price : String → N → OrderManager N → OrderManager N
  update_engine_price symbol price m =
      if m.has_engine then with_engine (update_price symbol price m.engine) m else m

  abbrev pub market_order : String → String → String → N → OrderResult N → Order N
  market_order id symbol side amount result = record {
    id = id;
    symbol = symbol;
    order_type = OrderType.market;
    side = side;
    amount = amount;
    price = some result.price;
    status = OrderStatus.filled;
    filled = result.filled;
    remaining = result.remaining;
    cost = result.cost;
    average_price = result.price;
  }

  unfoldable pub place_market_order :
      String → String → String → N → OrderManager N → OrderManager N × Result (Order N)
  place_market_order id symbol side amount m =
      let (e, result) = execute_market_order symbol side amount none m.engine in
      elim result [
        | raised x ↦ (with_engine e m, raised x)
        | ok r ↦ (with_engine e m, ok (market_order id symbol side amount r))
      ]

  -- Whether a price fills a limit order.
  abbrev pub reaches : String → N → N → Bool
  reaches side current bound =
      str_eq side "buy" && le current bound || str_eq side "sell" && le bound current

  abbrev pub limit_order : String → String → String → N → N → Order N
  limit_order id symbol side amount price = record {
    id = id;
    symbol = symbol;
    order_type = OrderType.limit;
    side = side;
    amount = amount;
    price = some price;
    status = OrderStatus.opened;
    filled = nought;
    remaining = amount;
    cost = nought;
    average_price = nought;
  }

  unfoldable pub place_limit_order :
      String → String → String → N → N → OrderManager N → OrderManager N × Result (Order N)
  place_limit_order id symbol side amount price m = elim (get_price symbol m.engine) [
    | none ↦ (executor m, raised Exception.value_error)
    | some current ↦
        if reaches side current price then place_market_order id symbol side amount m else (
          record (executor m) {
            pending_orders = insert id (limit_order id symbol side amount price) m.pending_orders;
          },
          ok (limit_order id symbol side amount price),
        )
  ]

  unfoldable pub cancel_order : String → OrderManager N → OrderManager N × Bool
  cancel_order id m =
      if is_some (lookup id m.pending_orders)
      then (record m { pending_orders = erase id m.pending_orders }, true)
      else (m, false)

  -- `order.price or 0`
  abbrev pub price_or_nought : Option N → N
  price_or_nought none = nought
  price_or_nought (some x) = x

  abbrev pub should_fill : Order N → OrderManager N → Bool
  should_fill order m = elim (get_price order.symbol m.engine) [
    | none ↦ false
    | some current ↦ reaches order.side current (price_or_nought order.price)
  ]

  abbrev pub filled_order : Order N → OrderResult N → Order N
  filled_order order result = record order {
    status = OrderStatus.filled;
    filled = order.amount;
    remaining = nought;
    average_price = result.price;
  }

  -- One order of the loop of `check_pending_orders`; an exception is only logged.
  unfoldable pub check_order : String → Order N → OrderManager N → OrderManager N × Option (Order N)
  check_order id order m =
      let (e, result) =
        execute_market_order order.symbol order.side order.amount order.price m.engine in
      if not (should_fill order m) then (executor m, none) else elim result [
        | raised x ↦ (with_engine e m, none)
        | ok r ↦ (
          record (with_engine e m) { pending_orders = erase id m.pending_orders },
          some (filled_order order r),
        )
      ]

  abbrev add_filled : Option (Order N) → List (Order N) → List (Order N)
  add_filled none orders = orders
  add_filled (some order) orders = order ∷ orders

  unfoldable pub check_each : Dict (Order N) → OrderManager N → OrderManager N × List (Order N)
  check_each [] m = (m, [])
  check_each (entry ∷ rest) m =
      let (m₁, order) = check_order entry.0 entry.1 m in
      let (m₂, orders) = check_each rest m₁ in (m₂, add_filled order orders)

  unfoldable pub check_pending_orders : OrderManager N → OrderManager N × List (Order N)
  check_pending_orders m = check_each m.pending_orders m
