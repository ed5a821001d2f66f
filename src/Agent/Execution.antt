-- ===== src/Agent/Execution.antt =====
-- keryxflow/agent/execution_tools.py: the `execute` methods of the guarded tools, in paper mode. A
-- tool returns `none` for an unsuccessful `ToolResult`, which is what it makes of an exception too;
-- what it changed before stays changed. The price that `fetch_ticker` of the exchange client returns
-- and the id of the order are arguments. Texts, the log and the time in a result are left out.
mod State
mod Parts
pub mod Guarded
pub mod Twice
mod Tests
pub use State.*
pub use Parts.*
use keryx_talos.Base.{
  ◌/◌, Side, length, same_date, ◌≤◌, some, none, ◌+◌, leb→le, Option-cases, ◌⊎◌, lt→ltb, String,
  not, All, keep, refl, ltb, Option, ◌-◌, ◌∷◌, ◌++◌, date_of, subst, inr, zero, ◌≡◌, ap, ◌<◌, true,
  false, ◌≢◌, ◌&&◌, ◌||◌, sell, max, sym, buy, Bool-cases, eq_iff, arith, All-keep, str_eq, ◌↔◌,
  if◌then◌else◌, is_some, leb, inl, microseconds_per_second, ◌==◌, All-append, eq_refl,
  microseconds_per_day, le→leb, length-append, map, [], get_elem?, ◌∙◌, ◌*◌, ◌^◌,
  microseconds_per_minute, Bool, suc, List, ℕ, if_keeps, ◌%◌,
}
use keryx_talos.Base.Dict.{lookup, insert}
use keryx_talos.Base.Result.{is_ok, Result, ok, raised}
use keryx_talos.Number.{Number, Conversion, is_nonzero}
use keryx_talos.Aegis.Guardrails.{validate_order, GuardrailCheckResult}
use keryx_talos.Aegis.Risk.{
  RiskManager, OrderRequest, ApprovalResult, approve_order, add_position_to_portfolio,
  close_position_in_portfolio,
}
use keryx_talos.Exchange.Paper.{
  PaperTradingEngine, Position, CloseResult, initialize, open_position, close_position, get_price,
}
use keryx_talos.Exchange.Paper.Book.{close_all_positions}
use keryx_talos.Exchange.Orders.{
  OrderManager, Order, OrderStatus, place_market_order, place_limit_order, cancel_order,
}

module _ {N : Type 0} {D : Type 0} ⦃num : Number N⦄ ⦃dec : Number D⦄ ⦃conv : Conversion N D⦄ where
  abbrev pub engine_of : Desk N D → PaperTradingEngine N
  engine_of d = d.orders.engine

  abbrev pub with_engine : PaperTradingEngine N → Desk N D → Desk N D
  with_engine e d = record d { orders = record (d.orders) { engine = e } }

  abbrev pub with_manager : RiskManager N D → Desk N D → Desk N D
  with_manager m d = record d { manager = m }

  -- `order_manager.initialize()`, or `initialize()` of the engine
  abbrev pub connect : Desk N D → Desk N D
  connect d = with_engine (initialize (engine_of d)) d

  -- The block on an order that the paper engine has filled.
  unfoldable pub record_fill : PlaceOrder N → N → Order N → Desk N D → Desk N D × Option (Order N)
  record_fill a price order d =
      let entry = or_number order.average_price price in
      let (e, position) =
        open_position a.symbol a.side a.quantity entry a.stop_loss a.take_profit (engine_of d) in
      let d₁ = with_engine e d in
      elim position [
        | raised x ↦ (d₁, none)
        | ok _ ↦ (
          with_manager
              (add_position_to_portfolio a.symbol a.side a.quantity entry a.stop_loss a.take_profit
                d₁.manager)
              d₁,
          some order,
        )
      ]

  -- What follows on the order that the order manager returns.
  abbrev pub after_send :
      PlaceOrder N → N → Desk N D → OrderManager N × Result (Order N) → Desk N D × Option (Order N)
  after_send a price d (orders, raised x) = (record d { orders = orders }, none)
  after_send a price d (orders, ok order) =
      if is_filled order.status
      then record_fill a price order (record d { orders = orders })
      else (record d { orders = orders }, some order)

  -- The execution of an order that was approved.
  unfoldable pub execute_order : PlaceOrder N → String → N → Desk N D → Desk N D × Option (Order N)
  execute_order a id price d =
      after_send a price (connect d) (send_order a id price (connect d).orders)

  -- The approval of the risk manager.
  unfoldable pub approve_and_execute :
      PlaceOrder N → String → N → ℕ → Desk N D → Desk N D × Option (Order N)
  approve_and_execute a id price now d =
      let (m, result) = approve_order (order_request a price) none now d.manager in
      let d₁ = with_manager m d in
      elim result [
        | raised x ↦ (d₁, none)
        | ok approval ↦ if approval.approved then execute_order a id price d₁ else (d₁, none)
      ]

  abbrev pub guardrails_on : PlaceOrder N → N → Desk N D → Result GuardrailCheckResult
  guardrails_on a price d =
      validate_order d.manager.guardrails d.manager.symbols a.symbol a.side a.quantity price
        a.stop_loss d.manager.portfolio_state

  -- The validation with the guardrails, of a price that is known.
  unfoldable pub validate_and_execute :
      PlaceOrder N → String → N → ℕ → Desk N D → Desk N D × Option (Order N)
  validate_and_execute a id price now d = elim (guardrails_on a price d) [
    | raised x ↦ (d, none)
    | ok r ↦ if r.allowed then approve_and_execute a id price now d else (d, none)
  ]

  unfoldable pub place_order :
      PlaceOrder N → String → Result (Option N) → ℕ → Desk N D → Desk N D × Option (Order N)
  place_order a id ticker now d = elim a.price [
    | some price ↦ validate_and_execute a id price now d
    | none ↦
        if str_eq a.order_type "limit"
        then (d, none)
        else elim (find_price (get_price a.symbol (engine_of (connect d))) ticker) [
          | raised x ↦ (connect d, none)
          | ok none ↦ (connect d, none)
          | ok (some price) ↦ validate_and_execute a id price now (connect d)
        ]
  ]

  -- `ClosePositionTool`
  unfoldable pub close_position_tool : String → Desk N D → Desk N D × Option (CloseResult N)
  close_position_tool symbol d =
      let d₁ = connect d in
      elim (lookup symbol (engine_of d₁).database.positions) [
        | none ↦ (d₁, none)
        | some p ↦
            let price = current_price symbol p (engine_of d₁) in
            let (e, closed) = close_position symbol (some price) (engine_of d₁) in
            let d₂ = with_engine e d₁ in
            elim closed [
              | raised x ↦ (d₂, none)
              | ok none ↦ (d₂, none)
              | ok (some r) ↦
                  (with_manager (close_position_in_portfolio symbol price d₂.manager).0 d₂, some r)
            ]
      ]

  abbrev set_position : String → Position N → Desk N D → Desk N D
  set_position symbol p d =
      let e = engine_of d in
      with_engine
        (record e {
          database = record (e.database) { positions = insert symbol p e.database.positions };
        })
        d

  -- `SetStopLossTool`: the stop has to be on the losing side of the entry price.
  unfoldable pub set_stop_loss : String → N → Desk N D → Desk N D × Bool
  set_stop_loss symbol stop d =
      let d₁ = connect d in
      elim (lookup symbol (engine_of d₁).database.positions) [
        | none ↦ (d₁, false)
        | some p ↦
            if wrong_stop p.side p.entry_price stop
            then (d₁, false)
            else (set_position symbol (record p { stop_loss = some stop }) d₁, true)
      ]

  -- `SetTakeProfitTool`
  unfoldable pub set_take_profit : String → N → Desk N D → Desk N D × Bool
  set_take_profit symbol target d =
      let d₁ = connect d in
      elim (lookup symbol (engine_of d₁).database.positions) [
        | none ↦ (d₁, false)
        | some p ↦
            if wrong_stop p.side target p.entry_price
            then (d₁, false)
            else (set_position symbol (record p { take_profit = some target }) d₁, true)
      ]

  -- `CancelOrderTool`
  unfoldable pub cancel_order_tool : String → Desk N D → Desk N D × Bool
  cancel_order_tool id d =
      let d₁ = connect d in
      let (orders, success) = cancel_order id d₁.orders in (record d₁ { orders = orders }, success)

  -- `CloseAllPositionsTool`, which leaves the risk manager as it is.
  unfoldable pub close_all_tool : Bool → Desk N D → Desk N D × Bool
  close_all_tool false d = (d, false)
  close_all_tool true d =
      let d₁ = connect d in
      let (e, results) = close_all_positions (engine_of d₁) in
      elim (engine_of d₁).database.positions [
        | [] ↦ (d₁, true)
        | _ ∷ _ ↦ (with_engine e d₁, is_ok results)
      ]
