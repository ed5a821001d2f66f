-- ===== src/Agent/Execution/Tests.antt =====
-- The tools' theorems at an input.
use keryx_talos.Exchange.Paper.Movements.{free_of}
use keryx_talos.Base.{◌⊎◌, some, ◌≡◌, none, [], ◌∷◌, false, refl}
use keryx_talos.Base.Int.{ℤ}
use keryx_talos.Base.Result.{ok}
use keryx_talos.Number.{fixed, fixed_conversion}
use keryx_talos.Aegis.Guardrails.{
  validate_order, check_exposure, check_risk, check_losses, check_loss, check_rates,
}
use keryx_talos.Aegis.Risk.{check_daily_reset}
use keryx_talos.Aegis.Risk.Samples.{usd, m, order-Passes}
use keryx_talos.Exchange.Paper.{new, initialize, get_base_quote}
use keryx_talos.Agent.Execution.{Desk, PlaceOrder, place_order, connect}
use keryx_talos.Agent.Execution.Guarded.{place_order_guarded, Untouched, PassesAtSomePrice}
use keryx_talos.Agent.Execution.Twice.{place_order-Twice, TwiceOrFailed}

abbrev desk : Desk ℤ ℤ
desk = record {
  manager = m;
  orders = record {
    has_engine = false;
    engine =
        record (new "USDT" (usd 10000) (fixed.lit 1 2)
          (record { balances = []; trades = []; positions = [] })) {
            prices = ("BTC/USDT", usd 100) ∷ [];
          };
    pending_orders = [];
  };
}

abbrev bid : PlaceOrder ℤ
bid = record {
  symbol = "BTC/USDT";
  side = "buy";
  quantity = usd 10;
  order_type = "market";
  price = none;
  stop_loss = some (usd 95);
  take_profit = some (usd 110);
}

place_order_guarded_example :
    Untouched desk (place_order bid "a" (ok none) 5 desk) ⊎ PassesAtSomePrice bid 5 desk
place_order_guarded_example = place_order_guarded bid "a" (ok none) 5 desk

place_order-Twice_example :
    TwiceOrFailed bid
      ("BTC", "USDT")
      (usd 100)
      (connect desk)
      (place_order bid "a" (ok none) 5 desk)
unfolding check_daily_reset validate_order check_exposure check_risk check_losses check_loss
    check_rates initialize get_base_quote
place_order-Twice_example =
    place_order-Twice bid "a" (ok none) 5 desk ("BTC", "USDT") (usd 100) refl refl refl refl refl
      refl refl order-Passes

-- The order costs 1010, and 1020.1 again.
bid_twice :
    free_of "USDT" (place_order bid "a" (ok none) 5 desk).0.orders.engine.database.balances
    ≡ fixed.lit 79699 1
unfolding place_order initialize keryx_talos.Agent.Execution.validate_and_execute validate_order
    check_exposure check_risk check_losses check_loss check_rates
    keryx_talos.Agent.Execution.approve_and_execute keryx_talos.Aegis.Risk.approve_order
    check_daily_reset keryx_talos.Aegis.Risk.check_profile
    keryx_talos.Aegis.Guardrails.check_drawdown keryx_talos.Aegis.Risk.check_stop
    keryx_talos.Aegis.Quant.position_size keryx_talos.Aegis.Risk.check_reward
    keryx_talos.Aegis.Quant.risk_reward_ratio keryx_talos.Aegis.Portfolio.add_position
    keryx_talos.Aegis.Portfolio.risk_to_stop keryx_talos.Aegis.Portfolio.update_total_value
    keryx_talos.Aegis.Risk.check_balance keryx_talos.Aegis.Risk.add_position_to_portfolio
    keryx_talos.Agent.Execution.execute_order keryx_talos.Agent.Execution.record_fill
    keryx_talos.Exchange.Orders.place_market_order keryx_talos.Exchange.Paper.deduct
    keryx_talos.Exchange.Paper.exchange keryx_talos.Exchange.Paper.execute
    keryx_talos.Exchange.Paper.execute_market_order keryx_talos.Exchange.Paper.fill
    keryx_talos.Exchange.Paper.put get_base_quote keryx_talos.Exchange.Paper.new_position
    keryx_talos.Exchange.Paper.open_position keryx_talos.Exchange.Paper.store_position
bid_twice = refl
