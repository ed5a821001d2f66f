-- ===== src/Exchange/Orders/Tests.antt =====
-- A run of the order manager, and its theorems at an input.
use keryx_talos.Base.Dict.{Values}
use keryx_talos.Base.{refl, [], ◌≡◌, ◌∷◌, map, true}
use keryx_talos.Base.Int.{ℤ}
use keryx_talos.Number.{fixed, fixed-HasSigns}
use keryx_talos.Exchange.Paper.{
  new, get_base_quote, execute_market_order, execute, initialize, fill, exchange, deduct, put,
}
use keryx_talos.Exchange.Paper.Validity.{IsValid}
use keryx_talos.Exchange.Orders.{
  limit_order, OrderManager, check_order, check_each, check_pending_orders, place_limit_order,
}
use keryx_talos.Exchange.Orders.Pending.{
  Checked, IsNonNegOrder, check_order-Checked, check_pending_orders-IsValid,
}

-- A price of 100, and a bid for two at 95.
abbrev manager : OrderManager ℤ
manager = record {
  has_engine = true;
  engine =
      record (new "USDT" (fixed.lit 1000 0) (fixed.lit 1 2)
        (record { balances = []; trades = []; positions = [] })) {
          prices = ("BTC/USDT", fixed.lit 100 0) ∷ [];
        };
  pending_orders = [];
}

abbrev waiting : OrderManager ℤ
waiting = record manager {
  pending_orders = ("a", limit_order "a" "BTC/USDT" "buy" (fixed.lit 2 0) (fixed.lit 95 0)) ∷ [];
}

it_waits :
    (place_limit_order "a" "BTC/USDT" "buy" (fixed.lit 2 0) (fixed.lit 95 0) manager).0 ≡ waiting
unfolding place_limit_order
it_waits = refl

-- At a price of 90.
abbrev fallen : OrderManager ℤ
fallen = record waiting {
  engine = record (waiting.engine) { prices = ("BTC/USDT", fixed.lit 90 0) ∷ [] };
}

it_fills :
    ((check_pending_orders fallen).0.pending_orders ≡ [])
    × (map (λ o. o.average_price) (check_pending_orders fallen).1 ≡ fixed.lit 9595 2 ∷ [])
unfolding check_pending_orders check_each check_order execute_market_order execute initialize fill
    exchange deduct put get_base_quote
it_fills = (refl, refl)

check_order-Checked_example :
    let order = limit_order "a" "BTC/USDT" "buy" (fixed.lit 2 0) (fixed.lit 95 0) in
    Checked "a" order
      (fixed.lit 95 0)
      ("BTC", "USDT")
      fallen
      (check_order "a" order fallen).0
      (check_order "a" order fallen).1
unfolding get_base_quote
check_order-Checked_example =
    check_order-Checked "a" (limit_order "a" "BTC/USDT" "buy" (fixed.lit 2 0) (fixed.lit 95 0))
      (fixed.lit 95 0) fallen ("BTC", "USDT") refl refl

check_pending_orders-IsValid_example :
    IsValid (check_pending_orders fallen).0.engine
    × Values IsNonNegOrder (check_pending_orders fallen).0.pending_orders
check_pending_orders-IsValid_example =
    check_pending_orders-IsValid fixed-HasSigns fallen ((refl, refl), tt)
      (record {
        sound = record { funds = tt; quantities = tt };
        prices_ok = (refl, tt);
        initial_ok = refl;
        up_ok = refl;
        down_ok = refl;
      })
