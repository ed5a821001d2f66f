-- ===== src/Strategies/Grid/Tests.antt =====
-- A grid of two cells, and its cycle.
use keryx_talos.Base.{◌≡◌, ◌∷◌, [], some, refl, true, false}
use keryx_talos.Base.Int.{ℤ, pos}
use keryx_talos.Base.Result.{ok}
use keryx_talos.Number.{fixed}
use keryx_talos.Strategies.Grid.{GridStrategy, GridType, on_order_filled, order_at}
use keryx_talos.Strategies.Grid.Cycles.{IsOpen, after_cycle, buy-sell}

abbrev power : ℤ → ℤ → ℤ
power x y = x

abbrev round8 : ℤ → ℤ
round8 x = x

-- From 100 to 120 with two cells of 500.
abbrev grid : GridStrategy ℤ
grid = record {
  symbol = "BTC/USDT";
  lower_price = fixed.lit 100 0;
  upper_price = fixed.lit 120 0;
  grid_count = 2;
  total_investment = fixed.lit 1000 0;
  grid_type = GridType.arithmetic;
  auto_stop_on_breakout = true;
  is_stopped = false;
  total_profit = pos 0;
  completed_cycles = 0;
  levels = fixed.lit 100 0 ∷ fixed.lit 110 0 ∷ fixed.lit 120 0 ∷ [];
  initialized = true;
  pending_buys = [];
  capital_per_cell = fixed.lit 500 0;
}

grid-IsOpen : IsOpen power round8 grid 0 (fixed.lit 100 0) (fixed.lit 110 0) (fixed.lit 5 0)
grid-IsOpen = record {
  running = refl;
  ready = refl;
  level = refl;
  next_level = refl;
  size = refl;
  free = refl;
}

buy-sell_example :
    (g₁ : GridStrategy ℤ) × (on_order_filled power round8 0 "buy" grid
      ≡ ok (g₁, some (order_at power round8 (fixed.lit 110 0) (fixed.lit 5 0) "sell" 1)))
    × (on_order_filled power round8 1 "sell" g₁
        ≡ ok (
          after_cycle power round8 grid (fixed.lit 100 0) (fixed.lit 110 0) (fixed.lit 5 0),
          some (order_at power round8 (fixed.lit 100 0) (fixed.lit 5 0) "buy" 0),
        ))
buy-sell_example =
    buy-sell power round8 grid 0 (fixed.lit 100 0) (fixed.lit 110 0) (fixed.lit 5 0) grid-IsOpen
