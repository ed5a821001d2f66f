-- ===== src/Strategies/Grid.antt =====
-- keryxflow/strategies/grid.py: `GridStrategy`. Python's `x ** y` and `round(x, 8)` on floats are the
-- parameters `power` and `round8`. A level index is not negative: the orders carry indices of levels.
-- What an exception leaves behind is not kept.
mod State
pub mod Cycles
mod Tests
pub use State.*
use keryx_talos.Base.{
  str_eq, not, leb, get_elem?, ◌||◌, ◌==◌, ◌&&◌, if◌then◌else◌, ◌+◌, Option, Bool, ◌∷◌, [], none,
  some, true, false, zero, suc, ℕ, List, String,
}
use keryx_talos.Base.Result.{Result, Exception, ok, raised, ◌>>=◌, ◌>>◌, raise_if, or_raise}
use keryx_talos.Number.{Number, nought, of_ℕ, divide}

-- `d[k] = v`, `d.get(k)` and `del d[k]` of a dict keyed by numbers.
module _ {ℓ} {V : Type ℓ} where
  abbrev pub find_at : ℕ → List (ℕ × V) → Option V
  find_at k [] = none
  find_at k ((j, v) ∷ d) = if j == k then some v else find_at k d

  abbrev pub put_at : ℕ → V → List (ℕ × V) → List (ℕ × V)
  put_at k v [] = (k, v) ∷ []
  put_at k v ((j, w) ∷ d) = if j == k then (j, v) ∷ d else (j, w) ∷ put_at k v d

  abbrev pub remove_at : ℕ → List (ℕ × V) → List (ℕ × V)
  remove_at k [] = []
  remove_at k ((j, v) ∷ d) = if j == k then d else (j, v) ∷ remove_at k d

module _ {N : Type 0} ⦃num : Number N⦄ (power : N → N → N) (round8 : N → N) where
  open num use {add, sub, mul, quot, lt, le}

  abbrev pub init : String → N → N → ℕ → N → GridType → Bool → Result (GridStrategy N)
  init symbol lower_price upper_price grid_count total_investment grid_type auto_stop =
      raise_if (le upper_price lower_price) Exception.value_error
      >> raise_if (leb grid_count 0) Exception.value_error
      >> raise_if (le total_investment nought) Exception.value_error
      >> ok record {
        symbol = symbol;
        lower_price = lower_price;
        upper_price = upper_price;
        grid_count = grid_count;
        total_investment = total_investment;
        grid_type = grid_type;
        auto_stop_on_breakout = auto_stop;
        is_stopped = false;
        total_profit = nought;
        completed_cycles = 0;
        levels = [];
        initialized = false;
        pending_buys = [];
        capital_per_cell = quot total_investment (of_ℕ grid_count);
      }

  -- `[f(i) for i in range(start, start + n)]`
  abbrev pub levels_from : (ℕ → N) → ℕ → ℕ → List N
  levels_from f start zero = []
  levels_from f start (suc n) = f start ∷ levels_from f (suc start) n

  abbrev pub arithmetic_level : GridStrategy N → ℕ → N
  arithmetic_level g i =
      add g.lower_price (mul (of_ℕ i) (quot (sub g.upper_price g.lower_price) (of_ℕ g.grid_count)))

  abbrev pub geometric_level : GridStrategy N → N → ℕ → N
  geometric_level g ratio i = mul g.lower_price (power ratio (of_ℕ i))

  -- `grid_count` is positive.
  unfoldable pub calculate_grid_levels : GridStrategy N → Result (List N)
  calculate_grid_levels g = elim g.grid_type [
    | arithmetic ↦ ok (levels_from (arithmetic_level g) 0 (g.grid_count + 1))
    | geometric ↦
        or_raise (divide g.upper_price g.lower_price) Exception.zero_division_error >>= λ q.
        let ratio = power q (quot (of_ℕ 1) (of_ℕ g.grid_count)) in
        ok (levels_from (geometric_level g ratio) 0 (g.grid_count + 1))
  ]

  -- `round(self._capital_per_cell / price, 8)`
  abbrev pub cell_quantity : GridStrategy N → N → Result N
  cell_quantity g price =
      or_raise (divide g.capital_per_cell price) Exception.zero_division_error >>= λ q.
      ok (round8 q)

  abbrev pub order_at : N → N → String → ℕ → GridOrder N
  order_at price quantity side level_index = record {
    price = price;
    quantity = quantity;
    side = side;
    level_index = level_index;
  }

  -- The loop over the levels, from an index.
  unfoldable pub initial_orders : GridStrategy N → N → ℕ → List N → Result (List (GridOrder N))
  initial_orders g current_price i [] = ok []
  initial_orders g current_price i (level ∷ levels) =
      let rest = initial_orders g current_price (suc i) levels in
      if lt level current_price
      then (cell_quantity g level >>= λ q.
          rest >>= λ orders. ok (order_at level q "buy" i ∷ orders))
      else if lt current_price level
      then (cell_quantity g current_price >>= λ q.
          rest >>= λ orders. ok (order_at level q "sell" i ∷ orders))
      else rest

  unfoldable pub generate_initial_orders :
      N → GridStrategy N → Result (GridStrategy N × List (GridOrder N))
  generate_initial_orders current_price g =
      if g.is_stopped
      then ok (g, [])
      else calculate_grid_levels g >>= λ levels.
          let g₁ = record g { levels = levels; initialized = true } in
          initial_orders g₁ current_price 0 levels >>= λ orders. ok (g₁, orders)

  -- `on_order_filled` of a buy at a level.
  abbrev pub buy_filled : ℕ → N → GridStrategy N → Result (GridStrategy N × Option (GridOrder N))
  buy_filled i price g = cell_quantity g price >>= λ quantity. ok (
    record g { pending_buys = put_at i quantity g.pending_buys },
    elim (get_elem? g.levels (suc i)) [
      | none ↦ none
      | some above ↦ some (order_at above quantity "sell" (suc i))
    ],
  )

  -- "Complete cycle if there was a pending buy one level below"
  abbrev pub complete_cycle : ℕ → N → N → GridStrategy N → GridStrategy N
  complete_cycle below price_below price g = elim (find_at below g.pending_buys) [
    | none ↦ g
    | some quantity ↦ record g {
      pending_buys = remove_at below g.pending_buys;
      total_profit = add g.total_profit (mul (sub price price_below) quantity);
      completed_cycles = g.completed_cycles + 1;
    }
  ]

  abbrev pub sell_filled : ℕ → N → GridStrategy N → Result (GridStrategy N × Option (GridOrder N))
  sell_filled zero price g = ok (g, none)
  sell_filled (suc below) price g = elim (get_elem? g.levels below) [
    | none ↦ raised Exception.index_error
    | some price_below ↦
        let g₁ = complete_cycle below price_below price g in
        cell_quantity g price_below >>= λ quantity.
        ok (g₁, some (order_at price_below quantity "buy" below))
  ]

  unfoldable pub on_order_filled :
      ℕ → String → GridStrategy N → Result (GridStrategy N × Option (GridOrder N))
  on_order_filled level_index side g =
      if g.is_stopped || not g.initialized
      then ok (g, none)
      else elim (get_elem? g.levels level_index) [
        | none ↦ ok (g, none)
        | some price ↦
            if str_eq side "buy"
            then buy_filled level_index price g
            else if str_eq side "sell"
            then sell_filled level_index price g
            else ok (g, none)
      ]

  abbrev pub check_price_in_range : N → GridStrategy N → GridStrategy N × Bool
  check_price_in_range price g =
      let in_range = le g.lower_price price && le price g.upper_price in
      (
        if not in_range && g.auto_stop_on_breakout then record g { is_stopped = true } else g,
        in_range,
      )

  abbrev pub get_profit_per_cycle : GridStrategy N → N
  get_profit_per_cycle g =
      if g.completed_cycles == 0 then nought else quot g.total_profit (of_ℕ g.completed_cycles)
