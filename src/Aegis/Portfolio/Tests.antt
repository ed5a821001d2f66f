-- ===== src/Aegis/Portfolio/Tests.antt =====
-- A run of the portfolio, and its theorems at an input.
use keryx_talos.Base.Int.{negsuc, pos, ℤ}
use keryx_talos.Aegis.Portfolio.Accounting.{
  run-books, total_of, run-create-IsValid, book_value, IsValid,
}
use keryx_talos.Aegis.Portfolio.{
  pop_position, find_position, update_total_value, settle, close_position, update_prices,
  create_portfolio_state, add_position, PortfolioState, PositionState, run, Op,
}
use keryx_talos.Base.{List, ◌≡◌, some, [], none, refl, ◌∷◌}
use keryx_talos.Number.{fixed, fixed_conversion, fixed-IsTotalOrder, fixed-IsExact}

abbrev position : PositionState ℤ
position = record {
  symbol = "BTC/USDT";
  side = "long";
  quantity = fixed.lit 2 0;
  entry_price = fixed.lit 100 0;
  current_price = fixed.lit 100 0;
  stop_loss = some (fixed.lit 95 0);
  take_profit = none;
}

abbrev ops : List (Op ℤ ℤ)
ops =
    Op.add_position position
    ∷ Op.update_prices (("BTC/USDT", fixed.lit 110 0) ∷ [])
    ∷ Op.close_position "ETH/USDT" (fixed.lit 1 0)
    ∷ Op.close_position "BTC/USDT" (fixed.lit 90 0)
    ∷ []

abbrev s : PortfolioState ℤ
s = record {
  total_value = fixed.lit 1000 0;
  cash_available = fixed.lit 1000 0;
  peak_value = fixed.lit 1000 0;
  positions = [];
  daily_starting_value = fixed.lit 1000 0;
  daily_pnl = pos 0;
  trades_today = 0;
  weekly_starting_value = fixed.lit 1000 0;
  weekly_pnl = pos 0;
  trades_this_hour = 0;
  consecutive_losses = 0;
}

-- The gain of 20 was the peak, the loss of 20 is realized.
after_ops :
    let (t, pnl) = run ops s in
    (t.total_value ≡ fixed.lit 980 0)
    × (t.peak_value ≡ fixed.lit 1020 0)
    × (t.consecutive_losses ≡ 1)
    × (pnl ≡ negsuc 199999 ∷ [])
unfolding run add_position update_prices close_position settle update_total_value find_position
    pop_position
after_ops = (refl, refl, refl, refl)

run-books_example :
    let (t, pnl) = run ops s in book_value t ≡ fixed.add (book_value s) (total_of pnl)
run-books_example = run-books fixed-IsExact ops s

run-create-IsValid_example : IsValid (run ops (create_portfolio_state (fixed.lit 1000 0))).0
run-create-IsValid_example = run-create-IsValid fixed-IsTotalOrder (fixed.lit 1000 0) ops refl
