-- ===== src/Exchange/Paper/Tests.antt =====
-- Runs of the paper engine, and its theorems at an input.
use keryx_talos.Exchange.Paper.Transactions.{execute_market_order_lem, FilledOrUnchanged}
use keryx_talos.Exchange.Paper.Closing.{close_position_lem, ClosedOrKept}
use keryx_talos.Exchange.Paper.Movements.{free_of}
use keryx_talos.Exchange.Paper.Validity.{IsSound}
use keryx_talos.Base.{buy, true, List, refl, none, ◌∷◌, ◌≡◌, [], some}
use keryx_talos.Base.Int.{pos, ℤ}
use keryx_talos.Number.{fixed, fixed-HasSigns}
use keryx_talos.Exchange.Paper.{
  close_found, put, new_position, store_position, deduct, exchange, fill, execute,
  execute_market_order, Position, get_base_quote, initialize, PaperTradingEngine, Database, Op, new,
  open_position, close_position, update_price,
}
use keryx_talos.Exchange.Paper.Book.{
  close_all_positions, close_each, update_position_prices, mark_all, run,
}
use keryx_talos.Exchange.Paper.Solvency.{run-new-IsSound}

abbrev empty : Database ℤ
empty = record { balances = []; trades = []; positions = [] }

-- Slippage of 1%.
abbrev engine : PaperTradingEngine ℤ
engine = new "USDT" (fixed.lit 1000 0) (fixed.lit 1 2) empty

abbrev ops : List (Op ℤ)
ops =
    Op.open_position "BTC/USDT" "buy" (fixed.lit 2 0) (fixed.lit 100 0) none none
    ∷ Op.execute_market_order "BTC/USDT" "hold" (fixed.lit 1 0) (some (fixed.lit 100 0))
    ∷ Op.update_price "BTC/USDT" (fixed.lit 110 0)
    ∷ Op.update_position_prices
    ∷ Op.close_all_positions
    ∷ []

run-new-IsSound_example : IsSound (run ops engine).database
run-new-IsSound_example =
    run-new-IsSound fixed-HasSigns "USDT" (fixed.lit 1000 0) (fixed.lit 1 2) empty ops refl refl
      refl (record { funds = tt; quantities = tt })
      ((refl, refl), ((refl, refl), (refl, (tt, (tt, tt)))))

buy_and_sell : free_of "USDT" (run ops engine).database.balances ≡ fixed.lit 10158 1
unfolding run open_position close_position update_price close_all_positions close_each initialize
    update_position_prices mark_all execute_market_order execute get_base_quote fill exchange deduct
    store_position new_position put close_found
buy_and_sell = refl

execute_market_order_lem_example :
    FilledOrUnchanged "buy"
      (fixed.lit 2 0)
      ("BTC", "USDT")
      (fixed.lit 100 0)
      (initialize engine)
      (execute_market_order "BTC/USDT" "buy" (fixed.lit 2 0) (some (fixed.lit 100 0)) engine)
unfolding get_base_quote
execute_market_order_lem_example =
    execute_market_order_lem "BTC/USDT" "buy" (fixed.lit 2 0) (some (fixed.lit 100 0)) engine
      ("BTC", "USDT") (fixed.lit 100 0) refl refl

-- Two bought at 100, with 800 left.
abbrev bought : Position ℤ
bought = record {
  side = buy;
  quantity = fixed.lit 2 0;
  entry_price = fixed.lit 100 0;
  current_price = fixed.lit 100 0;
  unrealized_pnl = pos 0;
  unrealized_pnl_percentage = pos 0;
  stop_loss = none;
  take_profit = none;
  trade_id = 1;
}

abbrev holding : PaperTradingEngine ℤ
holding = record engine {
  initialized = true;
  database = record {
    balances =
        ("USDT", record { total = fixed.lit 800 0; free = fixed.lit 800 0; used = pos 0 })
        ∷ ("BTC", record { total = fixed.lit 2 0; free = fixed.lit 2 0; used = pos 0 })
        ∷ [];
    trades = [];
    positions = ("BTC/USDT", bought) ∷ [];
  };
}

close_position_lem_example :
    ClosedOrKept "BTC/USDT"
      ("BTC", "USDT")
      (some (fixed.lit 110 0))
      (initialize holding)
      (close_position "BTC/USDT" (some (fixed.lit 110 0)) holding)
unfolding get_base_quote
close_position_lem_example =
    close_position_lem "BTC/USDT" ("BTC", "USDT") (some (fixed.lit 110 0)) holding refl
