-- ===== src/Core/MtfBuffer/Tests.antt =====
-- Prices in buffers, and the theorems about them at an input.
use keryx_talos.Base.{◌*◌, ◌≡◌, ℕ, List, [], ◌∷◌, arith, true, false, none}
use keryx_talos.Base.Int.{ℤ, pos}
use keryx_talos.Base.Result.{ok, OnOk, ◌>>=◌}
use keryx_talos.Number.{fixed}
use keryx_talos.Core.MtfBuffer.{TimeframeConfig, Candle, new_buffer}
use keryx_talos.Core.MtfBuffer.Ticks.{Tick, add_prices, aggregate}
use keryx_talos.Core.MtfBuffer.Grouping.{ahead, add_prices-aggregate}
use keryx_talos.Core.MtfBuffer.Multi.{init}
use keryx_talos.Core.MtfBuffer.Bounds.{Call, AllBounded, calls, calls-AllBounded}

-- Minutes, two of which are kept.
abbrev minutes : TimeframeConfig
minutes = record {
  timeframe = "1m";
  interval_seconds = 60;
  max_candles = 2;
  is_primary = true;
  is_filter = false;
}

abbrev tick_at : ℕ → ℕ → Tick ℤ
tick_at seconds price = record {
  now = seconds * 1_000_000;
  price = fixed.lit price 0;
  volume = fixed.lit 1 0;
}

abbrev ticks : List (Tick ℤ)
ticks = tick_at 5 100 ∷ tick_at 30 110 ∷ tick_at 61 90 ∷ tick_at 130 95 ∷ tick_at 200 97 ∷ []

add_prices-aggregate_example :
    add_prices ticks (new_buffer minutes) ≡ ok (ahead minutes [] (aggregate minutes ticks))
add_prices-aggregate_example = add_prices-aggregate ticks minutes (omega arith) (omega arith)

abbrev candle : Candle ℤ
candle = record {
  timestamp = 0;
  open_price = pos 1;
  high = pos 1;
  low = pos 1;
  close = pos 1;
  volume = pos 1;
}

abbrev run_of_calls : List (Call ℤ)
run_of_calls =
    Call.price_call (λ tf. 5_000_000) "BTC/USDT" (fixed.lit 100 0) (fixed.lit 1 0)
    ∷ Call.candle_call "BTC/USDT" "1m" candle
    ∷ Call.price_call (λ tf. 70_000_000) "BTC/USDT" (fixed.lit 100 0) (fixed.lit 1 0)
    ∷ Call.clear_call none
    ∷ []

calls-AllBounded_example :
    OnOk (λ m. AllBounded m) (init (minutes ∷ []) >>= λ m. calls run_of_calls m)
calls-AllBounded_example = calls-AllBounded (minutes ∷ []) run_of_calls (omega arith, tt)
