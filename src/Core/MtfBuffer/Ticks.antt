-- ===== src/Core/MtfBuffer/Ticks.antt =====
-- keryxflow/core/mtf_buffer.py: prices in the order in which they come, and the candles that they make
-- by definition: one for each run of prices that fall into the same interval.
use keryx_talos.Base.{
  if◌then◌else◌, ℕ, Option, List, ◌/◌, none, ◌∷◌, microseconds_per_second, ◌==◌, map, some, ◌*◌, [],
}
use keryx_talos.Base.Result.{Result, ok, ◌>>=◌}
use keryx_talos.Number.{Number, larger, smaller, sum_from}
use keryx_talos.Core.MtfBuffer.{Candle, TimeframeConfig, TimeframeBuffer, add_price, first_candle}

pub record Tick (N : Type 0) : Type 0 where
  pub now : ℕ
  pub price : N
  pub volume : N

-- The start of the interval that a time falls into.
abbrev pub start_of : TimeframeConfig → ℕ → ℕ
start_of config now =
    let interval = config.interval_seconds * microseconds_per_second in now / interval * interval

module _ {N : Type 0} where
  -- The runs of ticks of the same interval, each with its first tick.
  abbrev pub attach :
      TimeframeConfig → Tick N → List (Tick N × List (Tick N)) → List (Tick N × List (Tick N))
  attach config t [] = (t, []) ∷ []
  attach config t ((h, hs) ∷ gs) =
      if start_of config t.now == start_of config h.now
      then (t, h ∷ hs) ∷ gs
      else (t, []) ∷ (h, hs) ∷ gs

  abbrev pub groups : TimeframeConfig → List (Tick N) → List (Tick N × List (Tick N))
  groups config [] = []
  groups config (t ∷ ts) = attach config t (groups config ts)

module _ {N : Type 0} ⦃num : Number N⦄ where
  abbrev pub highest : N → List (Tick N) → N
  highest x [] = x
  highest x (t ∷ ts) = highest (larger x t.price) ts

  abbrev pub lowest : N → List (Tick N) → N
  lowest x [] = x
  lowest x (t ∷ ts) = lowest (smaller x t.price) ts

  abbrev pub last_price : N → List (Tick N) → N
  last_price x [] = x
  last_price x (t ∷ ts) = last_price t.price ts

  -- A candle with more prices of its interval.
  abbrev pub grow : Candle N → List (Tick N) → Candle N
  grow c ts = record {
    timestamp = c.timestamp;
    open_price = c.open_price;
    high = highest c.high ts;
    low = lowest c.low ts;
    close = last_price c.close ts;
    volume = sum_from c.volume (map (λ t. t.volume) ts);
  }

  -- Open, high, low, close and volume of a run.
  abbrev pub candle_of : TimeframeConfig → Tick N × List (Tick N) → Candle N
  candle_of config (t, ts) = grow (first_candle (start_of config t.now) t.price t.volume) ts

  abbrev pub aggregate : TimeframeConfig → List (Tick N) → List (Candle N)
  aggregate config ts = map (candle_of config) (groups config ts)

  abbrev pub time_of : Option (Candle N) → Option ℕ
  time_of none = none
  time_of (some c) = some c.timestamp

  abbrev pub holding : TimeframeConfig → List (Candle N) → Option (Candle N) → TimeframeBuffer N
  holding config candles current = record {
    config = config;
    candles = candles;
    current_candle = current;
    last_candle_time = time_of current;
  }

  -- The calls of `add_price`.
  unfoldable pub add_prices : List (Tick N) → TimeframeBuffer N → Result (TimeframeBuffer N)
  add_prices [] b = ok b
  add_prices (t ∷ ts) b = add_price t.now t.price t.volume b >>= λ r. add_prices ts r.0
