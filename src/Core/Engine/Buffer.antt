-- ===== src/Core/Engine/Buffer.antt =====
-- keryxflow/core/engine.py: `OHLCVBuffer`, with candles of a minute.
use keryx_talos.Base.{
  if◌then◌else◌, ltb, ◌*◌, microseconds_per_minute, ◌++◌, ◌/◌, length, ◌∷◌, [], none, some, false,
  ℕ, String, List, Bool,
}
use keryx_talos.Base.Dict.{Dict, lookup, insert}
use keryx_talos.Number.{Number}
use keryx_talos.Core.MtfBuffer.{Candle, trim, first_candle, update_candle, is_time}

pub record OhlcvBuffer (N : Type 0) : Type 0 where
  pub max_candles : ℕ
  pub candles : Dict (List (Candle N))
  pub current_candle : Dict (Candle N)
  pub last_candle_time : Dict ℕ

module _ {N : Type 0} where
  abbrev pub new_buffer : ℕ → OhlcvBuffer N
  new_buffer max_candles = record {
    max_candles = max_candles;
    candles = [];
    current_candle = [];
    last_candle_time = [];
  }

  -- `self._candles[symbol]` of the `defaultdict`
  abbrev pub candles_of : String → OhlcvBuffer N → List (Candle N)
  candles_of symbol b = elim (lookup symbol b.candles) [ none ↦ [] | some cs ↦ cs ]

  abbrev pub keep_candle : String → Candle N → OhlcvBuffer N → OhlcvBuffer N
  keep_candle symbol c b = record b {
    candles = insert symbol (trim b.max_candles (candles_of symbol b ++ (c ∷ []))) b.candles;
  }

  -- "Save previous candle if exists"
  abbrev pub save_candle : String → OhlcvBuffer N → OhlcvBuffer N
  save_candle symbol b = elim (lookup symbol b.current_candle) [
    | none ↦ b
    | some c ↦ keep_candle symbol c b
  ]

  abbrev pub count_candles : String → OhlcvBuffer N → ℕ
  count_candles symbol b = length (candles_of symbol b)

  -- The rows of `get_ohlcv`.
  abbrev pub get_ohlcv : String → OhlcvBuffer N → List (Candle N)
  get_ohlcv symbol b = elim (lookup symbol b.current_candle) [
    | none ↦ candles_of symbol b
    | some c ↦ candles_of symbol b ++ (c ∷ [])
  ]

module _ {N : Type 0} ⦃num : Number N⦄ where
  abbrev pub start_candle : String → ℕ → N → N → OhlcvBuffer N → OhlcvBuffer N
  start_candle symbol time price volume b = record b {
    current_candle = insert symbol (first_candle time price volume) b.current_candle;
    last_candle_time = insert symbol time b.last_candle_time;
  }

  unfoldable pub add_price_to : ℕ → String → N → N → OhlcvBuffer N → OhlcvBuffer N × Bool
  add_price_to now symbol price volume b =
      let time = now / microseconds_per_minute * microseconds_per_minute in
      let started = start_candle symbol time price volume (save_candle symbol b) in
      elim (lookup symbol b.current_candle) [
        | none ↦ (started, ltb 0 (count_candles symbol started))
        | some c ↦
            if is_time (lookup symbol b.last_candle_time) time
            then (
              record b {
                current_candle = insert symbol (update_candle price volume c) b.current_candle;
              },
              false,
            )
            else (started, ltb 0 (count_candles symbol started))
      ]
