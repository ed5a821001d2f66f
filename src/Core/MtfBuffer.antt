-- ===== src/Core/MtfBuffer.antt =====
-- keryxflow/core/mtf_buffer.py: `TimeframeBuffer`. `add_price` is given the time that it reads, and
-- `add_candle` the candle that it builds. The data frames that the getters make of the candles are
-- pandas's.
mod State
pub mod Window
pub mod Ticks
pub mod Grouping
pub mod Multi
pub mod Bounds
mod Tests
pub use State.*
use keryx_talos.Base.{
  sell, keep, if_keeps, List, eq_iff, get_elem?, String, drop-drop, ◌<◌, inr, arith, str_eq,
  drop-append, ◌-◌, ◌==◌, leb, ◌^◌, microseconds_per_day, ◌≢◌, not, length-drop,
  microseconds_per_minute, drop, map, All, ◌%◌, All-keep, is_some, ◌≤◌, suc, leb→le, length-append,
  ap, ◌*◌, ltb, [], length, Side, le→leb, max, ◌++◌, ◌≡◌, append_assoc, last_of, ◌/◌, same_date,
  ◌⊎◌, inl, ◌||◌, none, microseconds_per_second, ◌&&◌, ℕ, ◌∙◌, some, eq_refl, buy, sym, zero, ◌+◌,
  Bool-cases, subst, ◌↔◌, Bool, refl, false, date_of, Option-cases, if◌then◌else◌, lt→ltb, Option,
  ◌∷◌, true, All-append,
}
use keryx_talos.Base.Result.{Result, Exception, ok, raised, ◌>>=◌, raise_if}
use keryx_talos.Number.{Number, larger, smaller}

module _ {N : Type 0} where
  abbrev pub new_buffer : TimeframeConfig → TimeframeBuffer N
  new_buffer config = record {
    config = config;
    candles = [];
    current_candle = none;
    last_candle_time = none;
  }

  -- "Keep only max_candles"
  abbrev pub trim : ℕ → List (Candle N) → List (Candle N)
  trim max_candles candles =
      if ltb max_candles (length candles) then last_of max_candles candles else candles

  -- The candles of `get_dataframe`.
  abbrev pub all_candles : Bool → TimeframeBuffer N → List (Candle N)
  all_candles include_current b = elim b.current_candle [
    | none ↦ b.candles
    | some c ↦ if include_current then b.candles ++ (c ∷ []) else b.candles
  ]

  abbrev pub candle_count : TimeframeBuffer N → ℕ
  candle_count b = length b.candles

-- `self.last_candle_time != candle_time`, negated
abbrev pub is_time : Option ℕ → ℕ → Bool
is_time none time = false
is_time (some t) time = t == time

-- `get_candle_time`
abbrev pub get_candle_time : ℕ → ℕ → Result ℕ
get_candle_time now interval_seconds =
    let interval = interval_seconds * microseconds_per_second in
    if interval_seconds == 0
    then raised Exception.zero_division_error
    else ok (now / interval * interval)

module _ {N : Type 0} ⦃num : Number N⦄ where
  open num use {add}

  abbrev pub first_candle : ℕ → N → N → Candle N
  first_candle time price volume = record {
    timestamp = time;
    open_price = price;
    high = price;
    low = price;
    close = price;
    volume = volume;
  }

  -- "Update current candle"
  abbrev pub update_candle : N → N → Candle N → Candle N
  update_candle price volume c = record c {
    high = larger c.high price;
    low = smaller c.low price;
    close = price;
    volume = add c.volume volume;
  }

  abbrev map_candle : (Candle N → Candle N) → Option (Candle N) → Option (Candle N)
  map_candle f none = none
  map_candle f (some c) = some (f c)

  -- The candles with the one that a new candle follows.
  abbrev pub save_current : TimeframeBuffer N → List (Candle N)
  save_current b = elim b.current_candle [
    | none ↦ b.candles
    | some c ↦ trim b.config.max_candles (b.candles ++ (c ∷ []))
  ]

  -- `add_price` once the time of the candle is known.
  unfoldable pub add_price_at : ℕ → N → N → TimeframeBuffer N → TimeframeBuffer N × Bool
  add_price_at time price volume b =
      if is_time b.last_candle_time time
      then (
        record b { current_candle = map_candle (update_candle price volume) b.current_candle },
        false,
      )
      else (
        record b {
          candles = save_current b;
          current_candle = some (first_candle time price volume);
          last_candle_time = some time;
        },
        is_some b.current_candle && ltb 0 (length (save_current b)),
      )

  unfoldable pub add_price : ℕ → N → N → TimeframeBuffer N → Result (TimeframeBuffer N × Bool)
  add_price now price volume b = get_candle_time now b.config.interval_seconds >>= λ time.
      ok (add_price_at time price volume b)

  unfoldable pub add_candle : Candle N → TimeframeBuffer N → TimeframeBuffer N
  add_candle candle b = record b {
    candles = trim b.config.max_candles (b.candles ++ (candle ∷ []));
  }
