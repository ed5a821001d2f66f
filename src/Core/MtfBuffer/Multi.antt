-- ===== src/Core/MtfBuffer/Multi.antt =====
-- keryxflow/core/mtf_buffer.py: `MultiTimeframeBuffer`, the buffers of each symbol. The time that a
-- buffer reads in `add_price` is given by its timeframe. What an exception leaves behind is not kept.
use keryx_talos.Base.{
  some, keep, length, leb, [], none, if◌then◌else◌, Bool, Option, ltb, map, ◌∷◌, ℕ, String, List,
}
use keryx_talos.Base.Dict.{Dict, lookup, insert, erase}
use keryx_talos.Base.Result.{Result, Exception, ok, ◌>>=◌, ◌>>◌, raise_if, or_raise}
use keryx_talos.Number.{Number}
use keryx_talos.Core.MtfBuffer.{
  Candle, TimeframeConfig, TimeframeBuffer, new_buffer, add_price, add_candle, candle_count,
}

pub record MultiTimeframeBuffer (N : Type 0) : Type 0 where
  pub configs : Dict TimeframeConfig
  pub buffers : Dict (Dict (TimeframeBuffer N))
  pub sorted_timeframes : List TimeframeConfig

-- `{c.timeframe: c for c in configs}`
abbrev pub by_timeframe : Dict TimeframeConfig → List TimeframeConfig → Dict TimeframeConfig
by_timeframe d [] = d
by_timeframe d (c ∷ cs) = by_timeframe (insert c.timeframe c d) cs

-- `sorted(configs, key=lambda c: c.interval_seconds)`, which is stable.
abbrev pub insert_sorted : TimeframeConfig → List TimeframeConfig → List TimeframeConfig
insert_sorted c [] = c ∷ []
insert_sorted c (d ∷ ds) =
    if leb c.interval_seconds d.interval_seconds then c ∷ d ∷ ds else d ∷ insert_sorted c ds

abbrev pub sort_timeframes : List TimeframeConfig → List TimeframeConfig
sort_timeframes [] = []
sort_timeframes (c ∷ cs) = insert_sorted c (sort_timeframes cs)

-- The first timeframe that a test holds of.
abbrev pub find_timeframe : (TimeframeConfig → Bool) → Dict TimeframeConfig → Option String
find_timeframe p [] = none
find_timeframe p ((tf, c) ∷ d) = if p c then some tf else find_timeframe p d

abbrev pub keys {ℓ} : {V : Type ℓ} → Dict V → List String
keys d = map (λ e. e.0) d

module _ {N : Type 0} where
  unfoldable pub init : List TimeframeConfig → Result (MultiTimeframeBuffer N)
  init configs =
      raise_if (ltb 1 (length (keep (λ c. c.is_primary) configs))) Exception.value_error
      >> raise_if (ltb 1 (length (keep (λ c. c.is_filter) configs))) Exception.value_error
      >> ok record {
        configs = by_timeframe [] configs;
        buffers = [];
        sorted_timeframes = sort_timeframes configs;
      }

  abbrev pub primary_timeframe : MultiTimeframeBuffer N → Option String
  primary_timeframe m = find_timeframe (λ c. c.is_primary) m.configs

  abbrev pub filter_timeframe : MultiTimeframeBuffer N → Option String
  filter_timeframe m = find_timeframe (λ c. c.is_filter) m.configs

  abbrev pub timeframes : MultiTimeframeBuffer N → List String
  timeframes m = keys m.configs

  -- `self._buffers[symbol]` of the `defaultdict`
  abbrev pub buffers_of : String → MultiTimeframeBuffer N → Dict (TimeframeBuffer N)
  buffers_of symbol m = elim (lookup symbol m.buffers) [ none ↦ [] | some d ↦ d ]

  -- The buffer of a pair, changed in place.
  abbrev pub put_buffer :
      String → String → TimeframeBuffer N → MultiTimeframeBuffer N → MultiTimeframeBuffer N
  put_buffer symbol tf b m = record m {
    buffers = insert symbol (insert tf b (buffers_of symbol m)) m.buffers;
  }

  abbrev pub buffer_or_new :
      String → String → TimeframeConfig → MultiTimeframeBuffer N → TimeframeBuffer N
  buffer_or_new symbol tf config m = elim (lookup tf (buffers_of symbol m)) [
    | none ↦ new_buffer config
    | some b ↦ b
  ]

  abbrev pub get_or_create_buffer :
      String → String → MultiTimeframeBuffer N → Result (TimeframeBuffer N × MultiTimeframeBuffer N)
  get_or_create_buffer symbol tf m =
      or_raise (lookup tf m.configs) Exception.value_error >>= λ config.
      let b = buffer_or_new symbol tf config m in ok (b, put_buffer symbol tf b m)

  abbrev pub count_of : String → String → MultiTimeframeBuffer N → ℕ
  count_of symbol tf m = elim (lookup symbol m.buffers) [
    | none ↦ 0
    | some d ↦ elim (lookup tf d) [ none ↦ 0 | some b ↦ candle_count b ]
  ]

  abbrev pub has_minimum_candles : String → ℕ → MultiTimeframeBuffer N → Dict Bool
  has_minimum_candles symbol min_candles m =
      map (λ e. (e.0, leb min_candles (count_of symbol e.0 m))) m.configs

  abbrev pub clear : Option String → MultiTimeframeBuffer N → MultiTimeframeBuffer N
  clear none m = record m { buffers = [] }
  clear (some symbol) m = record m { buffers = erase symbol m.buffers }

module _ {N : Type 0} ⦃num : Number N⦄ where
  -- The loop over the timeframes.
  unfoldable pub add_price_each :
      (String → ℕ)
      → String
      → N
      → N
      → List String
      → Dict Bool
      → MultiTimeframeBuffer N
      → Result (MultiTimeframeBuffer N × Dict Bool)
  add_price_each clock symbol price volume [] results m = ok (m, results)
  add_price_each clock symbol price volume (tf ∷ tfs) results m =
      get_or_create_buffer symbol tf m >>= λ r. add_price (clock tf) price volume r.0 >>= λ done.
      add_price_each clock symbol price volume tfs (insert tf done.1 results)
        (put_buffer symbol tf done.0 r.1)

  unfoldable pub add_price_all :
      (String → ℕ)
      → String
      → N
      → N
      → MultiTimeframeBuffer N
      → Result (MultiTimeframeBuffer N × Dict Bool)
  add_price_all clock symbol price volume m =
      add_price_each clock symbol price volume (keys m.configs) [] m

  unfoldable pub add_candle_to :
      String → String → Candle N → MultiTimeframeBuffer N → Result (MultiTimeframeBuffer N)
  add_candle_to symbol tf candle m = get_or_create_buffer symbol tf m >>= λ r.
      ok (put_buffer symbol tf (add_candle candle r.0) r.1)
