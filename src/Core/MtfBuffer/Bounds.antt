-- ===== src/Core/MtfBuffer/Bounds.antt =====
-- keryxflow/core/mtf_buffer.py: how many candles the buffers hold.
use keryx_talos.Base.{
  if_keeps, keep, ◌++◌, ltb, arith, [], ◌∷◌, none, some, ◌≤◌, All, ◌∷◌, Bool, some, Option, List,
  length, String, ◌<◌, ℕ,
}
use keryx_talos.Base.Dict.{
  Dict, lookup, insert, Values, insert-Values, erase-Values, lookup-Values, OnSome, or_raise-OnOk,
}
use keryx_talos.Base.Result.{
  Result, Exception, ok, ◌>>=◌, OnOk, OnOk-bind, OnOk-bind_any, or_raise, ◌>>◌, raise_if,
}
use keryx_talos.Number.{Number}
use keryx_talos.Core.MtfBuffer.{
  is_time, get_candle_time, Candle, TimeframeConfig, TimeframeBuffer, new_buffer, trim, add_price,
  add_price_at, add_candle,
}
use keryx_talos.Core.MtfBuffer.Window.{length-trim}
use keryx_talos.Core.MtfBuffer.Multi.{
  MultiTimeframeBuffer, init, by_timeframe, get_or_create_buffer, put_buffer, buffers_of,
  buffer_or_new, add_price_each, add_price_all, add_candle_to, clear, keys, sort_timeframes,
}

-- A buffer that keeps at least one candle.
abbrev pub Sized : TimeframeConfig → Type 0
Sized c = 0 < c.max_candles

abbrev pub IsBounded : {N : Type 0} → TimeframeBuffer N → Type 0
IsBounded b = Sized b.config × (length b.candles ≤ b.config.max_candles)

-- The calls that change the buffers.
pub data Call (N : Type 0) : Type 0 where
  price_call : (String → ℕ) → String → N → N → Call N
  candle_call : String → String → Candle N → Call N
  clear_call : Option String → Call N

by_timeframe-Sized :
    (configs : List TimeframeConfig) (d : Dict TimeframeConfig)
    → All Sized configs
    → Values Sized d
    → Values Sized (by_timeframe d configs)
by_timeframe-Sized [] d h w = w
by_timeframe-Sized (c ∷ cs) d h w =
    by_timeframe-Sized cs (insert c.timeframe c d) h.1 (insert-Values Sized c.timeframe c d h.0 w)

module _ {N : Type 0} where
  -- Every buffer holds at most the candles of its configuration.
  abbrev pub AllBounded : MultiTimeframeBuffer N → Type 0
  AllBounded m = Values Sized m.configs × Values (Values IsBounded) m.buffers

  empty_or_held-IsBounded :
      (o : Option (Dict (TimeframeBuffer N)))
      → OnSome (Values IsBounded) o
      → Values (IsBounded {N = N}) (elim o [ none ↦ [] | some d ↦ d ])
  empty_or_held-IsBounded none h = tt
  empty_or_held-IsBounded (some d) h = h

  buffers_of-IsBounded :
      (symbol : String) (m : MultiTimeframeBuffer N)
      → AllBounded m
      → Values IsBounded (buffers_of symbol m)
  buffers_of-IsBounded symbol m w =
      empty_or_held-IsBounded (lookup symbol m.buffers)
        (lookup-Values (Values IsBounded) symbol m.buffers w.1)

  put_buffer-AllBounded :
      (symbol tf : String) (b : TimeframeBuffer N) (m : MultiTimeframeBuffer N)
      → IsBounded b
      → AllBounded m
      → AllBounded (put_buffer symbol tf b m)
  put_buffer-AllBounded symbol tf b m h w =
      let held =
        insert-Values IsBounded tf b (buffers_of symbol m) h (buffers_of-IsBounded symbol m w) in
      (
        w.0,
        insert-Values (Values IsBounded) symbol (insert tf b (buffers_of symbol m)) m.buffers held
            w.1,
      )

  new_or_held-IsBounded :
      (o : Option (TimeframeBuffer N)) (config : TimeframeConfig)
      → Sized config
      → OnSome IsBounded o
      → IsBounded {N = N} (elim o [ none ↦ new_buffer config | some b ↦ b ])
  new_or_held-IsBounded none config c h = (c, omega arith)
  new_or_held-IsBounded (some b) config c h = h

  get_or_create_buffer-AllBounded :
      (symbol tf : String) (m : MultiTimeframeBuffer N)
      → AllBounded m
      → OnOk (λ r. IsBounded r.0 × AllBounded r.1) (get_or_create_buffer symbol tf m)
  get_or_create_buffer-AllBounded symbol tf m w =
      OnOk-bind Sized (λ r. IsBounded r.0 × AllBounded r.1)
        (or_raise (lookup tf m.configs) Exception.value_error)
        (λ config. let b = buffer_or_new symbol tf config m in ok (b, put_buffer symbol tf b m))
        (or_raise-OnOk Sized (lookup tf m.configs) Exception.value_error
          (lookup-Values Sized tf m.configs w.0))
        (λ config c.
          let h =
            new_or_held-IsBounded (lookup tf (buffers_of symbol m)) config c (
              lookup-Values IsBounded tf (buffers_of symbol m) (buffers_of-IsBounded symbol m w)) in
          (h, put_buffer-AllBounded symbol tf (buffer_or_new symbol tf config m) m h w))

  trim-IsBounded :
      (b : TimeframeBuffer N) (xs : List (Candle N))
      → IsBounded b
      → IsBounded (record b { candles = trim b.config.max_candles xs })
  trim-IsBounded b xs h = (h.0, length-trim b.config.max_candles xs h.0)

init-AllBounded :
    (N : Type 0) (configs : List TimeframeConfig)
    → All Sized configs
    → OnOk (λ m. AllBounded m) (init {N = N} configs)
unfolding init
init-AllBounded N configs h =
    OnOk-bind_any (λ m. AllBounded m)
      (raise_if (ltb 1 (length (keep (λ c. c.is_primary) configs))) Exception.value_error
        >> raise_if (ltb 1 (length (keep (λ c. c.is_filter) configs))) Exception.value_error)
      (λ _. ok record {
        configs = by_timeframe [] configs;
        buffers = [];
        sorted_timeframes = sort_timeframes configs;
      })
      (λ _. (by_timeframe-Sized configs [] h tt, tt))

module _ {N : Type 0} ⦃num : Number N⦄ where
  saved-length :
      (o : Option (Candle N)) (candles : List (Candle N)) (n : ℕ)
      → 0 < n
      → length candles ≤ n
      → length (elim o [ none ↦ candles | some c ↦ trim n (candles ++ (c ∷ [])) ]) ≤ n
  saved-length none candles n i h = h
  saved-length (some c) candles n i h = length-trim n (candles ++ (c ∷ [])) i

  add_price_at-IsBounded :
      (time : ℕ) (price volume : N) (b : TimeframeBuffer N)
      → IsBounded b
      → IsBounded (add_price_at time price volume b).0
  unfolding add_price_at
  add_price_at-IsBounded time price volume b h =
      if_keeps {A = TimeframeBuffer N × Bool} (λ r. IsBounded r.0) (is_time b.last_candle_time time)
        h (h.0, saved-length b.current_candle b.candles b.config.max_candles h.0 h.1)

  add_price-IsBounded :
      (now : ℕ) (price volume : N) (b : TimeframeBuffer N)
      → IsBounded b
      → OnOk (λ r. IsBounded r.0) (add_price now price volume b)
  unfolding add_price
  add_price-IsBounded now price volume b h =
      OnOk-bind_any (λ r. IsBounded r.0) (get_candle_time now b.config.interval_seconds)
        (λ time. ok (add_price_at time price volume b))
        (λ time. add_price_at-IsBounded time price volume b h)

  add_price_each-AllBounded :
      (clock : String → ℕ) (symbol : String) (price volume : N) (tfs : List String)
      (results : Dict Bool) (m : MultiTimeframeBuffer N)
      → AllBounded m
      → OnOk (λ r. AllBounded r.0) (add_price_each clock symbol price volume tfs results m)
  unfolding add_price_each
  add_price_each-AllBounded clock symbol price volume [] results m w = w
  add_price_each-AllBounded clock symbol price volume (tf ∷ tfs) results m w =
      OnOk-bind (λ r. IsBounded r.0 × AllBounded r.1) (λ r. AllBounded r.0)
        (get_or_create_buffer symbol tf m) _ (get_or_create_buffer-AllBounded symbol tf m w)
        (λ r p.
          OnOk-bind (λ d. IsBounded d.0) (λ r. AllBounded r.0)
            (add_price (clock tf) price volume r.0) _
            (add_price-IsBounded (clock tf) price volume r.0 p.0)
            (λ d q.
              add_price_each-AllBounded clock symbol price volume tfs (insert tf d.1 results)
                (put_buffer symbol tf d.0 r.1) (put_buffer-AllBounded symbol tf d.0 r.1 q p.1)))

  clear-AllBounded :
      (o : Option String) (m : MultiTimeframeBuffer N) → AllBounded m → AllBounded (clear o m)
  clear-AllBounded none m w = (w.0, tt)
  clear-AllBounded (some s) m w = (w.0, erase-Values (Values IsBounded) s m.buffers w.1)

  unfoldable pub call : Call N → MultiTimeframeBuffer N → Result (MultiTimeframeBuffer N)
  call (price_call clock symbol price volume) m =
      add_price_all clock symbol price volume m >>= λ r. ok r.0
  call (candle_call symbol tf candle) m = add_candle_to symbol tf candle m
  call (clear_call symbol) m = ok (clear symbol m)

  unfoldable pub calls : List (Call N) → MultiTimeframeBuffer N → Result (MultiTimeframeBuffer N)
  calls [] m = ok m
  calls (c ∷ cs) m = call c m >>= λ m'. calls cs m'

  call-AllBounded :
      (c : Call N) (m : MultiTimeframeBuffer N) → AllBounded m → OnOk (λ r. AllBounded r) (call c m)
  unfolding call add_price_all add_candle_to add_candle
  call-AllBounded (price_call clock symbol price volume) m w =
      OnOk-bind (λ r. AllBounded r.0) (λ r. AllBounded r)
        (add_price_each clock symbol price volume (keys m.configs) [] m) (λ r. ok r.0)
        (add_price_each-AllBounded clock symbol price volume (keys m.configs) [] m w) (λ r p. p)
  call-AllBounded (candle_call symbol tf candle) m w =
      OnOk-bind (λ r. IsBounded r.0 × AllBounded r.1) (λ r. AllBounded r)
        (get_or_create_buffer symbol tf m) _ (get_or_create_buffer-AllBounded symbol tf m w)
        (λ r p.
          put_buffer-AllBounded symbol tf (add_candle candle r.0) r.1
            (trim-IsBounded r.0 (r.0.candles ++ (candle ∷ [])) p.0) p.1)
  call-AllBounded (clear_call symbol) m w = clear-AllBounded symbol m w

  run_calls-AllBounded :
      (cs : List (Call N)) (m : MultiTimeframeBuffer N)
      → AllBounded m
      → OnOk (λ r. AllBounded r) (calls cs m)
  unfolding calls
  run_calls-AllBounded [] m w = w
  run_calls-AllBounded (c ∷ cs) m w =
      OnOk-bind (λ r. AllBounded r) (λ r. AllBounded r) (call c m) (λ m'. calls cs m')
        (call-AllBounded c m w) (λ m' w'. run_calls-AllBounded cs m' w')

  -- When the configurations keep at least one candle, no buffer ever holds more candles than its
  -- configuration allows, whatever prices and candles come in and whichever symbols are cleared.
  pub calls-AllBounded :
      (configs : List TimeframeConfig) (cs : List (Call N))
      → All Sized configs
      → OnOk (λ m. AllBounded m) (init configs >>= λ m. calls cs m)
  calls-AllBounded configs cs h =
      OnOk-bind (λ m. AllBounded m) (λ m. AllBounded m) (init configs) (λ m. calls cs m)
        (init-AllBounded N configs h) (λ m w. run_calls-AllBounded cs m w)
