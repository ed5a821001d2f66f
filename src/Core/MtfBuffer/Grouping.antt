-- ===== src/Core/MtfBuffer/Grouping.antt =====
-- keryxflow/core/mtf_buffer.py: what a buffer holds after prices.
use keryx_talos.Base.{
  append_nil, some, if◌then◌else◌, arith, sym, Bool-cases, front, false, append_assoc, ◌-◌, ◌≡◌,
  true, ◌≤◌, ◌==◌, inr, inl, refl, ◌∷◌, length, [], length-append, ◌∙◌, map, back, ℕ, ◌++◌, ◌<◌,
  List, ap,
}
use keryx_talos.Base.Result.{ok}
use keryx_talos.Number.{Number}
use keryx_talos.Core.MtfBuffer.{
  Candle, TimeframeConfig, TimeframeBuffer, trim, add_price, add_price_at, first_candle,
  update_candle, new_buffer,
}
use keryx_talos.Core.MtfBuffer.Window.{tail_of, trim-eq-tail_of, length-trim, tail_of-append}
use keryx_talos.Core.MtfBuffer.Ticks.{
  Tick, start_of, attach, groups, grow, candle_of, aggregate, holding, add_prices,
}

module _ {N : Type 0} ⦃num : Number N⦄ where
  add_price-eq-at :
      (now : ℕ) (price volume : N) (b : TimeframeBuffer N)
      → 0 < b.config.interval_seconds
      → add_price now price volume b ≡ ok (add_price_at (start_of b.config now) price volume b)
  unfolding add_price
  add_price-eq-at now price volume b h =
      let z : (b.config.interval_seconds == 0) ≡ false = ground arith in rw (z, add_price) refl

  -- The candles of a current candle and of the runs that follow it.
  abbrev continue : TimeframeConfig → Candle N → List (Tick N × List (Tick N)) → List (Candle N)
  continue config c [] = c ∷ []
  continue config c ((h, hs) ∷ gs) =
      if c.timestamp == start_of config h.now
      then grow c (h ∷ hs) ∷ map (candle_of config) gs
      else c ∷ map (candle_of config) ((h, hs) ∷ gs)

  continue-same :
      (config : TimeframeConfig) (c : Candle N) (t : Tick N) (gs : List (Tick N × List (Tick N)))
      → (c.timestamp == start_of config t.now) ≡ true
      → continue config (update_candle t.price t.volume c) gs
        ≡ continue config c (attach config t gs)
  continue-same config c t [] e = rw e refl
  continue-same config c t ((h, hs) ∷ gs) e = ground arith

  continue-other :
      (config : TimeframeConfig) (c : Candle N) (t : Tick N) (gs : List (Tick N × List (Tick N)))
      → (c.timestamp == start_of config t.now) ≡ false
      → continue config c (attach config t gs)
        ≡ c ∷ continue config (first_candle (start_of config t.now) t.price t.volume) gs
  continue-other config c t [] e = ground arith
  continue-other config c t ((h, hs) ∷ gs) e = ground arith

  continue-aggregate :
      (config : TimeframeConfig) (t : Tick N) (gs : List (Tick N × List (Tick N)))
      → continue config (first_candle (start_of config t.now) t.price t.volume) gs
        ≡ map (candle_of config) (attach config t gs)
  continue-aggregate config t [] = refl
  continue-aggregate config t ((h, hs) ∷ gs) = ground arith

  front-continue :
      (config : TimeframeConfig) (c d : Candle N) (gs : List (Tick N × List (Tick N)))
      → (front (c ∷ continue config d gs) ≡ c ∷ front (continue config d gs))
        × (back (c ∷ continue config d gs) ≡ back (continue config d gs))
  front-continue config c d [] = (refl, refl)
  front-continue config c d ((h, hs) ∷ gs) = ground arith

  -- What the prices after a current candle lead to.
  abbrev pub ahead : TimeframeConfig → List (Candle N) → List (Candle N) → TimeframeBuffer N
  ahead config candles whole =
      holding config (tail_of config.max_candles (candles ++ front whole)) (back whole)

  add_price_at-holding :
      (config : TimeframeConfig) (candles : List (Candle N)) (c : Candle N) (t : Tick N)
      → (add_price_at (start_of config t.now) t.price t.volume (holding config candles (some c))).0
        ≡ (if c.timestamp == start_of config t.now
            then holding config candles (some (update_candle t.price t.volume c))
            else holding config
                (trim config.max_candles (candles ++ (c ∷ [])))
                (some (first_candle (start_of config t.now) t.price t.volume)))
  unfolding add_price_at
  add_price_at-holding config candles c t = ground arith

  tail_of-trim :
      (n : ℕ) (candles : List (Candle N)) (c : Candle N) (more : List (Candle N))
      → 0 < n
      → tail_of n (trim n (candles ++ (c ∷ [])) ++ more) ≡ tail_of n (candles ++ (c ∷ more))
  tail_of-trim n candles c more m =
      ap (λ xs. tail_of n (xs ++ more)) (trim-eq-tail_of n (candles ++ (c ∷ [])) m)
      ∙ tail_of-append n (candles ++ (c ∷ [])) more
      ∙ ap (tail_of n) (append_assoc candles (c ∷ []) more)

  add_prices-ahead :
      (ts : List (Tick N)) (config : TimeframeConfig) (candles : List (Candle N)) (c : Candle N)
      → 0 < config.interval_seconds
      → 0 < config.max_candles
      → length candles ≤ config.max_candles
      → add_prices ts (holding config candles (some c))
        ≡ ok (ahead config candles (continue config c (groups config ts)))
  unfolding add_prices
  add_prices-ahead [] config candles c i m l =
      let z : length (candles ++ []) - config.max_candles ≡ 0 =
        omega (arith, length-append candles []) in
      rw (z, append_nil candles) refl
  add_prices-ahead (t ∷ ts) config candles c i m l =
      rw (add_price-eq-at t.now t.price t.volume (holding config candles (some c)) i) (
        rw (add_price_at-holding config candles c t)
          (elim (Bool-cases (c.timestamp == start_of config t.now)) [
            | inl e ↦ rw e (
                add_prices-ahead ts config candles (update_candle t.price t.volume c) i m l
                ∙ ap (λ w. ok (ahead config candles w))
                    (continue-same config c t (groups config ts) e))
            | inr e ↦ rw e (
                let d = first_candle (start_of config t.now) t.price t.volume in
                let w = continue config d (groups config ts) in
                let f = front-continue config c d (groups config ts) in
                rw (continue-other config c t (groups config ts) e) (
                  rw (f.0, f.1)
                    (add_prices-ahead ts config (trim config.max_candles (candles ++ (c ∷ []))) d i
                        m (length-trim config.max_candles (candles ++ (c ∷ [])) m)
                      ∙ ap (λ xs. ok (holding config xs (back w)))
                          (tail_of-trim config.max_candles candles c (front w) m))))
          ]))

  -- Prices that come one by one into a new buffer leave the candles of the runs of prices of the same
  -- interval, the last as the current candle and the newest `max_candles` of the others, when the
  -- interval and `max_candles` are positive.
  pub add_prices-aggregate :
      (ts : List (Tick N)) (config : TimeframeConfig)
      → 0 < config.interval_seconds
      → 0 < config.max_candles
      → add_prices ts (new_buffer config) ≡ ok (ahead config [] (aggregate config ts))
  unfolding add_prices add_price_at
  add_prices-aggregate [] config i m = let z : 0 - config.max_candles ≡ 0 = omega arith in rw z refl
  add_prices-aggregate (t ∷ ts) config i m =
      rw (add_price-eq-at t.now t.price t.volume (new_buffer config) i) (
        rw (sym (continue-aggregate config t (groups config ts))) (
          add_prices-ahead ts config [] (first_candle (start_of config t.now) t.price t.volume) i m
            (omega arith)))
