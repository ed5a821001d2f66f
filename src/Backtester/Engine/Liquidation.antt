-- ===== src/Backtester/Engine/Liquidation.antt =====
-- keryxflow/backtester/engine.py: closing all positions.
use keryx_talos.Base.Result.{Exception, or_raise, ok, OnOk-bind_any, OnOk-bind, OnOk}
use keryx_talos.Base.{
  back, Option, Bool-cases, length, ltb, ◌⊎◌, some, false, subst, refl, sym, eq_iff, arith, All,
  eq_refl, Option-cases, map, ◌≡◌, List, ◌∷◌, [], true, inl, inr, ℕ, String,
}
use keryx_talos.Base.Dict.{Dict, lookup, erase, erase-missing}
use keryx_talos.Number.{Number, Conversion}
use keryx_talos.Aegis.Guardrails.{member}
use keryx_talos.Backtester.Engine.{
  MarketData, Bar, Generator, calculate_equity, BacktestEngine, settle, close_position,
}
use keryx_talos.Backtester.Engine.Run.{
  close_last, check_liquidation, finish_timestamp, run, close_remaining, process_timestamp,
  liquidate,
}

module _ {V : Type 0} where
  -- The keys of a dict are among those of a list.
  abbrev Within : List String → Dict V → Type 0
  Within symbols d = All (λ e. member e.0 symbols ≡ true) d

  Within-cons : (s : String) (ss : List String) (d : Dict V) → Within ss d → Within (s ∷ ss) d
  Within-cons s ss [] w = tt
  Within-cons s ss (e ∷ d) w = ground (arith, Within-cons s ss d)

  Within-keys : (d : Dict V) → Within (map (λ e. e.0) d) d
  Within-keys [] = tt
  Within-keys (e ∷ d) = (rw (eq_refl e.0) refl, Within-cons e.0 _ d (Within-keys d))

  erase-Within :
      (s : String) (ss : List String) (d : Dict V) → Within (s ∷ ss) d → Within ss (erase s d)
  erase-Within s ss [] w = tt
  erase-Within s ss (e ∷ d) w = ground (arith, erase-Within s ss d, eq_iff s e.0, eq_iff e.0 s)

  Within-nil : (d : Dict V) → Within [] d → d ≡ []
  Within-nil [] w = refl
  Within-nil (e ∷ d) w = ground arith

  no_entries : (d : Dict V) → ltb 0 (length d) ≡ false → d ≡ []
  no_entries [] h = refl
  no_entries (e ∷ d) h = ground arith

module _ {N : Type 0} {D : Type 0} ⦃num : Number N⦄ ⦃dec : Number D⦄ ⦃conv : Conversion N D⦄ where
  close_position-erase :
      (symbol : String) (price : N) (reason : String) (now : ℕ) (e : BacktestEngine N D)
      → (close_position symbol price reason now e).positions ≡ erase symbol e.positions
  unfolding close_position settle
  close_position-erase symbol price reason now e = elim (Option-cases (lookup symbol e.positions)) [
    | inl missing ↦ rw (missing, close_position) (sym (erase-missing symbol e.positions missing))
    | inr (p, h) ↦ rw (h, close_position) refl
  ]

  liquidate-none :
      (symbols : List String) (now : ℕ) (e : BacktestEngine N D)
      → Within symbols e.positions
      → (liquidate symbols now e).positions ≡ []
  unfolding liquidate
  liquidate-none [] now e w = Within-nil e.positions w
  liquidate-none (s ∷ ss) now e w = elim (Option-cases (lookup s e.positions)) [
    | inl missing ↦
        rw (missing, liquidate)
          (liquidate-none ss now e (
            subst (λ d. Within ss d) (erase-missing s e.positions missing)
              (erase-Within s ss e.positions w)))
    | inr (p, h) ↦
        rw (h, liquidate)
          (liquidate-none ss now _ (
            subst (λ d. Within ss d)
              (sym (close_position-erase s p.current_price "liquidation" now e))
              (erase-Within s ss e.positions w)))
  ]

  -- No position is left, or the equity is above a hundredth of the initial balance.
  abbrev pub IsCovered : BacktestEngine N D → Type 0
  IsCovered e =
      (e.positions ≡ [])
      ⊎ (num.le (calculate_equity e) (num.mul e.initial_balance (num.lit 1 2)) ≡ false)

  finish_timestamp-IsCovered :
      (now : ℕ) (e : BacktestEngine N D) → IsCovered (finish_timestamp now e)
  unfolding finish_timestamp check_liquidation
  finish_timestamp-IsCovered now e =
      elim (Bool-cases (num.le (calculate_equity e) (num.mul e.initial_balance (num.lit 1 2)))) [
        | inr above ↦ rw above (inr above)
        | inl below ↦ rw below (elim (Bool-cases (ltb 0 (length e.positions))) [
          | inr flat ↦ rw flat (inl (no_entries e.positions flat))
          | inl held ↦
              rw held
                (inl (liquidate-none (map (λ q. q.0) e.positions) now _ (Within-keys e.positions)))
        ])
      ]

  -- After each timestamp of a run, either no position is open or the equity is above 1% of the initial
  -- balance: what the signals did, and what closing the positions brought, makes no difference.
  pub process_timestamp-IsCovered :
      (generate : Generator N) (clock : ℕ → ℕ) (market : MarketData N) (t : ℕ)
      (e : BacktestEngine N D)
      → OnOk IsCovered (process_timestamp generate clock market t e)
  unfolding process_timestamp
  process_timestamp-IsCovered generate clock market t e =
      OnOk-bind_any IsCovered _ (λ e₁. ok (finish_timestamp (clock t) e₁))
        (λ e₁. finish_timestamp-IsCovered (clock t) e₁)

  close_remaining-none :
      (d : Dict (List (Bar N))) (ending : ℕ) (symbols : List String) (e : BacktestEngine N D)
      → Within symbols e.positions
      → OnOk (λ e'. e'.positions ≡ []) (close_remaining (MarketData.single d) ending symbols e)
  unfolding close_remaining
  close_remaining-none d ending [] e w = Within-nil e.positions w
  close_remaining-none d ending (s ∷ ss) e w = elim (Option-cases (lookup s d)) [
    | inl missing ↦ rw (missing, close_remaining) tt
    | inr (df, h) ↦
        rw (h, close_remaining)
          (OnOk-bind (λ e'. Within ss e'.positions) (λ e'. e'.positions ≡ [])
            (close_last (some df) s ending e)
            (λ e₁. close_remaining (MarketData.single d) ending ss e₁)
            (OnOk-bind_any (λ e'. Within ss e'.positions) (or_raise (back df) Exception.index_error)
              _
              (λ bar.
                subst (λ q. Within ss q) (sym (close_position-erase s bar.close "end" ending e))
                  (erase-Within s ss e.positions w)))
            (λ e₁ w₁. close_remaining-none d ending ss e₁ w₁))
  ]

  -- A run over one timeframe that returns leaves no open position, whatever the signals and the
  -- prices were.
  pub run-flat :
      (generate : Generator N) (clock : ℕ → ℕ) (ending : ℕ) (d : Dict (List (Bar N)))
      (start end_time : Option ℕ) (e : BacktestEngine N D)
      → OnOk
          (λ e'. e'.positions ≡ [])
          (run generate clock ending (MarketData.single d) start end_time e)
  unfolding run
  run-flat generate clock ending d start end_time e =
      OnOk-bind_any (λ e'. e'.positions ≡ []) _
        (λ e₁. close_remaining (MarketData.single d) ending (map (λ q. q.0) e₁.positions) e₁)
        (λ e₁.
          close_remaining-none d ending (map (λ q. q.0) e₁.positions) e₁ (Within-keys e₁.positions))
