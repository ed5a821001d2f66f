-- ===== src/Backtester/Engine/Steps.antt =====
-- keryxflow/backtester/engine.py: what the elementary changes keep, a run keeps.
use keryx_talos.Base.{
  ◌&&◌, back, map, length, ◌++◌, ltb, is_some, ◌∷◌, [], refl, Bool-cases, if_keeps, Option, List,
  ◌≡◌, Option-cases, none, some, false, inl, inr, ℕ, String,
}
use keryx_talos.Base.Dict.{Dict, lookup, insert}
use keryx_talos.Base.Result.{
  Exception, or_raise, Result-cases, OnOk-bind_any, OnOk, OnOk-bind, OnOk-any,
}
use keryx_talos.Number.{Number, Conversion, nought}
use keryx_talos.Aegis.Risk.{calculate_safe_position_size, RiskManager, OrderRequest, approve_order}
use keryx_talos.Backtester.Engine.{
  calculate_equity, SignalType, or_else, BacktestEngine, BacktestPosition, Bar, Ohlcv, Generator,
  MarketData, TradingSignal, nonzero, execute_order, settle, close_position, check_stops, exit_of,
  approve_and_execute, enter, process_signal, order_of,
}
use keryx_talos.Backtester.Engine.Candles.{
  history_of, get_mtf_history, get_of, mark, set_price, act, process_bar, process_frames,
  process_mtf_frames,
}
use keryx_talos.Backtester.Engine.Run.{
  close_last, replace_last, reset, liquidate, check_liquidation, finish_timestamp,
  process_timestamp, process_all, close_remaining, run, last_frame,
}

module _ {N : Type 0} ⦃num : Number N⦄ where
  open num use {le}

  -- An order that the engine may execute: for more than nothing, with a stop.
  abbrev pub IsPlaceable : OrderRequest N → Type 0
  IsPlaceable order =
      (le order.quantity nought ≡ false) × (stop : N) × (nonzero order.stop_loss ≡ some stop)

module _ {N : Type 0} {D : Type 0} ⦃num : Number N⦄ ⦃dec : Number D⦄ ⦃conv : Conversion N D⦄ where
  abbrev pub noting : RiskManager N D → List N → Option ℕ → BacktestEngine N D → BacktestEngine N D
  noting risk_manager equity_curve time e = record e {
    risk_manager = risk_manager;
    equity_curve = equity_curve;
    current_time = time;
  }

  -- A predicate that each change of the engine keeps.
  pub record IsKept (P : BacktestEngine N D → Type 0) : Type 0 where
    pub opened :
        (order : OrderRequest N) (e : BacktestEngine N D)
        → lookup order.symbol e.positions ≡ none
        → IsPlaceable order
        → P e
        → P (execute_order order e)
    pub settled :
        (symbol : String) (p : BacktestPosition N) (price : N) (reason : String) (now : ℕ)
        (e : BacktestEngine N D)
        → lookup symbol e.positions ≡ some p
        → P e
        → P (settle symbol p price reason now e)
    pub marked :
        (symbol : String) (p : BacktestPosition N) (price : N) (e : BacktestEngine N D)
        → lookup symbol e.positions ≡ some p
        → P e
        → P (record e { positions = insert symbol (set_price price p) e.positions })
    pub noted :
        (risk_manager : RiskManager N D) (equity_curve : List N) (time : Option ℕ)
        (e : BacktestEngine N D)
        → P e
        → P (noting risk_manager equity_curve time e)

  module _ {P : BacktestEngine N D → Type 0} (kept : IsKept P) where
    close_position-keeps :
        (symbol : String) (price : N) (reason : String) (now : ℕ) (e : BacktestEngine N D)
        → P e
        → P (close_position symbol price reason now e)
    unfolding close_position
    close_position-keeps symbol price reason now e w =
        elim (Option-cases (lookup symbol e.positions)) [
          | inl missing ↦ rw (missing, close_position) w
          | inr (p, h) ↦ rw (h, close_position) (kept.settled symbol p price reason now e h w)
        ]

    check_stops-keeps :
        (symbol : String) (high low : N) (now : ℕ) (e : BacktestEngine N D)
        → P e
        → P (check_stops symbol high low now e)
    unfolding check_stops
    check_stops-keeps symbol high low now e w = elim (Option-cases (lookup symbol e.positions)) [
      | inl missing ↦ rw (missing, check_stops) w
      | inr (p, h) ↦
          rw (h, check_stops)
            (elim (Option-cases (exit_of p high low)) [
              | inl stays ↦ rw (stays, check_stops) w
              | inr (r, leaves) ↦
                  rw (leaves, check_stops) (close_position-keeps symbol r.0 r.1 now e w)
            ])
    ]

    mark-keeps :
        (symbol : String) (price : N) (e : BacktestEngine N D) → P e → P (mark symbol price e)
    mark-keeps symbol price e w = elim (Option-cases (lookup symbol e.positions)) [
      | inl missing ↦ rw (missing, mark) w
      | inr (p, h) ↦ rw (h, mark) (kept.marked symbol p price e h w)
    ]

    approve_and_execute-keeps :
        (order : OrderRequest N) (now : ℕ) (e : BacktestEngine N D)
        → lookup order.symbol e.positions ≡ none
        → IsPlaceable order
        → P e
        → OnOk P (approve_and_execute order now e)
    unfolding approve_and_execute
    approve_and_execute-keeps order now e missing placeable w =
        OnOk-bind (λ _. Unit {0}) P (approve_order order (some e.balance) now e.risk_manager).1 _
          (OnOk-any _)
          (λ approval _.
            if_keeps P approval.approved
              (kept.opened order
                (noting (approve_order order (some e.balance) now e.risk_manager).0 e.equity_curve
                  e.current_time e)
                missing placeable (kept.noted _ e.equity_curve e.current_time e w))
              (kept.noted _ e.equity_curve e.current_time e w))

    enter-keeps :
        (symbol side : String) (signal : TradingSignal N) (price : N) (now : ℕ)
        (e : BacktestEngine N D)
        → P e
        → OnOk P (enter symbol side signal price now e)
    unfolding enter
    enter-keeps symbol side signal price now e w = elim (Option-cases (lookup symbol e.positions)) [
      | inr (p, h) ↦ rw (h, enter) w
      | inl missing ↦
          rw (missing, enter)
            (elim (Option-cases (nonzero signal.stop_loss)) [
              | inl unstopped ↦ rw (unstopped, enter) w
              | inr (stop, h) ↦
                  rw (h, enter)
                    (OnOk-bind (λ _. Unit {0}) P
                      (calculate_safe_position_size (or_else signal.entry_price price) stop
                        (some e.balance) e.risk_manager)
                      _ (OnOk-any _)
                      (λ quantity _. elim (Bool-cases (num.le quantity nought)) [
                        | inl little ↦ rw little w
                        | inr enough ↦ rw enough (
                            approve_and_execute-keeps (order_of symbol side quantity signal price)
                              now e missing (enough, stop, h) w)
                      ]))
            ])
    ]

    act_on-keeps :
        (t : SignalType) (symbol : String) (signal : TradingSignal N) (price : N) (now : ℕ)
        (e : BacktestEngine N D)
        → signal.signal_type ≡ t
        → P e
        → OnOk P (process_signal symbol signal price now e)
    unfolding process_signal
    act_on-keeps SignalType.long symbol signal price now e h w =
        rw (h, process_signal) (enter-keeps symbol "buy" signal price now e w)
    act_on-keeps SignalType.short symbol signal price now e h w =
        rw (h, process_signal) (enter-keeps symbol "sell" signal price now e w)
    act_on-keeps SignalType.close_long symbol signal price now e h w =
        rw (h, process_signal) (close_position-keeps symbol price "signal" now e w)
    act_on-keeps SignalType.close_short symbol signal price now e h w =
        rw (h, process_signal) (close_position-keeps symbol price "signal" now e w)
    act_on-keeps SignalType.no_action symbol signal price now e h w = rw (h, process_signal) w

    act-keeps :
        (generate : Generator N) (symbol : String) (ohlcv : Ohlcv N) (price : N) (now : ℕ)
        (e : BacktestEngine N D)
        → P e
        → OnOk P (act generate symbol ohlcv price now e)
    unfolding act
    act-keeps generate symbol ohlcv price now e w =
        elim (Result-cases (generate symbol ohlcv price)) [
          | inl (signal, h) ↦
              rw (h, act) (act_on-keeps signal.signal_type symbol signal price now e refl w)
          | inr (x, h) ↦ rw (h, act) w
        ]

    process_bar-keeps :
        (generate : Generator N) (symbol : String) (bar : Bar N) (ohlcv : Ohlcv N) (now : ℕ)
        (e : BacktestEngine N D)
        → P e
        → OnOk P (process_bar generate symbol bar ohlcv now e)
    unfolding process_bar
    process_bar-keeps generate symbol bar ohlcv now e w =
        let e₁ = check_stops symbol bar.high bar.low now (mark symbol bar.close e) in
        let w₁ =
          check_stops-keeps symbol bar.high bar.low now (mark symbol bar.close e)
            (mark-keeps symbol bar.close e w) in
        if_keeps (λ r. OnOk P r) (is_some (lookup symbol e.positions))
          (if_keeps (λ r. OnOk P r) (is_some (lookup symbol e₁.positions))
            (act-keeps generate symbol ohlcv bar.close now e₁ w₁) w₁)
          (act-keeps generate symbol ohlcv bar.close now e w)

    process_frames-keeps :
        (generate : Generator N) (timestamp now : ℕ) (d : Dict (List (Bar N)))
        (e : BacktestEngine N D)
        → P e
        → OnOk P (process_frames generate timestamp now d e)
    unfolding process_frames
    process_frames-keeps generate timestamp now [] e w = w
    process_frames-keeps generate timestamp now ((symbol, df) ∷ d) e w =
        OnOk-bind P P _ (λ e'. process_frames generate timestamp now d e')
          (if_keeps (λ r. OnOk P r) (ltb (length (history_of timestamp df)) e.min_candles) w
            (OnOk-bind_any P (or_raise (back (history_of timestamp df)) Exception.index_error) _
              (λ bar. process_bar-keeps generate symbol bar _ now e w)))
          (λ e' w'. process_frames-keeps generate timestamp now d e' w')

    process_mtf_frames-keeps :
        (generate : Generator N) (timestamp now : ℕ) (d : Dict (Dict (List (Bar N))))
        (e : BacktestEngine N D)
        → P e
        → OnOk P (process_mtf_frames generate timestamp now d e)
    unfolding process_mtf_frames
    process_mtf_frames-keeps generate timestamp now [] e w = w
    process_mtf_frames-keeps generate timestamp now ((symbol, tf_data) ∷ d) e w =
        OnOk-bind P P _ (λ e'. process_mtf_frames generate timestamp now d e')
          (elim (Option-cases (get_of e.primary_timeframe (get_mtf_history timestamp tf_data))) [
            | inl absent ↦ rw absent w
            | inr (primary, h) ↦ rw h (
                if_keeps (λ r. OnOk P r) (ltb (length primary) e.min_candles) w
                  (OnOk-bind_any P (or_raise (back primary) Exception.index_error) _
                    (λ bar. process_bar-keeps generate symbol bar _ now e w)))
          ])
          (λ e' w'. process_mtf_frames-keeps generate timestamp now d e' w')

    liquidate-keeps :
        (symbols : List String) (now : ℕ) (e : BacktestEngine N D)
        → P e
        → P (liquidate symbols now e)
    unfolding liquidate
    liquidate-keeps [] now e w = w
    liquidate-keeps (s ∷ ss) now e w = elim (Option-cases (lookup s e.positions)) [
      | inl missing ↦ rw (missing, liquidate) (liquidate-keeps ss now e w)
      | inr (p, h) ↦
          rw (h, liquidate)
            (liquidate-keeps ss now _
              (close_position-keeps s p.current_price "liquidation" now e w))
    ]

    check_liquidation-keeps :
        (total_equity : N) (now : ℕ) (e : BacktestEngine N D)
        → P e
        → P (check_liquidation total_equity now e)
    unfolding check_liquidation
    check_liquidation-keeps total_equity now e w =
        let e₁ = liquidate (map (λ q. q.0) e.positions) now e in
        if_keeps P
          (num.le total_equity (num.mul e.initial_balance (num.lit 1 2))
            && ltb 0 (length e.positions))
          (kept.noted e₁.risk_manager (replace_last (calculate_equity e₁) e₁.equity_curve)
            e₁.current_time e₁ (liquidate-keeps (map (λ q. q.0) e.positions) now e w))
          w

    finish_timestamp-keeps : (now : ℕ) (e : BacktestEngine N D) → P e → P (finish_timestamp now e)
    unfolding finish_timestamp
    finish_timestamp-keeps now e w =
        let curve = e.equity_curve ++ (calculate_equity e ∷ []) in
        kept.noted _ _ _ _ (
          check_liquidation-keeps (calculate_equity e) now _
            (kept.noted e.risk_manager curve e.current_time e w))

    process_timestamp-keeps :
        (generate : Generator N) (clock : ℕ → ℕ) (market : MarketData N) (t : ℕ)
        (e : BacktestEngine N D)
        → P e
        → OnOk P (process_timestamp generate clock market t e)
    unfolding process_timestamp
    process_timestamp-keeps generate clock (MarketData.single d) t e w =
        OnOk-bind P P _ _
          (process_frames-keeps generate t (clock t) d _
            (kept.noted e.risk_manager e.equity_curve (some t) e w))
          (λ e₁ w₁. finish_timestamp-keeps (clock t) e₁ w₁)
    process_timestamp-keeps generate clock (MarketData.multi d) t e w =
        OnOk-bind P P _ _
          (process_mtf_frames-keeps generate t (clock t) d _
            (kept.noted e.risk_manager e.equity_curve (some t) e w))
          (λ e₁ w₁. finish_timestamp-keeps (clock t) e₁ w₁)

    process_all-keeps :
        (generate : Generator N) (clock : ℕ → ℕ) (market : MarketData N) (ts : List ℕ)
        (e : BacktestEngine N D)
        → P e
        → OnOk P (process_all generate clock market ts e)
    unfolding process_all
    process_all-keeps generate clock market [] e w = w
    process_all-keeps generate clock market (t ∷ ts) e w =
        OnOk-bind P P _ _ (process_timestamp-keeps generate clock market t e w)
          (λ e₁ w₁. process_all-keeps generate clock market ts e₁ w₁)

    close_last-keeps :
        (o : Option (List (Bar N))) (s : String) (ending : ℕ) (e : BacktestEngine N D)
        → P e
        → OnOk P (close_last o s ending e)
    close_last-keeps none s ending e w = w
    close_last-keeps (some df) s ending e w =
        OnOk-bind_any P (or_raise (back df) Exception.index_error) _
          (λ bar. close_position-keeps s bar.close "end" ending e w)

    close_remaining-keeps :
        (market : MarketData N) (ending : ℕ) (symbols : List String) (e : BacktestEngine N D)
        → P e
        → OnOk P (close_remaining market ending symbols e)
    unfolding close_remaining
    close_remaining-keeps market ending [] e w = w
    close_remaining-keeps market ending (s ∷ ss) e w =
        OnOk-bind_any P (last_frame e.primary_timeframe s market) _ (λ last_df.
          OnOk-bind P P _ _ (close_last-keeps last_df s ending e w)
            (λ e₁ w₁. close_remaining-keeps market ending ss e₁ w₁))

    -- What holds of the engine that starts, and what each change keeps, holds of the engine that a
    -- run leaves.
    pub run-keeps :
        (generate : Generator N) (clock : ℕ → ℕ) (ending : ℕ) (market : MarketData N)
        (start end_time : Option ℕ) (e : BacktestEngine N D)
        → P (reset e)
        → OnOk P (run generate clock ending market start end_time e)
    unfolding run
    run-keeps generate clock ending market start end_time e w =
        OnOk-bind P P _ (λ e₁. close_remaining market ending (map (λ q. q.0) e₁.positions) e₁)
          (OnOk-bind_any P _ (λ _. process_all generate clock market _ (reset e))
            (λ _. process_all-keeps generate clock market _ (reset e) w))
          (λ e₁ w₁. close_remaining-keeps market ending (map (λ q. q.0) e₁.positions) e₁ w₁)
