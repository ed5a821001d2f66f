-- ===== src/Core/Engine/Halt.antt =====
-- keryxflow/core/engine.py: what a paused engine does.
use keryx_talos.Base.{
  sym, Bool, ◌≡◌, ◌∙◌, ap, refl, true, not, ◌||◌, str_eq, if_keeps, All, ℕ, String, List, Option,
  Option-cases, inl, inr, Side, [], ◌∷◌,
}
use keryx_talos.Number.{Number, Conversion}
use keryx_talos.Base.Result.{Result-cases}
use keryx_talos.Exchange.Paper.Book.{close_all_positions}
use keryx_talos.Aegis.Trailing.{TrailingStopManager, start_tracking, stop_tracking}
use keryx_talos.Core.Engine.{
  TradingEngine, Generator, on_price_update, on_position_opened, on_position_closed, truthy,
  on_panic,
}
use keryx_talos.Core.Engine.Events.{Event, handle, run}

-- No event but a resumption, which ends the pause, and a panic, which closes the positions.
abbrev pub IsQuiet : {N : Type 0} → Event N → Type 0
IsQuiet Event.system_resumed = ⊥
IsQuiet Event.panic_triggered = ⊥
IsQuiet _ = Unit

module _ {N : Type 0} {D : Type 0} ⦃num : Number N⦄ ⦃dec : Number D⦄ ⦃conv : Conversion N D⦄ where
  -- Nothing of the engine but the stops that it tracks is another.
  abbrev pub IsFrozen : TradingEngine N D → TradingEngine N D → Type 0
  IsFrozen e e' = (trailing : TrailingStopManager N) × (e' ≡ record e { trailing = trailing })

  opened-IsFrozen :
      (symbol : String) (side : Side) (entry_price : Option N) (e : TradingEngine N D)
      → IsFrozen e (on_position_opened symbol side entry_price e)
  unfolding on_position_opened
  opened-IsFrozen symbol side entry_price e =
      if_keeps (IsFrozen e) (not e.trailing_enabled || str_eq symbol "") (e.trailing, refl)
        (elim (Option-cases (truthy entry_price)) [
          | inl missing ↦ rw missing (e.trailing, refl)
          | inr (entry, h) ↦ rw h (
            start_tracking symbol side entry e.trailing_stop_pct e.trailing_activation_pct
                e.trailing,
            refl,
          )
        ])

  closed-IsFrozen :
      (symbol : String) (e : TradingEngine N D) → IsFrozen e (on_position_closed symbol e)
  unfolding on_position_closed
  closed-IsFrozen symbol e =
      if_keeps (IsFrozen e) (not e.trailing_enabled || str_eq symbol "") (e.trailing, refl)
        (stop_tracking symbol e.trailing, refl)

  on_price_update-paused :
      (generate : Generator N) (symbol : String) (price : Option N) (volume : N) (now : ℕ)
      (e : TradingEngine N D)
      → e.paused ≡ true
      → on_price_update generate symbol price volume now e ≡ e
  unfolding on_price_update
  on_price_update-paused generate symbol price volume now e h = simp (h) refl

  handle-IsFrozen :
      (generate : Generator N) (now : ℕ) (event : Event N) (e : TradingEngine N D)
      → IsQuiet event
      → e.paused ≡ true
      → IsFrozen e (handle generate now event e)
  handle-IsFrozen generate now (Event.price_update symbol price volume) e q h =
      (e.trailing, on_price_update-paused generate symbol price volume now e h)
  handle-IsFrozen generate now (Event.position_opened symbol side entry_price) e q h =
      opened-IsFrozen symbol side entry_price e
  handle-IsFrozen generate now (Event.position_closed symbol) e q h = closed-IsFrozen symbol e
  handle-IsFrozen generate now Event.system_paused e q h =
      let pause : Bool → TradingEngine N D = λ b. record e { paused = b } in
      (e.trailing, ap pause (sym h))
  handle-IsFrozen generate now Event.system_resumed e q h = absurd q
  handle-IsFrozen generate now Event.panic_triggered e q h = absurd q

  run-IsFrozen :
      (generate : Generator N) (events : List (ℕ × Event N)) (e : TradingEngine N D)
      → All (λ t. IsQuiet t.1) events
      → e.paused ≡ true
      → IsFrozen e (run generate events e)
  unfolding run
  run-IsFrozen generate [] e q h = (e.trailing, refl)
  run-IsFrozen generate ((now, event) ∷ events) e q h =
      let (t, same) = handle-IsFrozen generate now event e q.0 h in
      let (u, later) =
        run-IsFrozen generate events (handle generate now event e) q.1
          (ap (λ x. x.paused) same ∙ h) in
      let track : TradingEngine N D → TradingEngine N D = λ x. record x { trailing = u } in
      (u, later ∙ ap track same)

  on_panic-paused : (e : TradingEngine N D) → (on_panic e).paused ≡ true
  unfolding on_panic
  on_panic-paused e = elim (Result-cases (close_all_positions e.paper).1) [
    | inl (closed, h) ↦ rw (h, on_panic) refl
    | inr (x, h) ↦ rw (h, on_panic) refl
  ]

  -- After a panic, and until the engine is resumed or another panic comes, the events leave
  -- everything of it as the panic left it, except for the stops that it tracks: nothing is traded,
  -- no candle is kept and nothing is analyzed.
  pub run-on_panic-IsFrozen :
      (generate : Generator N) (events : List (ℕ × Event N)) (e : TradingEngine N D)
      → All (λ t. IsQuiet t.1) events
      → IsFrozen (on_panic e) (run generate events (on_panic e))
  run-on_panic-IsFrozen generate events e q =
      run-IsFrozen generate events (on_panic e) q (on_panic-paused e)
