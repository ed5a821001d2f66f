-- ===== src/Core/Engine/Events.antt =====
-- keryxflow/core/engine.py: the events that `start` subscribes the engine to, and a sequence of them.
use keryx_talos.Base.{ℕ, String, List, Option, Side, [], ◌∷◌}
use keryx_talos.Number.{Number, Conversion}
use keryx_talos.Core.Engine.{
  TradingEngine, Generator, on_price_update, on_position_opened, on_position_closed, on_pause,
  on_resume, on_panic,
}

-- An event of a type that the engine handles, with the data that the handler reads.
pub data Event (N : Type 0) : Type 0 where
  price_update : String → Option N → N → Event N
  position_opened : String → Side → Option N → Event N
  position_closed : String → Event N
  system_paused : Event N
  system_resumed : Event N
  panic_triggered : Event N

module _ {N : Type 0} {D : Type 0} ⦃num : Number N⦄ ⦃dec : Number D⦄ ⦃conv : Conversion N D⦄ where
  abbrev pub handle : Generator N → ℕ → Event N → TradingEngine N D → TradingEngine N D
  handle generate now (Event.price_update symbol price volume) e =
      on_price_update generate symbol price volume now e
  handle generate now (Event.position_opened symbol side entry_price) e =
      on_position_opened symbol side entry_price e
  handle generate now (Event.position_closed symbol) e = on_position_closed symbol e
  handle generate now Event.system_paused e = on_pause e
  handle generate now Event.system_resumed e = on_resume e
  handle generate now Event.panic_triggered e = on_panic e

  unfoldable pub run : Generator N → List (ℕ × Event N) → TradingEngine N D → TradingEngine N D
  run generate [] e = e
  run generate ((now, event) ∷ events) e = run generate events (handle generate now event e)
