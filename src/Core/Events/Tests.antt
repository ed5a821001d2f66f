-- ===== src/Core/Events/Tests.antt =====
-- A bus with room for two events, and the theorems about buses at it.
use keryx_talos.Base.{◌∷◌, [], none, false, ℕ, List, refl, arith, true, ◌≡◌, if◌then◌else◌}
use keryx_talos.Core.Events.{EventType, Event, EventBus, new, publish, dispatch, process_events}
use keryx_talos.Core.Events.Steps.{History, Step, Reach, IsFifo, Reach-IsFifo}
use keryx_talos.Core.Events.Handlers.{Change, changes, times, wanted, times-dispatch}
use keryx_talos.Core.Events.Draining.{dispatch_all, process_events-drains}

abbrev event : ℕ → Event ℕ
event n = record { type = EventType.price_update; timestamp = n; content = n }

abbrev subscriptions : List Change
subscriptions =
    Change.subscribed EventType.price_update 7
    ∷ Change.subscribed EventType.price_update 8
    ∷ Change.subscribed EventType.price_update 7
    ∷ Change.unsubscribed EventType.price_update 8
    ∷ []

times-dispatch_example :
    times 7 (dispatch (event 1) (changes subscriptions (new {A = ℕ} 2)))
    ≡ (if wanted EventType.price_update 7 false subscriptions then 1 else 0)
times-dispatch_example = times-dispatch subscriptions 2 (event 1) 7

-- Two events in the queue, with a handler.
abbrev loaded : EventBus ℕ
loaded = record {
  subscribers = ("price_update", 7 ∷ []) ∷ [];
  queue = event 1 ∷ event 2 ∷ [];
  waiting = [];
  max_queue_size = 2;
  running = true;
  processing = none;
}

process_events-drains_example :
    process_events 3 loaded
    ≡ (record loaded { queue = [] }, dispatch_all (event 1 ∷ event 2 ∷ []) loaded)
process_events-drains_example =
    process_events-drains (event 1 ∷ event 2 ∷ []) 3 loaded (omega arith) refl refl

abbrev one_in : History ℕ
one_in = record {
  bus = record {
    subscribers = [];
    queue = event 1 ∷ [];
    waiting = [];
    max_queue_size = 1;
    running = false;
    processing = none;
  };
  accepted = event 1 ∷ [];
  taken = [];
  calls = [];
}

full : Reach 1 one_in
unfolding publish
full = Reach.next Reach.here (Step.publishes (event 1) refl)

Reach-IsFifo_example : IsFifo 1 one_in
Reach-IsFifo_example = Reach-IsFifo 1 full
