-- ===== src/Core/Events.antt =====
-- keryxflow/core/events.py: `EventBus`. An exception of a handler is caught and logged by
-- `_safe_call`, so a dispatch is the calls that it makes.
mod State
pub mod Steps
pub mod Handlers
pub mod Draining
mod Tests
pub use State.*
use keryx_talos.Base.{
  leb, ◌||◌, ◌&&◌, ◌==◌, length, if◌then◌else◌, ltb, ◌++◌, map, ◌∷◌, [], none, some, true, false,
  zero, suc, ℕ, Bool, List,
}
use keryx_talos.Base.Dict.{lookup, insert}

abbrev pub has : ℕ → List ℕ → Bool
has h [] = false
has h (x ∷ xs) = x == h || has h xs

-- `list.remove` of what is in the list: the first.
abbrev pub remove : ℕ → List ℕ → List ℕ
remove h [] = []
remove h (x ∷ xs) = if x == h then xs else x ∷ remove h xs

module _ {A : Type 0} where
  abbrev pub new : ℕ → EventBus A
  new max_queue_size = record {
    subscribers = [];
    queue = [];
    waiting = [];
    max_queue_size = max_queue_size;
    running = false;
    processing = none;
  }

  -- `self._subscribers.get(event_type, [])`
  abbrev pub handlers_of : EventType → EventBus A → List ℕ
  handlers_of event_type b = elim (lookup (value event_type) b.subscribers) [
    | none ↦ []
    | some hs ↦ hs
  ]

  abbrev pub with_handlers : EventType → List ℕ → EventBus A → EventBus A
  with_handlers event_type handlers b = record b {
    subscribers = insert (value event_type) handlers b.subscribers;
  }

  unfoldable pub subscribe : EventType → ℕ → EventBus A → EventBus A
  subscribe event_type handler b =
      let handlers = handlers_of event_type b in
      with_handlers event_type
        (if has handler handlers then handlers else handlers ++ (handler ∷ [])) b

  unfoldable pub unsubscribe : EventType → ℕ → EventBus A → EventBus A
  unsubscribe event_type handler b =
      let handlers = handlers_of event_type b in
      if has handler handlers then with_handlers event_type (remove handler handlers) b else b

  -- `asyncio.Queue.full`: a maximum of 0 is none.
  abbrev pub is_full : EventBus A → Bool
  is_full b = ltb 0 b.max_queue_size && leb b.max_queue_size (length b.queue)

  abbrev pub enqueue : Event A → EventBus A → EventBus A
  enqueue event b = record b { queue = b.queue ++ (event ∷ []) }

  -- `publish` up to where its `put` returns or waits.
  unfoldable pub publish : Event A → EventBus A → EventBus A
  publish event b =
      if is_full b then record b { waiting = b.waiting ++ (event ∷ []) } else enqueue event b

  unfoldable pub dispatch : Event A → EventBus A → List (HandlerCall A)
  dispatch event b = map (λ h. (h, event)) (handlers_of event.type b)

  -- `publish_sync`
  abbrev pub publish_sync : Event A → EventBus A → List (HandlerCall A)
  publish_sync event b = dispatch event b

  -- What a `get` makes of the queue: a timeout, or the first event, which is dispatched.
  abbrev pub receive : EventBus A → List (Event A) → EventBus A × List (HandlerCall A)
  receive b [] = (b, [])
  receive b (e ∷ es) = (record b { queue = es }, dispatch e b)

  -- A round of `_process_events`.
  unfoldable pub process_event : EventBus A → EventBus A × List (HandlerCall A)
  process_event b = receive b b.queue

  -- The first rounds of `_process_events`.
  unfoldable pub process_events : ℕ → EventBus A → EventBus A × List (HandlerCall A)
  process_events zero b = (b, [])
  process_events (suc n) b =
      let r = process_event b in
      let rest = process_events n r.0 in if b.running then (rest.0, r.1 ++ rest.1) else (b, [])

  unfoldable pub start : EventBus A → EventBus A
  start b = if b.running then b else record b { running = true }

  -- The processor is cancelled, with the handlers that it waits for.
  unfoldable pub stop : EventBus A → EventBus A
  stop b = if b.running then record b { running = false; processing = none } else b

  abbrev pub queue_size : EventBus A → ℕ
  queue_size b = length b.queue
