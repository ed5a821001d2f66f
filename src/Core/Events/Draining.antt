-- ===== src/Core/Events/Draining.antt =====
-- keryxflow/core/events.py: the processor empties the queue.
use keryx_talos.Base.{
  arith, ◌≤◌, ◌∙◌, ap, sym, refl, zero, suc, length, ◌≡◌, ◌++◌, ◌∷◌, [], true, ℕ, List,
}
use keryx_talos.Core.Events.{
  Event, EventBus, HandlerCall, dispatch, process_event, process_events, receive,
}

module _ {A : Type 0} where
  -- The calls for each event in turn.
  abbrev pub dispatch_all : List (Event A) → EventBus A → List (HandlerCall A)
  dispatch_all [] b = []
  dispatch_all (e ∷ es) b = dispatch e b ++ dispatch_all es b

  process_event-empty : (b : EventBus A) → b.queue ≡ [] → process_event b ≡ (b, [])
  unfolding process_event
  process_event-empty b h = ap (receive b) h

  process_event-cons :
      (e : Event A) (es : List (Event A)) (b : EventBus A)
      → b.queue ≡ e ∷ es
      → process_event b ≡ (record b { queue = es }, dispatch e b)
  unfolding process_event
  process_event-cons e es b h = ap (receive b) h

  process_events-suc :
      (n : ℕ) (b c : EventBus A) (calls : List (HandlerCall A))
      → b.running ≡ true
      → process_event b ≡ (c, calls)
      → process_events (suc n) b ≡ ((process_events n c).0, calls ++ (process_events n c).1)
  unfolding process_events
  process_events-suc n b c calls r h = rw (h, r, process_events) refl

  idle_rounds :
      (n : ℕ) (b : EventBus A)
      → b.running ≡ true
      → b.queue ≡ []
      → process_events n b ≡ (record b { queue = [] }, [])
  unfolding process_events
  idle_rounds zero b r h = rw (sym h) refl
  idle_rounds (suc n) b r h =
      process_events-suc n b b [] r (process_event-empty b h) ∙ idle_rounds n b r h

  dispatch-queue :
      (es : List (Event A)) (q : List (Event A)) (b : EventBus A)
      → dispatch_all es (record b { queue = q }) ≡ dispatch_all es b
  unfolding dispatch
  dispatch-queue [] q b = refl
  dispatch-queue (e ∷ es) q b = ap (λ x. dispatch e b ++ x) (dispatch-queue es q b)

  -- A processor that runs takes every event that is in the queue, and calls for each, in order, the
  -- handlers that are subscribed to its type: with nothing published meanwhile, as many rounds as
  -- there are events are enough, and more rounds do nothing.
  pub process_events-drains :
      (es : List (Event A)) (n : ℕ) (b : EventBus A)
      → length es ≤ n
      → b.running ≡ true
      → b.queue ≡ es
      → process_events n b ≡ (record b { queue = [] }, dispatch_all es b)
  process_events-drains [] n b l r h = idle_rounds n b r h
  process_events-drains (e ∷ es) zero b l r h = absurd (omega arith)
  process_events-drains (e ∷ es) (suc n) b l r h =
      let c = record b { queue = es } in
      process_events-suc n b c (dispatch e b) r (process_event-cons e es b h)
      ∙ ap (λ p. (p.0, dispatch e b ++ p.1)) (process_events-drains es n c (omega arith) r refl)
      ∙ ap (λ x. (record b { queue = [] }, dispatch e b ++ x)) (dispatch-queue es es b)
