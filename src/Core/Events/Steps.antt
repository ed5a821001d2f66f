-- ===== src/Core/Events/Steps.antt =====
-- keryxflow/core/events.py: the bus among tasks that interleave at each `await`.
use keryx_talos.Base.{
  length-append, sym, append_assoc, ap, ◌∙◌, arith, subst, refl, suc, ◌≤◌, length, ◌<◌, ◌++◌, ◌≡◌,
  ◌∷◌, [], none, some, true, false, ℕ, List,
}
use keryx_talos.Core.Events.{
  EventType, Event, EventBus, HandlerCall, new, subscribe, unsubscribe, publish, is_full, enqueue,
  dispatch, start, stop,
}

-- A bus, with the events that entered its queue and those that the processor took, in order, and the
-- calls that it made.
pub record History (A : Type 0) : Type 0 where
  pub bus : EventBus A
  pub accepted : List (Event A)
  pub taken : List (Event A)
  pub calls : List (HandlerCall A)

module _ {A : Type 0} where
  abbrev pub with_bus : EventBus A → History A → History A
  with_bus b s = record s { bus = b }

  abbrev pub started : ℕ → History A
  started max_queue_size = record {
    bus = new max_queue_size;
    accepted = [];
    taken = [];
    calls = [];
  }

  -- A step of one of the tasks.
  pub data Step (s : History A) : History A → Type 0 where
    subscribes : (t : EventType) (h : ℕ) → Step s (with_bus (subscribe t h s.bus) s)
    unsubscribes : (t : EventType) (h : ℕ) → Step s (with_bus (unsubscribe t h s.bus) s)
    publishes :
        (e : Event A)
        → is_full s.bus ≡ false
        → Step s (record s { bus = publish e s.bus; accepted = s.accepted ++ (e ∷ []) })
    waits : (e : Event A) → is_full s.bus ≡ true → Step s (with_bus (publish e s.bus) s)
    -- A `put` that waited finds room.
    enters :
        (before after : List (Event A)) (e : Event A)
        → s.bus.waiting ≡ before ++ (e ∷ after)
        → is_full s.bus ≡ false
        → Step s (record s {
          bus = enqueue e (record (s.bus) { waiting = before ++ after });
          accepted = s.accepted ++ (e ∷ []);
        })
    publishes_sync : (e : Event A) → Step s (record s { calls = s.calls ++ dispatch e s.bus })
    takes :
        (e : Event A) (es : List (Event A))
        → s.bus.running ≡ true
        → s.bus.processing ≡ none
        → s.bus.queue ≡ e ∷ es
        → Step s (record s {
          bus = record (s.bus) { queue = es; processing = some e };
          taken = s.taken ++ (e ∷ []);
          calls = s.calls ++ dispatch e s.bus;
        })
    finishes : Step s (with_bus (record (s.bus) { processing = none }) s)
    starts : Step s (with_bus (start s.bus) s)
    stops : Step s (with_bus (stop s.bus) s)

  -- The states that a bus of a size can come to.
  pub data Reach (max_queue_size : ℕ) : History A → Type 0 where
    here : Reach max_queue_size (started max_queue_size)
    next : {s t : History A} → Reach max_queue_size s → Step s t → Reach max_queue_size t

  -- The queue has the room that it was given, and what is in it is what entered it and has not been
  -- taken, in the order in which it entered.
  pub record IsFifo (max_queue_size : ℕ) (s : History A) : Type 0 where
    pub size_eq : s.bus.max_queue_size ≡ max_queue_size
    pub bounded : 0 < max_queue_size → length s.bus.queue ≤ max_queue_size
    pub in_order : s.accepted ≡ s.taken ++ s.bus.queue

  kept-IsFifo :
      (n : ℕ) (b : EventBus A) (s : History A)
      → b.max_queue_size ≡ s.bus.max_queue_size
      → b.queue ≡ s.bus.queue
      → IsFifo n s
      → IsFifo n (with_bus b s)
  kept-IsFifo n b s m q w = record {
    size_eq = m ∙ w.size_eq;
    bounded = λ h. subst (λ x. length x ≤ n) (sym q) (w.bounded h);
    in_order = w.in_order ∙ ap (λ x. s.taken ++ x) (sym q);
  }

  room-length :
      (b : EventBus A) (e : Event A) (n : ℕ)
      → b.max_queue_size ≡ n
      → is_full b ≡ false
      → 0 < n
      → length (b.queue ++ (e ∷ [])) ≤ n
  room-length b e n m f h = ground (arith, length-append b.queue (e ∷ []))

  entered-IsFifo :
      (n : ℕ) (e : Event A) (waiting : List (Event A)) (s : History A)
      → is_full s.bus ≡ false
      → IsFifo n s
      → IsFifo n (record s {
        bus = enqueue e (record (s.bus) { waiting = waiting });
        accepted = s.accepted ++ (e ∷ []);
      })
  entered-IsFifo n e waiting s room w = record {
    size_eq = w.size_eq;
    bounded = room-length s.bus e n w.size_eq room;
    in_order = ap (λ x. x ++ (e ∷ [])) w.in_order ∙ append_assoc s.taken s.bus.queue (e ∷ []);
  }

  taken-IsFifo :
      (n : ℕ) (e : Event A) (es : List (Event A)) (calls : List (HandlerCall A)) (s : History A)
      → s.bus.queue ≡ e ∷ es
      → IsFifo n s
      → IsFifo n (record s {
        bus = record (s.bus) { queue = es; processing = some e };
        taken = s.taken ++ (e ∷ []);
        calls = calls;
      })
  taken-IsFifo n e es calls s h w = record {
    size_eq = w.size_eq;
    bounded =
        λ i. let k : suc (length es) ≤ n = subst (λ x. length x ≤ n) h (w.bounded i) in omega arith;
    in_order = w.in_order ∙ ap (λ x. s.taken ++ x) h ∙ sym (append_assoc s.taken (e ∷ []) es);
  }

  unsubscribe-queue :
      (t : EventType) (h : ℕ) (b : EventBus A)
      → ((unsubscribe t h b).max_queue_size ≡ b.max_queue_size)
        × ((unsubscribe t h b).queue ≡ b.queue)
  unfolding unsubscribe
  unsubscribe-queue t h b = ground arith

  Step-IsFifo : (n : ℕ) {s t : History A} → Step s t → IsFifo n s → IsFifo n t
  unfolding subscribe publish start stop
  Step-IsFifo n {s} (subscribes t h) w = kept-IsFifo n (subscribe t h s.bus) s refl refl w
  Step-IsFifo n {s} (unsubscribes t h) w =
      let q = unsubscribe-queue t h s.bus in kept-IsFifo n (unsubscribe t h s.bus) s q.0 q.1 w
  Step-IsFifo n {s} (publishes e room) w =
      rw (room, publish) (entered-IsFifo n e s.bus.waiting s room w)
  Step-IsFifo n {s} (waits e full) w = rw (full, publish) (kept-IsFifo n _ s refl refl w)
  Step-IsFifo n {s} (enters before after e h room) w = entered-IsFifo n e (before ++ after) s room w
  Step-IsFifo n {s} (publishes_sync e) w = record {
    size_eq = w.size_eq;
    bounded = w.bounded;
    in_order = w.in_order;
  }
  Step-IsFifo n {s} (takes e es r p h) w = taken-IsFifo n e es _ s h w
  Step-IsFifo n {s} finishes w = kept-IsFifo n _ s refl refl w
  Step-IsFifo n {s} starts w = kept-IsFifo n (start s.bus) s (ground arith) (ground arith) w
  Step-IsFifo n {s} stops w = kept-IsFifo n (stop s.bus) s (ground arith) (ground arith) w

  -- However the tasks interleave, the processor takes the events in the order in which they entered
  -- the queue, each once, the queue holds those that it has not taken yet, and with a positive size
  -- never more than its size.
  pub Reach-IsFifo : (n : ℕ) {s : History A} → Reach n s → IsFifo n s
  Reach-IsFifo n here = record { size_eq = refl; bounded = λ h. omega arith; in_order = refl }
  Reach-IsFifo n (next r st) = Step-IsFifo n st (Reach-IsFifo n r)
