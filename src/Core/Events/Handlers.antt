-- ===== src/Core/Events/Handlers.antt =====
-- keryxflow/core/events.py: who is called for an event.
use keryx_talos.Base.Dict.{lookup-insert, lookup}
use keryx_talos.Base.{
  suc, map, Bool-cases, if_keeps, subst, inl, inr, eq_iff, ◌∙◌, sym, if◌then◌else◌, ap, str_eq,
  Bool, none, some, true, ◌&&◌, ◌==◌, not, ◌||◌, ◌++◌, ◌≡◌, arith, ◌∷◌, [], false, refl, ℕ, List,
}
use keryx_talos.Core.Events.{
  HandlerCall, new, Event, dispatch, value, with_handlers, handlers_of, EventType, EventBus,
  subscribe, unsubscribe, has, remove,
}

has-append : (h k : ℕ) (xs : List ℕ) → has h (xs ++ (k ∷ [])) ≡ (has h xs || k == h)
has-append h k [] = ground arith
has-append h k (x ∷ xs) = ground (arith, has-append h k xs)

-- No handler stands twice.
abbrev pub Distinct : List ℕ → Type 0
Distinct [] = Unit
Distinct (x ∷ xs) = (has x xs ≡ false) × Distinct xs

has-remove :
    (h k : ℕ) (xs : List ℕ) → Distinct xs → has h (remove k xs) ≡ (not (k == h) && has h xs)
has-remove h k [] d = ground arith
has-remove h k (x ∷ xs) d = ground (arith, has-remove h k xs)

append-Distinct : (h : ℕ) (xs : List ℕ) → has h xs ≡ false → Distinct xs → Distinct (xs ++ (h ∷ []))
append-Distinct h [] e d = (refl, tt)
append-Distinct h (x ∷ xs) e d = ground (arith, append-Distinct h xs, has-append x h xs)

remove-Distinct : (h : ℕ) (xs : List ℕ) → Distinct xs → Distinct (remove h xs)
remove-Distinct h [] d = tt
remove-Distinct h (x ∷ xs) d = ground (arith, remove-Distinct h xs, has-remove x h xs)

has-added :
    (k h : ℕ) (hs : List ℕ) → has h (if has k hs then hs else hs ++ (k ∷ [])) ≡ (has h hs || k == h)
has-added k h hs = elim (Bool-cases (has k hs)) [
  | inl p ↦ rw p (elim (Bool-cases (k == h)) [
    | inl e ↦
        let q : k ≡ h = ground arith in
        rw e (subst (λ x. has x hs ≡ (has x hs || true)) q (rw p refl))
    | inr n ↦ rw n (ground arith)
  ])
  | inr a ↦ rw a (has-append h k hs)
]

has-absent : (k h : ℕ) (hs : List ℕ) → has k hs ≡ false → has h hs ≡ (has h hs && not (k == h))
has-absent k h hs a = elim (Bool-cases (k == h)) [
  | inl e ↦
      let q : k ≡ h = ground arith in
      rw e (subst (λ x. has x hs ≡ (has x hs && false)) q (rw a refl))
  | inr n ↦ rw n (ground arith)
]

added-Distinct :
    (k : ℕ) (hs : List ℕ) → Distinct hs → Distinct (if has k hs then hs else hs ++ (k ∷ []))
added-Distinct k hs d = elim (Bool-cases (has k hs)) [
  | inl p ↦ rw p d
  | inr a ↦ rw a (append-Distinct k hs a d)
]

-- A change of the subscriptions.
pub data Change : Type 0 where
  subscribed : EventType → ℕ → Change
  unsubscribed : EventType → ℕ → Change

abbrev pub same_type : EventType → EventType → Bool
same_type u t = str_eq (value u) (value t)

-- Whether a handler is to be called for a type, by the last change of the two.
abbrev pub wanted : EventType → ℕ → Bool → List Change → Bool
wanted t h before [] = before
wanted t h before (subscribed u k ∷ cs) = wanted t h (before || (same_type u t && k == h)) cs
wanted t h before (unsubscribed u k ∷ cs) = wanted t h (before && not (same_type u t && k == h)) cs

module _ {A : Type 0} where
  abbrev pub change : Change → EventBus A → EventBus A
  change (subscribed t h) b = subscribe t h b
  change (unsubscribed t h) b = unsubscribe t h b

  unfoldable pub changes : List Change → EventBus A → EventBus A
  changes [] b = b
  changes (c ∷ cs) b = changes cs (change c b)

  handlers-with :
      (u t : EventType) (hs : List ℕ) (b : EventBus A)
      → handlers_of t (with_handlers u hs b) ≡ (if same_type u t then hs else handlers_of t b)
  handlers-with u t hs b =
      ap (λ o. elim o [ none ↦ [] | some x ↦ x ])
        (lookup-insert (value u) (value t) hs b.subscribers)
      ∙ ground arith

  handlers-same :
      (u t : EventType) (b : EventBus A) → same_type u t ≡ true → handlers_of t b ≡ handlers_of u b
  handlers-same u t b e =
      ap (λ v. elim (lookup v b.subscribers) [ none ↦ [] | some x ↦ x ])
        (sym ((eq_iff (value u) (value t)).0 e))

  has-subscribe :
      (u t : EventType) (k h : ℕ) (b : EventBus A)
      → has h (handlers_of t (subscribe u k b))
        ≡ (has h (handlers_of t b) || (same_type u t && k == h))
  unfolding subscribe
  has-subscribe u t k h b =
      let hs = handlers_of u b in
      rw (handlers-with u t (if has k hs then hs else hs ++ (k ∷ [])) b)
        (elim (Bool-cases (same_type u t)) [
          | inl s ↦ rw (s, handlers-same u t b s) (has-added k h hs)
          | inr o ↦ rw o (ground arith)
        ])

  has-unsubscribe :
      (u t : EventType) (k h : ℕ) (b : EventBus A)
      → Distinct (handlers_of u b)
      → has h (handlers_of t (unsubscribe u k b))
        ≡ (has h (handlers_of t b) && not (same_type u t && k == h))
  unfolding unsubscribe
  has-unsubscribe u t k h b d =
      let hs = handlers_of u b in
      elim (Bool-cases (has k hs)) [
        | inl p ↦
            rw (p, unsubscribe)
              (rw (handlers-with u t (remove k hs) b) (elim (Bool-cases (same_type u t)) [
                | inl s ↦ rw (s, handlers-same u t b s) (ground (arith, has-remove h k hs))
                | inr o ↦ rw o (ground arith)
              ]))
        | inr a ↦
            rw (a, unsubscribe)
              (elim (Bool-cases (same_type u t)) [
                | inl s ↦ rw (s, handlers-same u t b s) (has-absent k h hs a)
                | inr o ↦ rw o (ground arith)
              ])
      ]

  -- No handler stands twice for any type.
  abbrev AllDistinct : EventBus A → Type 0
  AllDistinct b = (t : EventType) → Distinct (handlers_of t b)

  change-AllDistinct : (c : Change) (b : EventBus A) → AllDistinct b → AllDistinct (change c b)
  unfolding subscribe unsubscribe
  change-AllDistinct (subscribed u k) b d t =
      let hs = handlers_of u b in
      rw (handlers-with u t (if has k hs then hs else hs ++ (k ∷ [])) b)
        (if_keeps Distinct (same_type u t) (added-Distinct k hs (d u)) (d t))
  change-AllDistinct (unsubscribed u k) b d t =
      let hs = handlers_of u b in
      elim (Bool-cases (has k hs)) [
        | inl p ↦
            rw (p, unsubscribe)
              (rw (handlers-with u t (remove k hs) b)
                (if_keeps Distinct (same_type u t) (remove-Distinct k hs (d u)) (d t)))
        | inr a ↦ rw (a, unsubscribe) (d t)
      ]

  changes-Wanted :
      (cs : List Change) (t : EventType) (h : ℕ) (b : EventBus A)
      → AllDistinct b
      → (has h (handlers_of t (changes cs b)) ≡ wanted t h (has h (handlers_of t b)) cs)
        × Distinct (handlers_of t (changes cs b))
  unfolding changes
  changes-Wanted [] t h b d = (refl, d t)
  changes-Wanted (subscribed u k ∷ cs) t h b d =
      subst
        (λ x.
          (has h (handlers_of t (changes cs (subscribe u k b))) ≡ wanted t h x cs)
          × Distinct (handlers_of t (changes cs (subscribe u k b))))
        (has-subscribe u t k h b)
        (changes-Wanted cs t h (subscribe u k b) (change-AllDistinct (subscribed u k) b d))
  changes-Wanted (unsubscribed u k ∷ cs) t h b d =
      subst
        (λ x.
          (has h (handlers_of t (changes cs (unsubscribe u k b))) ≡ wanted t h x cs)
          × Distinct (handlers_of t (changes cs (unsubscribe u k b))))
        (has-unsubscribe u t k h b (d u))
        (changes-Wanted cs t h (unsubscribe u k b) (change-AllDistinct (unsubscribed u k) b d))

  -- How often a handler is called.
  abbrev pub times : ℕ → List (HandlerCall A) → ℕ
  times h [] = 0
  times h (c ∷ cs) = if c.0 == h then suc (times h cs) else times h cs

  times-absent :
      (h : ℕ) (e : Event A) (hs : List ℕ) → has h hs ≡ false → times h (map (λ k. (k, e)) hs) ≡ 0
  times-absent h e [] a = refl
  times-absent h e (k ∷ hs) a = ground (arith, times-absent h e hs)

  times-Distinct :
      (h : ℕ) (e : Event A) (hs : List ℕ)
      → Distinct hs
      → times h (map (λ k. (k, e)) hs) ≡ (if has h hs then 1 else 0)
  times-Distinct h e [] d = refl
  times-Distinct h e (k ∷ hs) d = elim (Bool-cases (k == h)) [
    | inl s ↦
        let q : k ≡ h = ground arith in
        let z : has h hs ≡ false = subst (λ x. has x hs ≡ false) q d.0 in
        rw (s, times-absent h e hs z) refl
    | inr n ↦ rw n (times-Distinct h e hs d.1)
  ]

  -- After any subscriptions and unsubscriptions of a new bus, a dispatch of an event calls a handler
  -- once if its last change for the type of the event was a subscription, and else not at all.
  pub times-dispatch :
      (cs : List Change) (n : ℕ) (e : Event A) (h : ℕ)
      → times h (dispatch e (changes cs (new {A = A} n)))
        ≡ (if wanted e.type h false cs then 1 else 0)
  unfolding dispatch
  times-dispatch cs n e h =
      let w = changes-Wanted cs e.type h (new n) (λ t. tt) in
      times-Distinct h e (handlers_of e.type (changes cs (new n))) w.1
      ∙ ap (λ x. if x then 1 else 0) w.0
