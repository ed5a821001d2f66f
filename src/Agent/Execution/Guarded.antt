-- ===== src/Agent/Execution/Guarded.antt =====
-- keryxflow/agent/execution_tools.py: which orders of `place_order` reach the order manager.
use keryx_talos.Exchange.Paper.{get_price}
use keryx_talos.Base.{
  inr, ℕ, refl, ◌⊎◌, none, str_eq, Option, String, inl, Bool-cases, ◌≡◌, Option-cases,
}
use keryx_talos.Base.Result.{Result, Result-cases}
use keryx_talos.Number.{Number, Conversion}
use keryx_talos.Aegis.Risk.{approve_order}
use keryx_talos.Aegis.Risk.Approval.{Passes, at_call, balance_at, approve_order_sound}
use keryx_talos.Exchange.Orders.{Order}
use keryx_talos.Agent.Execution.{
  engine_of, find_price, order_request, Desk, PlaceOrder, place_order, validate_and_execute,
  approve_and_execute, guardrails_on, connect,
}

module _ {N : Type 0} {D : Type 0} ⦃num : Number N⦄ ⦃dec : Number D⦄ ⦃conv : Conversion N D⦄ where
  -- The order passes every check of the risk manager, at some price.
  abbrev pub PassesAtSomePrice : PlaceOrder N → ℕ → Desk N D → Type 0
  PassesAtSomePrice a now d =
      (price : N) × Passes (order_request a price) (balance_at none now d.manager)
        (at_call now d.manager)

  abbrev Refused : Desk N D → Desk N D × Option (Order N) → Type 0
  Refused d (d', r) = (r ≡ none) × (d'.orders ≡ d.orders)

  approve_and_execute-guarded :
      (a : PlaceOrder N) (id : String) (price : N) (now : ℕ) (d : Desk N D)
      → Refused d (approve_and_execute a id price now d) ⊎ PassesAtSomePrice a now d
  unfolding approve_and_execute
  approve_and_execute-guarded a id price now d =
      elim (Result-cases (approve_order (order_request a price) none now d.manager).1) [
        | inr (x, k) ↦ inl (rw (k, approve_and_execute) (refl, refl))
        | inl (r, k) ↦ elim (Bool-cases r.approved) [
          | inr f ↦ inl (rw (k, f, approve_and_execute) (refl, refl))
          | inl f ↦
              inr (price, (approve_order_sound (order_request a price) none now d.manager r k f).2)
        ]
      ]

  validate_and_execute-guarded :
      (a : PlaceOrder N) (id : String) (price : N) (now : ℕ) (d : Desk N D)
      → Refused d (validate_and_execute a id price now d) ⊎ PassesAtSomePrice a now d
  unfolding validate_and_execute
  validate_and_execute-guarded a id price now d = elim (Result-cases (guardrails_on a price d)) [
    | inr (x, k) ↦ inl (rw (k, validate_and_execute) (refl, refl))
    | inl (r, k) ↦ elim (Bool-cases r.allowed) [
      | inr f ↦ inl (rw (k, f, validate_and_execute) (refl, refl))
      | inl f ↦ rw (k, f, validate_and_execute) (approve_and_execute-guarded a id price now d)
    ]
  ]

  -- An unsuccessful result that leaves the order manager as it was, or initialized.
  abbrev pub Untouched : Desk N D → Desk N D × Option (Order N) → Type 0
  Untouched d (d', r) = (r ≡ none) × ((d'.orders ≡ d.orders) ⊎ (d'.orders ≡ (connect d).orders))

  -- `place_order` is unsuccessful and leaves the order manager and its paper engine as they were,
  -- initialized at most, or the order passes, at some price, every check of the risk manager:
  -- guardrails, circuit breaker, both drawdowns, open positions, symbol and size.
  pub place_order_guarded :
      (a : PlaceOrder N) (id : String) (ticker : Result (Option N)) (now : ℕ) (d : Desk N D)
      → Untouched d (place_order a id ticker now d) ⊎ PassesAtSomePrice a now d
  unfolding place_order
  place_order_guarded a id ticker now d = elim (Option-cases a.price) [
    | inr (p, h) ↦
        rw (h, place_order)
          (elim (validate_and_execute-guarded a id p now d) [
            | inl r ↦ inl (r.0, inl r.1)
            | inr q ↦ inr q
          ])
    | inl h ↦ elim (Bool-cases (str_eq a.order_type "limit")) [
      | inl l ↦ inl (rw (h, l, place_order) (refl, inl refl))
      | inr l ↦
          let found = find_price (get_price a.symbol (engine_of (connect d))) ticker in
          elim (Result-cases found) [
            | inr (x, k) ↦ inl (rw (h, l, k, place_order) (refl, inr refl))
            | inl (o, k) ↦ elim (Option-cases o) [
              | inl n ↦ inl (rw (h, l, k, n, place_order) (refl, inr refl))
              | inr (p, n) ↦
                  rw (h, l, k, n, place_order)
                    (elim (validate_and_execute-guarded a id p now (connect d)) [
                      | inl r ↦ inl (r.0, inr r.1)
                      | inr q ↦ inr q
                    ])
            ]
          ]
    ]
  ]
