-- ===== src/Agent/Execution/Twice.antt =====
-- keryxflow/agent/execution_tools.py: how `place_order` moves the balances of the paper engine.
use keryx_talos.Aegis.Risk.{approve_order}
use keryx_talos.Aegis.Risk.Approval.{approve_order_complete, at_call, balance_at, Passes}
use keryx_talos.Exchange.Paper.Transactions.{execute_market_order_lem, FilledOrUnchanged}
use keryx_talos.Aegis.Guardrails.{allow}
use keryx_talos.Base.{
  sym, ◌∙◌, ap, false, none, str_eq, some, ℕ, true, inr, subst, ◌≡◌, refl, inl, Option, String,
}
use keryx_talos.Base.Dict.{Dict, OnSome}
use keryx_talos.Base.Result.{raised, Exception, Result, OnOk, ok, Result-cases}
use keryx_talos.Number.{Number, Conversion, is_nonzero}
use keryx_talos.Exchange.Paper.{
  OrderResult, execute_market_order, get_price, PaperBalance, PaperTradingEngine, open_position,
  initialize, get_base_quote, apply_slippage,
}
use keryx_talos.Exchange.Paper.Moves.{
  filled-Moves, execute_market_order-SameSettings, initialize-SameSettings, Moves, balances_of,
  open_position-Moves,
}
use keryx_talos.Exchange.Orders.{OrderManager, market_order, place_market_order, Order}
use keryx_talos.Agent.Execution.{
  after_send, send_order, with_engine, with_manager, order_request, guardrails_on, connect,
  approve_and_execute, validate_and_execute, execute_order, place_order, or_number, Desk,
  PlaceOrder, record_fill, engine_of,
}

module _ {N : Type 0} ⦃num : Number N⦄ where
  -- From one engine to another the order is executed twice: at the price with its slippage, and at
  -- that price with the slippage once more.
  abbrev pub MovesTwice :
      PlaceOrder N → String × String → N → PaperTradingEngine N → PaperTradingEngine N → Type 0
  MovesTwice a pair price e e' =
      let once = apply_slippage price a.side e in
      (mid : Dict (PaperBalance N)) × Moves a.side pair a.quantity once (balances_of e) mid
      × Moves a.side pair a.quantity (apply_slippage once a.side e) mid (balances_of e')

  send_order-ok :
      (a : PlaceOrder N) (id : String) (p : N) (m : OrderManager N) (o : OrderResult N)
      → str_eq a.order_type "market" ≡ true
      → (execute_market_order a.symbol a.side a.quantity none m.engine).1 ≡ ok o
      → send_order a id p m ≡ (
        record m {
          engine = (execute_market_order a.symbol a.side a.quantity none m.engine).0;
          has_engine = true;
        },
        ok (market_order id a.symbol a.side a.quantity o),
      )
  unfolding place_market_order
  send_order-ok a id p m o mk k = rw (mk, k, place_market_order) refl

  send_order-raised :
      (a : PlaceOrder N) (id : String) (p : N) (m : OrderManager N) (x : Exception)
      → str_eq a.order_type "market" ≡ true
      → (execute_market_order a.symbol a.side a.quantity none m.engine).1 ≡ raised x
      → send_order a id p m ≡ (
        record m {
          engine = (execute_market_order a.symbol a.side a.quantity none m.engine).0;
          has_engine = true;
        },
        raised x,
      )
  unfolding place_market_order
  send_order-raised a id p m x mk k = rw (mk, k, place_market_order) refl

module _ {N : Type 0} {D : Type 0} ⦃num : Number N⦄ ⦃dec : Number D⦄ ⦃conv : Conversion N D⦄ where
  abbrev pub TwiceOrFailed :
      PlaceOrder N → String × String → N → Desk N D → Desk N D × Option (Order N) → Type 0
  TwiceOrFailed a pair price d (d', r) =
      OnSome (λ order. MovesTwice a pair price (engine_of d) (engine_of d')) r

  record_fill-Twice :
      (a : PlaceOrder N) (price p : N) (order : Order N) (pair : String × String) (d₀ d : Desk N D)
      → get_base_quote a.symbol ≡ ok pair
      → initialize (engine_of d) ≡ engine_of d
      → (engine_of d).slippage_pct ≡ (engine_of d₀).slippage_pct
      → Moves a.side pair a.quantity
          (apply_slippage p a.side (engine_of d₀))
          (balances_of (engine_of d₀))
          (balances_of (engine_of d))
      → order.average_price ≡ apply_slippage p a.side (engine_of d₀)
      → is_nonzero order.average_price ≡ true
      → TwiceOrFailed a pair p d₀ (record_fill a price order d)
  unfolding record_fill
  record_fill-Twice a price p order pair d₀ d q i s m av nz =
      let entry = or_number order.average_price price in
      let t =
        open_position a.symbol a.side a.quantity entry a.stop_loss a.take_profit (engine_of d) in
      let moves =
        open_position-Moves a.symbol a.side a.quantity entry a.stop_loss a.take_profit (engine_of d)
          pair q i in
      let same : apply_slippage entry a.side (engine_of d)
          ≡ apply_slippage (apply_slippage p a.side (engine_of d₀)) a.side (engine_of d₀) =
        rw (nz, av, s) refl in
      elim (Result-cases t.1) [
        | inr (x, k) ↦ rw (k, record_fill) tt
        | inl (pos, k) ↦
            rw (k, record_fill)
              (
                balances_of (engine_of d),
                m,
                subst
                    (λ x.
                      Moves a.side pair a.quantity x (balances_of (engine_of d)) (balances_of t.0))
                    same (subst (OnOk _) k moves),
              )
      ]

  execute_order-Twice :
      (a : PlaceOrder N) (id : String) (p : N) (pair : String × String) (d : Desk N D)
      → get_base_quote a.symbol ≡ ok pair
      → get_price a.symbol (engine_of (connect d)) ≡ some p
      → str_eq a.order_type "market" ≡ true
      → is_nonzero (apply_slippage p a.side (engine_of (connect d))) ≡ true
      → TwiceOrFailed a pair p (connect d) (execute_order a id p d)
  unfolding execute_order
  execute_order-Twice a id p pair d q g mk nz =
      let e = engine_of (connect d) in
      let i = (initialize-SameSettings (engine_of d)).0 in
      let t = execute_market_order a.symbol a.side a.quantity none e in
      let settings = execute_market_order-SameSettings a.symbol a.side a.quantity none e in
      let spec =
        subst (λ e₁. FilledOrUnchanged a.side a.quantity pair p e₁ t) i
          (execute_market_order_lem a.symbol a.side a.quantity none e pair p q
            (ap (get_price a.symbol) i ∙ g)) in
      elim (Result-cases t.1) [
        | inr (x, k) ↦
            subst (λ s. TwiceOrFailed a pair p (connect d) (after_send a p (connect d) s))
              (sym (send_order-raised a id p (connect d).orders x mk k)) tt
        | inl (o, k) ↦
            let moved = filled-Moves a.side a.quantity pair p e t o spec k in
            subst (λ s. TwiceOrFailed a pair p (connect d) (after_send a p (connect d) s))
              (sym (send_order-ok a id p (connect d).orders o mk k))
              (record_fill-Twice a p p (market_order id a.symbol a.side a.quantity o) pair
                (connect d)
                (record (connect d) {
                  orders = record ((connect d).orders) { engine = t.0; has_engine = true };
                })
                q settings.0 settings.1 moved.0 moved.1 (ap is_nonzero moved.1 ∙ nz))
      ]

  -- A market order without a price of its own, of a symbol with two currencies and a known price,
  -- that passes the checks of the risk manager, is executed twice on the paper engine if `place_order`
  -- is successful: the free balances move once by its quantity at the price with slippage, and once
  -- more by its quantity at that price with slippage again.
  pub place_order-Twice :
      (a : PlaceOrder N) (id : String) (ticker : Result (Option N)) (now : ℕ) (d : Desk N D)
      (pair : String × String) (p : N)
      → a.price ≡ none
      → str_eq a.order_type "limit" ≡ false
      → str_eq a.order_type "market" ≡ true
      → get_base_quote a.symbol ≡ ok pair
      → get_price a.symbol (engine_of (connect d)) ≡ some p
      → is_nonzero (apply_slippage p a.side (engine_of (connect d))) ≡ true
      → guardrails_on a p d ≡ ok allow
      → Passes (order_request a p) (balance_at none now d.manager) (at_call now d.manager)
      → TwiceOrFailed a pair p (connect d) (place_order a id ticker now d)
  unfolding place_order validate_and_execute approve_and_execute
  place_order-Twice a id ticker now d pair p np nl mk q g nz allowed passes =
      let i = (initialize-SameSettings (engine_of d)).0 in
      let d₁ = with_manager (approve_order (order_request a p) none now d.manager).0 (connect d) in
      rw
        (
          np,
          nl,
          g,
          allowed,
          approve_order_complete (order_request a p) none now d.manager passes,
          place_order,
          validate_and_execute,
          approve_and_execute,
        )
        (subst (λ e. TwiceOrFailed a pair p (with_engine e d) (execute_order a id p d₁)) i
          (execute_order-Twice a id p pair d₁ q (ap (get_price a.symbol) i ∙ g) mk
            (ap (λ e. is_nonzero (apply_slippage p a.side e)) i ∙ nz)))
