-- ===== src/Exchange/Orders/Pending.antt =====
-- keryxflow/exchange/orders.py: what becomes of pending limit orders.
use keryx_talos.Exchange.Paper.Transactions.{
  FilledOrUnchanged, execute_market_order_lem, is_ok-execute_market_order,
}
use keryx_talos.Exchange.Paper.Movements.{can_fill, free_after, free_of}
use keryx_talos.Exchange.Paper.Validity.{execute_market_order-IsValid, IsValid}
use keryx_talos.Base.{
  Option-cases, eq_iff, false, Bool, ◌⊎◌, arith, sym, ◌∙◌, [], subst, ap, ◌∷◌, some, Bool-cases,
  ◌&&◌, refl, ◌≡◌, if◌then◌else◌, is_some, str_eq, inl, none, inr, String, Option,
}
use keryx_talos.Base.Dict.{erase-Values, Values, OnSome, Dict, lookup, lookup-erase}
use keryx_talos.Base.Result.{is_ok, ok, Result-cases}
use keryx_talos.Number.{IsNonNeg, nought, HasSigns, Number}
use keryx_talos.Exchange.Paper.{
  PaperBalance, get_price, price_or, initialize, apply_slippage, get_base_quote,
  execute_market_order,
}
use keryx_talos.Exchange.Orders.{
  check_pending_orders, price_or_nought, reaches, check_each, should_fill, OrderStatus,
  OrderManager, Order, check_order,
}

module _ {N : Type 0} ⦃num : Number N⦄ where
  open num use {mul, le}

  -- Whether a price that may be unknown reaches the limit of an order: a buy is reached at or below
  -- it, a sell at or above it.
  abbrev is_reached : String → N → Option N → Bool
  is_reached side bound none = false
  is_reached side bound (some current) =
      if str_eq side "buy" then le current bound else str_eq side "sell" && le bound current

  -- What an order pays or earns that is filled at its limit.
  abbrev fill_price : Order N → N → OrderManager N → N
  fill_price order bound m = apply_slippage bound order.side (initialize m.engine)

  abbrev balances_before : OrderManager N → Dict (PaperBalance N)
  balances_before m = (initialize m.engine).database.balances

  -- Whether a pending order is filled: the last price reaches its limit, and the account covers it.
  abbrev pub fills : Order N → N → String × String → OrderManager N → Bool
  fills order bound pair m =
      is_reached order.side bound (lookup order.symbol m.engine.prices)
      && can_fill order.side pair order.amount (mul order.amount (fill_price order bound m))
          (balances_before m)

  -- An order that was filled: the manager's account moved by its whole amount at the fill price, and
  -- the order that is returned says so.
  pub record FilledAt (order : Order N) (bound : N) (pair : String × String) (m m' : OrderManager N)
      (o : Order N) : Type 0 where
    pub status_eq : o.status ≡ OrderStatus.filled
    pub filled_eq : (o.filled ≡ order.amount) × (o.remaining ≡ nought)
    pub price_eq : o.average_price ≡ fill_price order bound m
    pub moved :
        (j : String)
        → free_of j m'.engine.database.balances
          ≡ free_after order.side pair order.amount
              (mul order.amount (fill_price order bound m))
              (balances_before m)
              j
    pub positions_eq : m'.engine.database.positions ≡ (initialize m.engine).database.positions

  abbrev pub Outcome :
      Order N → N → String × String → OrderManager N → OrderManager N → Option (Order N) → Type 0
  Outcome order bound pair m m' none = (m'.engine ≡ m.engine) ⊎ (m'.engine ≡ initialize m.engine)
  Outcome order bound pair m m' (some o) = FilledAt order bound pair m m' o

  -- A pending order that is checked: whether it is filled, which orders are still pending, and what
  -- became of the account.
  pub record Checked (id : String) (order : Order N) (bound : N) (pair : String × String)
      (m m' : OrderManager N) (r : Option (Order N)) : Type 0 where
    pub fills_eq : is_some r ≡ fills order bound pair m
    pub pending_eq :
        (j : String)
        → lookup j m'.pending_orders
          ≡ (if is_some r && str_eq id j then none else lookup j m.pending_orders)
    pub outcome : Outcome order bound pair m m' r

  reaches-is_reached :
      (side : String) (current bound : N)
      → reaches side current bound ≡ is_reached side bound (some current)
  reaches-is_reached side current bound = elim (Bool-cases (str_eq side "buy")) [
    | inr sells ↦ rw sells refl
    | inl buys ↦
        let only : str_eq side "sell" ≡ false = rw ((eq_iff side "buy").0 buys) refl in ground arith
  ]

  should_fill-is_reached :
      (order : Order N) (bound : N) (m : OrderManager N)
      → order.price ≡ some bound
      → should_fill order m ≡ is_reached order.side bound (lookup order.symbol m.engine.prices)
  should_fill-is_reached order bound m l =
      elim (Option-cases (lookup order.symbol m.engine.prices)) [
        | inl missing ↦ rw (missing, should_fill) refl
        | inr (current, h) ↦
            rw (h, should_fill)
              (ap (λ x. reaches order.side current (price_or_nought x)) l
                ∙ reaches-is_reached order.side current bound)
      ]

  -- The check of a pending limit order of a symbol with two currencies. It is filled if and only if
  -- the last price of the symbol is known and reaches its limit, at or below it for a buy and at or
  -- above it for a sell, and the free balance covers it. Then the account moves by the whole amount,
  -- at the limit price with the slippage of the engine on top, no position changes, the order is
  -- returned as filled whole at that price, and it alone is no longer pending. If not, the account is
  -- as it was, initialized at most, and nothing of the pending orders changes.
  pub check_order-Checked :
      (id : String) (order : Order N) (bound : N) (m : OrderManager N) (pair : String × String)
      → get_base_quote order.symbol ≡ ok pair
      → order.price ≡ some bound
      → Checked id order bound pair m (check_order id order m).0 (check_order id order m).1
  unfolding check_order
  check_order-Checked id order bound m pair q l =
      let e = m.engine in
      let t = execute_market_order order.symbol order.side order.amount order.price e in
      let known = ap (λ o. price_or o (get_price order.symbol (initialize e))) l in
      let spec =
        execute_market_order_lem order.symbol order.side order.amount order.price e pair bound q
          known in
      let covered =
        is_ok-execute_market_order order.symbol order.side order.amount order.price e pair bound q
          known in
      let reached = should_fill-is_reached order bound m l in
      let decided : should_fill order m && is_ok t.1 ≡ fills order bound pair m =
        ap (λ b. b && is_ok t.1) reached
        ∙ ap (λ b. is_reached order.side bound (lookup order.symbol m.engine.prices) && b)
            covered in
      elim (Bool-cases (should_fill order m)) [
        | inr f ↦
            rw (f, check_order)
              (record {
                fills_eq = ap (λ b. b && is_ok t.1) (sym f) ∙ decided;
                pending_eq = λ j. refl;
                outcome = inl refl;
              })
        | inl f ↦ elim (Result-cases t.1) [
          | inr (x, k) ↦
              rw (f, k, check_order)
                (record {
                  fills_eq = ap is_ok (sym k) ∙ ap (λ b. b && is_ok t.1) (sym f) ∙ decided;
                  pending_eq = λ j. refl;
                  outcome = inr (
                      subst
                        (λ r.
                          FilledOrUnchanged order.side order.amount pair bound (initialize e)
                            (t.0, r))
                        k spec);
                })
          | inl (o, k) ↦
              let filled =
                subst
                  (λ r.
                    FilledOrUnchanged order.side order.amount pair bound (initialize e) (t.0, r))
                  k spec in
              rw (f, k, check_order)
                (record {
                  fills_eq = ap is_ok (sym k) ∙ ap (λ b. b && is_ok t.1) (sym f) ∙ decided;
                  pending_eq = λ j. lookup-erase id j m.pending_orders;
                  outcome = record {
                    status_eq = refl;
                    filled_eq = (refl, refl);
                    price_eq = filled.price_eq;
                    moved = λ j.
                        subst
                          (λ c.
                            free_of j t.0.database.balances
                            ≡ free_after order.side pair order.amount c (balances_before m) j)
                          (filled.cost_eq ∙ ap (mul order.amount) filled.price_eq) (filled.moved j);
                    positions_eq = filled.positions_eq;
                  };
                })
        ]
      ]

  -- A pending order whose amount and limit are not below 0.
  abbrev pub IsNonNegOrder : Order N → Type 0
  IsNonNegOrder order = IsNonNeg order.amount × OnSome IsNonNeg order.price

  module _ (laws : HasSigns num) where
    check_order-IsValid :
        (id : String) (order : Order N) (m : OrderManager N)
        → IsNonNegOrder order
        → IsValid m.engine
        → IsValid (check_order id order m).0.engine
    unfolding check_order
    check_order-IsValid id order m h v =
        let t = execute_market_order order.symbol order.side order.amount order.price m.engine in
        let v₁ =
          execute_market_order-IsValid laws order.symbol order.side order.amount order.price
            m.engine h.0 h.1 v in
        elim (Bool-cases (should_fill order m)) [
          | inr f ↦ rw (f, check_order) v
          | inl f ↦ elim (Result-cases t.1) [
            | inr (x, k) ↦ rw (f, k, check_order) v₁
            | inl (o, k) ↦ rw (f, k, check_order) v₁
          ]
        ]

    check_order-pending :
        (id : String) (order : Order N) (m : OrderManager N)
        → Values IsNonNegOrder m.pending_orders
        → Values IsNonNegOrder (check_order id order m).0.pending_orders
    unfolding check_order
    check_order-pending id order m p =
        let t = execute_market_order order.symbol order.side order.amount order.price m.engine in
        elim (Bool-cases (should_fill order m)) [
          | inr f ↦ rw (f, check_order) p
          | inl f ↦ elim (Result-cases t.1) [
            | inr (x, k) ↦ rw (f, k, check_order) p
            | inl (o, k) ↦ rw (f, k, check_order) (erase-Values IsNonNegOrder id m.pending_orders p)
          ]
        ]

    check_each-IsValid :
        (orders : Dict (Order N)) (m : OrderManager N)
        → Values IsNonNegOrder orders
        → Values IsNonNegOrder m.pending_orders
        → IsValid m.engine
        → IsValid (check_each orders m).0.engine
          × Values IsNonNegOrder (check_each orders m).0.pending_orders
    unfolding check_each
    check_each-IsValid [] m h p v = (v, p)
    check_each-IsValid (o ∷ orders) m h p v =
        check_each-IsValid orders (check_order o.0 o.1 m).0 h.1 (check_order-pending o.0 o.1 m p)
          (check_order-IsValid o.0 o.1 m h.0 v)

    -- Checking the pending orders, where no amount and no limit of them is below 0, keeps the engine
    -- valid: no fill overdraws a balance. The orders that stay pending are such orders again.
    pub check_pending_orders-IsValid :
        (m : OrderManager N)
        → Values IsNonNegOrder m.pending_orders
        → IsValid m.engine
        → IsValid (check_pending_orders m).0.engine
          × Values IsNonNegOrder (check_pending_orders m).0.pending_orders
    unfolding check_pending_orders
    check_pending_orders-IsValid m p v = check_each-IsValid m.pending_orders m p p v
