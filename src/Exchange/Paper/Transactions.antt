-- ===== src/Exchange/Paper/Transactions.antt =====
-- keryxflow/exchange/paper.py: what a market order changes, and when it succeeds.
use keryx_talos.Exchange.Paper.Movements.{
  is_ok-fill, exchange-free_after, free_after, free_of, can_fill,
}
use keryx_talos.Base.{true, sym, ◌∙◌, refl, ◌≡◌, Option, ap, String, subst, some}
use keryx_talos.Base.Dict.{Dict}
use keryx_talos.Base.Result.{
  or_raise, Exception, OnOk-self, is_ok-bind_ok, OnOk-bind, OnOk-bind_any, is_ok, OnOk, raised,
  Result, ok,
}
use keryx_talos.Number.{Number}
use keryx_talos.Exchange.Paper.{
  trade_side, apply_slippage, get_price, exchange, commit, initialize, price_or, get_base_quote,
  PaperTradingEngine, execute_market_order, fill, execute, OrderResult, Database, Position,
}

module _ {N : Type 0} ⦃num : Number N⦄ where
  open num use {mul}

  fill-free_after :
      (symbol side : String) (pair : String × String) (amount exec_price cost : N) (db : Database N)
      (j : String)
      → OnOk
          (λ db'. free_of j db'.balances ≡ free_after side pair amount cost db.balances j)
          (fill symbol side pair amount exec_price cost db)
  unfolding fill
  fill-free_after symbol side pair amount exec_price cost db j =
      OnOk-bind _ _ (exchange side pair amount cost db.balances) _
        (exchange-free_after side pair amount cost db.balances j)
        (λ bs h. OnOk-bind_any _ (trade_side side) _ (λ t. h))

  fill-positions :
      (symbol side : String) (pair : String × String) (amount exec_price cost : N) (db : Database N)
      → OnOk (λ db'. db'.positions ≡ db.positions) (fill symbol side pair amount exec_price cost db)
  unfolding fill
  fill-positions symbol side pair amount exec_price cost db =
      OnOk-bind_any _ (exchange side pair amount cost db.balances) _
        (λ bs. OnOk-bind_any _ (trade_side side) _ (λ t. refl))

  execute-positions :
      (symbol side : String) (amount : N) (price : Option N) (e : PaperTradingEngine N)
      → OnOk (λ t. t.0.positions ≡ e.database.positions) (execute symbol side amount price e)
  unfolding execute
  execute-positions symbol side amount price e =
      OnOk-bind_any _ (or_raise (price_or price (get_price symbol e)) Exception.value_error) _ (λ p.
        OnOk-bind_any _ (get_base_quote symbol) _ (λ pair.
          OnOk-bind _ _
            (fill symbol side pair amount (apply_slippage p side e)
              (mul amount (apply_slippage p side e)) e.database)
            _ (fill-positions symbol side pair amount _ _ e.database) (λ db h. h)))

  commit-positions :
      {R : Type 0} (ps : Dict (Position N)) (e : PaperTradingEngine N) (r : Result (Database N × R))
      → e.database.positions ≡ ps
      → OnOk (λ t. t.0.positions ≡ ps) r
      → (commit e r).0.database.positions ≡ ps
  commit-positions ps e (ok t) h k = k
  commit-positions ps e (raised x) h k = h

  -- A market order changes no position, whether it succeeds or not.
  pub execute_market_order-positions :
      (symbol side : String) (amount : N) (price : Option N) (e : PaperTradingEngine N)
      → (execute_market_order symbol side amount price e).0.database.positions
        ≡ (initialize e).database.positions
  unfolding execute_market_order
  execute_market_order-positions symbol side amount price e =
      commit-positions (initialize e).database.positions (initialize e) _ refl
        (execute-positions symbol side amount price (initialize e))

  -- An order that is filled at a price: the account had what it spends, the balances of the two
  -- currencies moved by the amount and its cost, and no position changed.
  pub record Filled (side : String) (amount : N) (pair : String × String) (price : N)
      (e : PaperTradingEngine N) (db : Database N) (o : OrderResult N) : Type 0 where
    pub amount_eq : o.amount ≡ amount
    pub price_eq : o.price ≡ apply_slippage price side e
    pub cost_eq : o.cost ≡ mul amount o.price
    pub covered : can_fill side pair amount o.cost e.database.balances ≡ true
    pub moved :
        (j : String)
        → free_of j db.balances ≡ free_after side pair amount o.cost e.database.balances j
    pub positions_eq : db.positions ≡ e.database.positions

  execute-Filled :
      (symbol side : String) (amount : N) (price : Option N) (e : PaperTradingEngine N)
      (pair : String × String) (p : N)
      → get_base_quote symbol ≡ ok pair
      → price_or price (get_price symbol e) ≡ some p
      → OnOk (λ t. Filled side amount pair p e t.0 t.1) (execute symbol side amount price e)
  unfolding execute
  execute-Filled symbol side amount price e pair p q r =
      let exec_price = apply_slippage p side e in
      let cost = mul amount exec_price in
      let filled = fill symbol side pair amount exec_price cost e.database in
      rw (r, q, execute)
        (OnOk-bind _ _ filled _ (OnOk-self filled) (λ db h. record {
          amount_eq = refl;
          price_eq = refl;
          cost_eq = refl;
          covered =
              sym (is_ok-fill symbol side pair amount exec_price cost e.database) ∙ ap is_ok h;
          moved = λ j.
              subst (OnOk _) h
                (fill-free_after symbol side pair amount exec_price cost e.database j);
          positions_eq =
              subst (OnOk _) h (fill-positions symbol side pair amount exec_price cost e.database);
        }))

  abbrev pub FilledOrUnchanged :
      String
      → N
      → String × String
      → N
      → PaperTradingEngine N
      → PaperTradingEngine N × Result (OrderResult N)
      → Type 0
  FilledOrUnchanged side amount pair p e (e', ok o) = Filled side amount pair p e e'.database o
  FilledOrUnchanged side amount pair p e (e', raised x) = e' ≡ e

  commit-FilledOrUnchanged :
      (side : String) (amount : N) (pair : String × String) (p : N) (e : PaperTradingEngine N)
      (r : Result (Database N × OrderResult N))
      → OnOk (λ t. Filled side amount pair p e t.0 t.1) r
      → FilledOrUnchanged side amount pair p e (commit e r)
  commit-FilledOrUnchanged side amount pair p e (ok t) h = h
  commit-FilledOrUnchanged side amount pair p e (raised x) h = refl

  -- A market order of a symbol with two currencies and a known price either raises and leaves the
  -- engine as it was, initialized, or it is filled at the price with its slippage: the order has a
  -- side, the account had what it spends, what is free of the two currencies moved by the amount and
  -- by the amount times the execution price, of no other currency, and no position changed.
  pub execute_market_order_lem :
      (symbol side : String) (amount : N) (price : Option N) (e : PaperTradingEngine N)
      (pair : String × String) (p : N)
      → get_base_quote symbol ≡ ok pair
      → price_or price (get_price symbol (initialize e)) ≡ some p
      → FilledOrUnchanged side amount pair p
          (initialize e)
          (execute_market_order symbol side amount price e)
  unfolding execute_market_order
  execute_market_order_lem symbol side amount price e pair p q r =
      commit-FilledOrUnchanged side amount pair p (initialize e) _
        (execute-Filled symbol side amount price (initialize e) pair p q r)

  is_ok-commit :
      {R : Type 0} (e : PaperTradingEngine N) (r : Result (Database N × R))
      → is_ok (commit e r).1 ≡ is_ok r
  is_ok-commit e (ok t) = refl
  is_ok-commit e (raised x) = refl

  -- A market order of a symbol with two currencies and a known price succeeds if and only if its
  -- side is a buy that the free quote currency covers at the execution price, or a sell that the
  -- free base currency covers.
  pub is_ok-execute_market_order :
      (symbol side : String) (amount : N) (price : Option N) (e : PaperTradingEngine N)
      (pair : String × String) (p : N)
      → get_base_quote symbol ≡ ok pair
      → price_or price (get_price symbol (initialize e)) ≡ some p
      → is_ok (execute_market_order symbol side amount price e).1
        ≡ can_fill side pair amount
            (mul amount (apply_slippage p side (initialize e)))
            (initialize e).database.balances
  unfolding execute_market_order execute
  is_ok-execute_market_order symbol side amount price e pair p q r =
      let e₁ = initialize e in
      let exec_price = apply_slippage p side e₁ in
      let cost = mul amount exec_price in
      is_ok-commit e₁ (execute symbol side amount price e₁)
      ∙ rw (r, q, execute)
          (is_ok-bind_ok (fill symbol side pair amount exec_price cost e₁.database) _)
      ∙ is_ok-fill symbol side pair amount exec_price cost e₁.database
