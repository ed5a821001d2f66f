-- ===== src/Exchange/Paper/Moves.antt =====
-- keryxflow/exchange/paper.py: how an order and an opened position move the free balances.
use keryx_talos.Base.{
  Option-cases, some, String, subst, ◌∙◌, ◌≡◌, ap, arith, sym, inl, refl, Option, inr,
}
use keryx_talos.Base.Dict.{lookup, Dict}
use keryx_talos.Base.Result.{OnOk-bind_any, OnOk, Result, ok, raised, Result-cases}
use keryx_talos.Number.{Number}
use keryx_talos.Exchange.Paper.{
  average_in, new_position, PaperTradingEngine, PaperBalance, Database, OrderResult,
  execute_market_order, open_position, initialize, commit, get_base_quote, apply_slippage,
  store_position,
}
use keryx_talos.Exchange.Paper.Movements.{free_of, free_after}
use keryx_talos.Exchange.Paper.Transactions.{FilledOrUnchanged, execute_market_order_lem}

module _ {N : Type 0} ⦃num : Number N⦄ where
  open num use {mul}

  abbrev pub balances_of : PaperTradingEngine N → Dict (PaperBalance N)
  balances_of e = e.database.balances

  -- What stays of an initialized engine whose database changes.
  abbrev SameSettings : PaperTradingEngine N → PaperTradingEngine N → Type 0
  SameSettings e e' = (initialize e' ≡ e') × (e'.slippage_pct ≡ e.slippage_pct)

  pub initialize-SameSettings : (e : PaperTradingEngine N) → SameSettings e (initialize e)
  unfolding initialize
  initialize-SameSettings e = ground arith

  commit-SameSettings :
      {R : Type 0} (e : PaperTradingEngine N) (r : Result (Database N × R))
      → SameSettings e (commit (initialize e) r).0
  unfolding initialize
  commit-SameSettings e (ok t) = ground arith
  commit-SameSettings e (raised x) = ground arith

  pub execute_market_order-SameSettings :
      (symbol side : String) (amount : N) (price : Option N) (e : PaperTradingEngine N)
      → SameSettings e (execute_market_order symbol side amount price e).0
  unfolding execute_market_order
  execute_market_order-SameSettings symbol side amount price e = commit-SameSettings e _

  store_position-balances :
      (symbol side : String) (amount entry_price : N) (stop take : Option N) (db : Database N)
      → OnOk
          (λ t. t.0.balances ≡ db.balances)
          (store_position symbol side amount entry_price stop take db)
  unfolding store_position
  store_position-balances symbol side amount entry_price stop take db =
      elim (Option-cases (lookup symbol db.positions)) [
        | inl e ↦
            rw (e, store_position)
              (OnOk-bind_any _ (new_position symbol side amount entry_price stop take db) _
                (λ p. refl))
        | inr (p, e) ↦
            rw (e, store_position)
              (OnOk-bind_any _ (average_in amount entry_price stop take p) _ (λ q. refl))
      ]

  -- One execution of an order at a price: how it moves what is free.
  abbrev pub Moves :
      String → String × String → N → N → Dict (PaperBalance N) → Dict (PaperBalance N) → Type 0
  Moves side pair amount exec_price bs bs' =
      (j : String) → free_of j bs' ≡ free_after side pair amount (mul amount exec_price) bs j

  pub filled-Moves :
      (side : String) (amount : N) (pair : String × String) (p : N) (e : PaperTradingEngine N)
      (t : PaperTradingEngine N × Result (OrderResult N)) (o : OrderResult N)
      → FilledOrUnchanged side amount pair p e t
      → t.1 ≡ ok o
      → Moves side pair amount (apply_slippage p side e) (balances_of e) (balances_of t.0)
        × (o.price ≡ apply_slippage p side e)
  filled-Moves side amount pair p e t o spec k =
      let filled = subst (λ r. FilledOrUnchanged side amount pair p e (t.0, r)) k spec in
      let cost = filled.cost_eq ∙ ap (mul amount) filled.price_eq in
      (
        λ j.
            subst
              (λ c. free_of j (balances_of t.0) ≡ free_after side pair amount c (balances_of e) j)
              cost (filled.moved j),
        filled.price_eq,
      )

  commit-Moves :
      {R : Type 0} (side : String) (pair : String × String) (amount exec_price : N)
      (bs : Dict (PaperBalance N)) (e : PaperTradingEngine N) (r : Result (Database N × R))
      → Moves side pair amount exec_price bs (balances_of e)
      → OnOk (λ t. t.0.balances ≡ balances_of e) r
      → OnOk (λ _. Moves side pair amount exec_price bs (balances_of (commit e r).0)) (commit e r).1
  commit-Moves side pair amount exec_price bs e (ok t) h q =
      subst (Moves side pair amount exec_price bs) (sym q) h
  commit-Moves side pair amount exec_price bs e (raised x) h q = tt

  pub open_position-Moves :
      (symbol side : String) (amount entry_price : N) (stop take : Option N)
      (e : PaperTradingEngine N) (pair : String × String)
      → get_base_quote symbol ≡ ok pair
      → initialize e ≡ e
      → let t = open_position symbol side amount entry_price stop take e in
        OnOk
          (λ _.
            Moves side pair amount
              (apply_slippage entry_price side e)
              (balances_of e)
              (balances_of t.0))
          t.1
  unfolding open_position
  open_position-Moves symbol side amount entry_price stop take e pair q i =
      let t = execute_market_order symbol side amount (some entry_price) (initialize e) in
      let spec =
        subst (λ e₁. FilledOrUnchanged side amount pair entry_price e₁ t) (ap initialize i ∙ i)
          (execute_market_order_lem symbol side amount (some entry_price) (initialize e) pair
            entry_price q refl) in
      elim (Result-cases t.1) [
        | inr (x, k) ↦ rw (k, open_position) tt
        | inl (o, k) ↦
            rw (k, open_position)
              (commit-Moves side pair amount _ (balances_of e) t.0 _
                (filled-Moves side amount pair entry_price e t o spec k).0
                (store_position-balances symbol side amount entry_price stop take t.0.database))
      ]
