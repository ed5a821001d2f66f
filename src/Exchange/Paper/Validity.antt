-- ===== src/Exchange/Paper/Validity.antt =====
-- keryxflow/exchange/paper.py: an invariant of the engine, through initialization and orders.
use keryx_talos.Base.{true, Bool, str_eq, Option, refl, some, none, is_some, String, if_keeps}
use keryx_talos.Base.Dict.{lookup-Values, insert-Values, lookup, Values, OnSome}
use keryx_talos.Base.Result.{
  OnOk-bind_any, OnOk-any, OnOk-bind, or_raise, OnOk, Exception, Result, ok, raised,
}
use keryx_talos.Number.{Number, IsNonNeg, HasSigns, of_ℕ}
use keryx_talos.Exchange.Paper.{
  get_base_quote, trade_side, get_price, commit, initialize_paper_balance, price_or, Database, fill,
  execute_market_order, apply_slippage, initialize, execute, PaperTradingEngine,
}
use keryx_talos.Exchange.Paper.Funds.{exchange-Funds, Funds, IsFunded}

module _ {N : Type 0} ⦃num : Number N⦄ where
  open num use {add, sub, mul, lt}

  -- Every balance is funded, and no position has a quantity below 0.
  pub record IsSound (db : Database N) : Type 0 where
    pub funds : Funds db.balances
    pub quantities : Values (λ p. IsNonNeg p.quantity) db.positions

  -- Besides, the prices, the initial balance and the factors of the slippage are not below 0.
  pub record IsValid (e : PaperTradingEngine N) : Type 0 where
    pub sound : IsSound e.database
    pub prices_ok : Values IsNonNeg e.prices
    pub initial_ok : IsNonNeg e.initial_balance
    pub up_ok : IsNonNeg (add (of_ℕ 1) e.slippage_pct)
    pub down_ok : IsNonNeg (sub (of_ℕ 1) e.slippage_pct)

  pub with_database :
      (e : PaperTradingEngine N) (db : Database N) (b : Bool)
      → IsValid e
      → IsSound db
      → IsValid (record e { database = db; initialized = b })
  with_database e db b v s = record {
    sound = s;
    prices_ok = v.prices_ok;
    initial_ok = v.initial_ok;
    up_ok = v.up_ok;
    down_ok = v.down_ok;
  }

  pub commit-IsValid :
      {R : Type 0} (e : PaperTradingEngine N) (r : Result (Database N × R))
      → IsValid e
      → OnOk (λ t. IsSound t.0) r
      → IsValid (commit e r).0
  commit-IsValid e (ok (db, x)) v s = with_database e db e.initialized v s
  commit-IsValid e (raised x) v s = v

  pub or_raise-OnOk :
      (P : N → Type 0) (o : Option N) (x : Exception) → OnSome P o → OnOk P (or_raise o x)
  or_raise-OnOk P none x p = tt
  or_raise-OnOk P (some a) x p = p

  pub price_or-OnSome :
      (P : N → Type 0) (o : Option N) (q : Option N)
      → OnSome P o
      → OnSome P q
      → OnSome P (price_or o q)
  price_or-OnSome P none q p r = r
  price_or-OnSome P (some a) q p r = p

  module _ (laws : HasSigns num) where
    open laws use {nought_nonneg, add_nonneg, sub_nonneg, mul_nonneg}

    initialize_paper_balance-IsSound :
        (c : String) (x : N) (db : Database N)
        → IsNonNeg x
        → IsSound db
        → IsSound (initialize_paper_balance c x db)
    initialize_paper_balance-IsSound c x db p s =
        if_keeps IsSound (is_some (lookup c db.balances)) s (record {
          funds =
              insert-Values IsFunded c _ db.balances
                (record { free_ok = p; total_eq = refl; used_eq = refl }) s.funds;
          quantities = s.quantities;
        })

    pub initialize-IsValid : (e : PaperTradingEngine N) → IsValid e → IsValid (initialize e)
    unfolding initialize
    initialize-IsValid e v = if_keeps IsValid e.initialized v (
        with_database e _ true v (
          initialize_paper_balance-IsSound e.base_currency e.initial_balance e.database v.initial_ok
            v.sound))

    apply_slippage-IsNonNeg :
        (price : N) (side : String) (e : PaperTradingEngine N)
        → IsValid e
        → IsNonNeg price
        → IsNonNeg (apply_slippage price side e)
    apply_slippage-IsNonNeg price side e v p =
        if_keeps {A = N} IsNonNeg (str_eq side "buy") (mul_nonneg _ _ p v.up_ok)
          (mul_nonneg _ _ p v.down_ok)

    fill-IsSound :
        (symbol side : String) (pair : String × String) (amount exec_price cost : N)
        (db : Database N)
        → IsNonNeg amount
        → IsNonNeg cost
        → IsSound db
        → OnOk IsSound (fill symbol side pair amount exec_price cost db)
    unfolding fill
    fill-IsSound symbol side pair amount exec_price cost db p q s =
        OnOk-bind Funds IsSound _ _
          (exchange-Funds laws side pair amount cost db.balances p q s.funds)
          (λ bs f.
            OnOk-bind_any IsSound (trade_side side) _
              (λ t. record { funds = f; quantities = s.quantities }))

    execute-IsSound :
        (symbol side : String) (amount : N) (price : Option N) (e : PaperTradingEngine N)
        → IsNonNeg amount
        → OnSome IsNonNeg price
        → IsValid e
        → OnOk (λ t. IsSound t.0) (execute symbol side amount price e)
    unfolding execute
    execute-IsSound symbol side amount price e p q v =
        OnOk-bind IsNonNeg _ _ _
          (or_raise-OnOk IsNonNeg (price_or price (get_price symbol e)) _ (
            price_or-OnSome IsNonNeg price _ q
              (lookup-Values IsNonNeg symbol e.prices v.prices_ok)))
          (λ price r.
            OnOk-bind (λ _. Unit) _ _ _ (OnOk-any (get_base_quote symbol))
              (λ pair u.
                OnOk-bind IsSound _ _ _
                  (fill-IsSound symbol side pair amount _ _ e.database p
                    (mul_nonneg _ _ p (apply_slippage-IsNonNeg price side e v r)) v.sound)
                  (λ db s. s)))

    pub execute_market_order-IsValid :
        (symbol side : String) (amount : N) (price : Option N) (e : PaperTradingEngine N)
        → IsNonNeg amount
        → OnSome IsNonNeg price
        → IsValid e
        → IsValid (execute_market_order symbol side amount price e).0
    unfolding execute_market_order
    execute_market_order-IsValid symbol side amount price e p q v =
        commit-IsValid (initialize e) _ (initialize-IsValid e v)
          (execute-IsSound symbol side amount price (initialize e) p q (initialize-IsValid e v))
