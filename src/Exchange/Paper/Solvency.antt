-- ===== src/Exchange/Paper/Solvency.antt =====
-- keryxflow/exchange/paper.py: the invariant of the engine through positions and sequences of calls.
use keryx_talos.Exchange.Paper.Quantities.{store_position-IsSound, update_position_prices-IsValid}
use keryx_talos.Base.{subst, List, Option, some, inl, [], String, inr, ◌∷◌, none, All, Option-cases}
use keryx_talos.Base.Dict.{erase-Values, lookup-Values, insert-Values, lookup, OnSome}
use keryx_talos.Base.Result.{Result-cases}
use keryx_talos.Number.{of_ℕ, Number, IsNonNeg, HasSigns}
use keryx_talos.Exchange.Paper.{
  new, update_price, price_or, get_price, pnl_pct_at, close_side, initialize, Database, close_found,
  Op, Position, PaperTradingEngine, close_position, open_position, execute_market_order,
}
use keryx_talos.Exchange.Paper.Book.{close_all_positions, apply, run, close_each, close_each}
use keryx_talos.Exchange.Paper.Validity.{
  with_database, commit-IsValid, price_or-OnSome, initialize-IsValid, execute_market_order-IsValid,
  IsValid, IsSound,
}

module _ {N : Type 0} ⦃num : Number N⦄ where
  open num use {add, sub}

  -- A call whose amounts and prices are not below 0.
  abbrev pub IsNonNegOp : Op N → Type 0
  IsNonNegOp (Op.update_price symbol price) = IsNonNeg price
  IsNonNegOp (Op.execute_market_order symbol side amount price) =
      IsNonNeg amount × OnSome IsNonNeg price
  IsNonNegOp (Op.open_position symbol side amount entry_price stop take) =
      IsNonNeg amount × IsNonNeg entry_price
  IsNonNegOp (Op.close_position symbol price) = OnSome IsNonNeg price
  IsNonNegOp Op.update_position_prices = Unit
  IsNonNegOp Op.close_all_positions = Unit

  module _ (laws : HasSigns num) where
    open_position-IsValid :
        (symbol side : String) (amount entry_price : N) (stop take : Option N)
        (e : PaperTradingEngine N)
        → IsNonNeg amount
        → IsNonNeg entry_price
        → IsValid e
        → IsValid (open_position symbol side amount entry_price stop take e).0
    unfolding open_position
    open_position-IsValid symbol side amount entry_price stop take e h k v =
        let t = execute_market_order symbol side amount (some entry_price) (initialize e) in
        let v₁ =
          execute_market_order-IsValid laws symbol side amount (some entry_price) (initialize e) h k
            (initialize-IsValid laws e v) in
        elim (Result-cases t.1) [
          | inr (x, r) ↦ rw (r, open_position) v₁
          | inl (o, r) ↦
              rw (r, open_position)
                (commit-IsValid t.0 _ v₁ (
                  store_position-IsSound laws symbol side amount entry_price stop take t.0.database
                    h v₁.sound))
        ]

    close_found-IsValid :
        (symbol : String) (price : N) (p : Position N) (e : PaperTradingEngine N)
        → IsNonNeg price
        → IsNonNeg p.quantity
        → IsValid e
        → IsValid (close_found symbol price p e).0
    unfolding close_found
    close_found-IsValid symbol price p e h k v =
        let t = execute_market_order symbol (close_side p.side) p.quantity (some price) e in
        let v₁ =
          execute_market_order-IsValid laws symbol (close_side p.side) p.quantity (some price) e k h
            v in
        elim (Result-cases (pnl_pct_at price p)) [
          | inr (x, r) ↦ rw (r, close_found) v
          | inl (pct, r) ↦
              rw (r, close_found)
                (elim (Result-cases t.1) [
                  | inr (x, q) ↦ rw (q, close_found) v₁
                  | inl (o, q) ↦
                      rw (q, close_found)
                        (with_database t.0 _ t.0.initialized v₁ (record {
                          funds = v₁.sound.funds;
                          quantities =
                              erase-Values _ symbol t.0.database.positions v₁.sound.quantities;
                        }))
                ])
        ]

    close_position-IsValid :
        (symbol : String) (price : Option N) (e : PaperTradingEngine N)
        → OnSome IsNonNeg price
        → IsValid e
        → IsValid (close_position symbol price e).0
    unfolding close_position
    close_position-IsValid symbol price e h v =
        let v₁ = initialize-IsValid laws e v in
        let known =
          price_or-OnSome IsNonNeg price (get_price symbol (initialize e)) h
            (lookup-Values IsNonNeg symbol (initialize e).prices v₁.prices_ok) in
        elim (Option-cases (price_or price (get_price symbol (initialize e)))) [
          | inl q ↦ rw (q, close_position) v₁
          | inr (x, q) ↦
              rw (q, close_position)
                (elim (Option-cases (lookup symbol (initialize e).database.positions)) [
                  | inl r ↦ rw (r, close_position) v₁
                  | inr (p, r) ↦
                      rw (r, close_position)
                        (close_found-IsValid symbol x p (initialize e)
                          (subst (OnSome IsNonNeg) q known)
                          (subst (OnSome _) r (lookup-Values _ symbol _ v₁.sound.quantities)) v₁)
                ])
        ]

    close_each-IsValid :
        (ps : List (String × Position N)) (e : PaperTradingEngine N)
        → IsValid e
        → IsValid (close_each ps e).0
    unfolding close_each
    close_each-IsValid [] e v = v
    close_each-IsValid (p ∷ ps) e v =
        let v₁ = close_position-IsValid p.0 none e tt v in
        elim (Result-cases (close_position p.0 none e).1) [
          | inr (x, r) ↦ rw (r, close_each) v₁
          | inl (o, r) ↦ rw (r, close_each) (close_each-IsValid ps (close_position p.0 none e).0 v₁)
        ]

    apply-IsValid :
        (op : Op N) (e : PaperTradingEngine N) → IsNonNegOp op → IsValid e → IsValid (apply op e)
    unfolding update_price close_all_positions
    apply-IsValid (Op.update_price symbol price) e h v = record {
      sound = v.sound;
      prices_ok = insert-Values IsNonNeg symbol price e.prices h v.prices_ok;
      initial_ok = v.initial_ok;
      up_ok = v.up_ok;
      down_ok = v.down_ok;
    }
    apply-IsValid (Op.execute_market_order symbol side amount price) e h v =
        execute_market_order-IsValid laws symbol side amount price e h.0 h.1 v
    apply-IsValid (Op.open_position symbol side amount entry_price stop take) e h v =
        open_position-IsValid symbol side amount entry_price stop take e h.0 h.1 v
    apply-IsValid (Op.close_position symbol price) e h v = close_position-IsValid symbol price e h v
    apply-IsValid Op.update_position_prices e h v = update_position_prices-IsValid e v
    apply-IsValid Op.close_all_positions e h v =
        close_each-IsValid (initialize e).database.positions (initialize e)
          (initialize-IsValid laws e v)

    run-IsValid :
        (ops : List (Op N)) (e : PaperTradingEngine N)
        → All IsNonNegOp ops
        → IsValid e
        → IsValid (run ops e)
    unfolding run
    run-IsValid [] e h v = v
    run-IsValid (op ∷ ops) e h v = run-IsValid ops (apply op e) h.1 (apply-IsValid op e h.0 v)

    -- A new paper engine, whose initial balance and slippage factors are not below 0, over a database
    -- in which every balance is not below 0 and all free, with its total the same and nothing used,
    -- and no position has a quantity below 0: after any calls with amounts and prices that are not
    -- below 0, whichever of them raise, the database is such a database again, with the balances that
    -- the calls created. So no balance is ever overdrawn.
    pub run-new-IsSound :
        (currency : String) (initial_balance slippage_pct : N) (db : Database N) (ops : List (Op N))
        → IsNonNeg initial_balance
        → IsNonNeg (add (of_ℕ 1) slippage_pct)
        → IsNonNeg (sub (of_ℕ 1) slippage_pct)
        → IsSound db
        → All IsNonNegOp ops
        → IsSound (run ops (new currency initial_balance slippage_pct db)).database
    run-new-IsSound currency initial_balance slippage_pct db ops h u d s p =
        (run-IsValid ops (new currency initial_balance slippage_pct db) p
          (record { sound = s; prices_ok = tt; initial_ok = h; up_ok = u; down_ok = d })).sound
