-- ===== src/Exchange/Paper/Quantities.antt =====
-- keryxflow/exchange/paper.py: the quantities of the positions through the calls that change them.
use keryx_talos.Exchange.Paper.Validity.{with_database, IsValid, IsSound}
use keryx_talos.Base.{inl, inr, subst, String, some, if_keeps, none, Option, Option-cases, [], ◌∷◌}
use keryx_talos.Base.Dict.{lookup-Values, insert-Values, OnSome, lookup, insert, Values, Dict}
use keryx_talos.Base.Result.{Exception, or_raise, Result-cases, OnOk-bind_any, OnOk-bind, OnOk}
use keryx_talos.Number.{Number, IsNonNeg, HasSigns, is_nonzero}
use keryx_talos.Exchange.Paper.{
  trade_side, latest_trade, average_price, pnl_pct_at, average_in, store_position, new_position,
  PaperTradingEngine, Position, Database,
}
use keryx_talos.Exchange.Paper.Book.{mark, mark_all, update_position_prices}

module _ {N : Type 0} ⦃num : Number N⦄ where
  abbrev Quantities : Dict (Position N) → Type 0
  Quantities = Values (λ p. IsNonNeg p.quantity)

  mark-quantity :
      (price : Option N) (p : Position N)
      → IsNonNeg p.quantity
      → OnOk (λ q. IsNonNeg q.quantity) (mark price p)
  mark-quantity none p h = h
  mark-quantity (some price) p h =
      if_keeps (OnOk (λ q. IsNonNeg q.quantity)) (is_nonzero price)
        (OnOk-bind_any (λ q. IsNonNeg q.quantity) (pnl_pct_at price p) _ (λ pct. h)) h

  mark_all-Quantities :
      (prices : Dict N) (ps : Dict (Position N))
      → Quantities ps
      → OnOk Quantities (mark_all prices ps)
  unfolding mark_all
  mark_all-Quantities prices [] h = tt
  mark_all-Quantities prices (e ∷ ps) h =
      OnOk-bind (λ q. IsNonNeg q.quantity) _ _ _ (mark-quantity (lookup e.0 prices) e.1 h.0)
        (λ q k. OnOk-bind Quantities _ _ _ (mark_all-Quantities prices ps h.1) (λ qs l. (k, l)))

  pub update_position_prices-IsValid :
      (e : PaperTradingEngine N) → IsValid e → IsValid (update_position_prices e).0
  unfolding update_position_prices
  update_position_prices-IsValid e v =
      elim (Result-cases (mark_all e.prices e.database.positions)) [
        | inr (x, h) ↦ rw (h, update_position_prices) v
        | inl (ps, h) ↦
            rw (h, update_position_prices)
              (with_database e _ e.initialized v (record {
                funds = v.sound.funds;
                quantities =
                    subst (OnOk Quantities) h
                      (mark_all-Quantities e.prices e.database.positions v.sound.quantities);
              }))
      ]

  stored :
      (symbol : String) (db : Database N)
      → IsSound db
      → (q : Position N) → IsNonNeg q.quantity
      → IsSound (record db { positions = insert symbol q db.positions })
  stored symbol db s q k = record {
    funds = s.funds;
    quantities = insert-Values _ symbol q db.positions k s.quantities;
  }

  module _ (laws : HasSigns num) where
    average_in-quantity :
        (amount entry_price : N) (stop take : Option N) (p : Position N)
        → IsNonNeg amount
        → IsNonNeg p.quantity
        → OnOk (λ q. IsNonNeg q.quantity) (average_in amount entry_price stop take p)
    unfolding average_in
    average_in-quantity amount entry_price stop take p h k =
        OnOk-bind_any {A = N} (λ q. IsNonNeg q.quantity)
          (or_raise (average_price amount entry_price p) Exception.zero_division_error) _
          (λ average. laws.add_nonneg _ _ k h)

    new_position-quantity :
        (symbol side : String) (amount entry_price : N) (stop take : Option N) (db : Database N)
        → IsNonNeg amount
        → OnOk (λ q. IsNonNeg q.quantity) (new_position symbol side amount entry_price stop take db)
    unfolding new_position
    new_position-quantity symbol side amount entry_price stop take db h =
        OnOk-bind_any (λ q. IsNonNeg q.quantity)
          (or_raise (latest_trade symbol db.trades) Exception.database_error) _
          (λ trade. OnOk-bind_any (λ q. IsNonNeg q.quantity) (trade_side side) _ (λ side. h))

    pub store_position-IsSound :
        (symbol side : String) (amount entry_price : N) (stop take : Option N) (db : Database N)
        → IsNonNeg amount
        → IsSound db
        → OnOk (λ t. IsSound t.0) (store_position symbol side amount entry_price stop take db)
    unfolding store_position
    store_position-IsSound symbol side amount entry_price stop take db h s =
        elim (Option-cases (lookup symbol db.positions)) [
          | inl e ↦ rw e (
              OnOk-bind (λ q. IsNonNeg q.quantity) _ _ _
                (new_position-quantity symbol side amount entry_price stop take db h)
                (stored symbol db s))
          | inr (p, e) ↦ rw e (
              OnOk-bind (λ q. IsNonNeg q.quantity) _ _ _
                (average_in-quantity amount entry_price stop take p h
                  (subst (OnSome _) e (lookup-Values _ symbol db.positions s.quantities)))
                (stored symbol db s))
        ]
