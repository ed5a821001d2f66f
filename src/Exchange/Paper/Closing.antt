-- ===== src/Exchange/Paper/Closing.antt =====
-- keryxflow/exchange/paper.py: what closing a position, or adding to one, changes.
use keryx_talos.Exchange.Paper.Movements.{can_fill, free_after, free_of}
use keryx_talos.Base.{
  eq_refl, some, inl, str_eq, ◌≡◌, inr, arith, true, refl, if◌then◌else◌, String, ◌∙◌, Option, Side,
  List, ℕ, map, All, Bool, Bool-cases, ◌==◌, ◌∷◌, [], false, subst, Option-cases, none, ap,
}
use keryx_talos.Base.Dict.{lookup-insert, Dict, lookup, lookup-erase}
use keryx_talos.Base.Result.{OnOk, raised, Result, ok, Result-cases}
use keryx_talos.Number.{Number}
use keryx_talos.Exchange.Paper.{
  commit, open_position, average_price, Database, average_in, store_position, apply_slippage,
  pnl_pct_at, get_price, pnl_at, close_side, price_or, get_base_quote, close_found, initialize,
  CloseResult, PaperTradingEngine, Position, Trade, TradeStatus, close_trade, close_position,
  execute_market_order,
}
use keryx_talos.Exchange.Paper.Transactions.{FilledOrUnchanged, execute_market_order_lem}

-- The side of the order that closes a position.
abbrev pub exit_side : Side → String
exit_side Side.buy = "sell"
exit_side Side.sell = "buy"

close_side-exit_side : (s : Side) → close_side s ≡ exit_side s
close_side-exit_side Side.buy = refl
close_side-exit_side Side.sell = refl

-- What is said of the trades that are meant.
abbrev OnTrue : Bool → Type 0 → Type 0
OnTrue true A = A
OnTrue false A = Unit

module _ {N : Type 0} ⦃num : Number N⦄ where
  open num use {mul, add, sub}

  initialize-initialize : (e : PaperTradingEngine N) → initialize (initialize e) ≡ initialize e
  unfolding initialize
  initialize-initialize e = ground arith

  abbrev positions_of : PaperTradingEngine N → Dict (Position N)
  positions_of e = e.database.positions

  -- What closing a position at a price earns.
  abbrev pub profit : Side → N → N → N → N
  profit Side.buy entry exit quantity = mul (sub exit entry) quantity
  profit Side.sell entry exit quantity = mul (sub entry exit) quantity

  pnl_at-profit :
      (price : N) (p : Position N) (s : Side)
      → p.side ≡ s
      → pnl_at price p ≡ profit s p.entry_price price p.quantity
  pnl_at-profit price p Side.buy h = rw h refl
  pnl_at-profit price p Side.sell h = rw h refl

  -- A trade that is closed at a price with a profit.
  abbrev IsClosedAt : N → N → Trade N → Type 0
  IsClosedAt price pnl t =
      (t.exit_price ≡ some price) × (t.pnl ≡ some pnl) × (t.status ≡ TradeStatus.closed)

  close_trade-IsClosedAt :
      (id : ℕ) (price pnl pct : N) (ts : List (Trade N))
      → All
          (λ t. OnTrue (t.id == id) (IsClosedAt price pnl t))
          (map (close_trade id price pnl pct) ts)
  close_trade-IsClosedAt id price pnl pct [] = tt
  close_trade-IsClosedAt id price pnl pct (t ∷ ts) = (
    elim (Bool-cases (t.id == id)) [
      | inl same ↦ rw (same, same) (refl, refl, refl)
      | inr other ↦ rw (other, other) tt
    ],
    close_trade-IsClosedAt id price pnl pct ts,
  )

  -- A position that is closed at a price: the result has its side, quantity and entry price, and the
  -- profit of the price, an order of the other side sold or bought back its quantity at the price,
  -- its trade is closed with the price and the profit, and no other position changed.
  pub record Closed (symbol : String) (pair : String × String) (price : N) (p : Position N)
      (e e' : PaperTradingEngine N) (r : CloseResult N) : Type 0 where
    pub price_eq : r.exit_price ≡ price
    pub pnl_eq : r.pnl ≡ profit p.side p.entry_price price p.quantity
    pub position_eq :
        (r.side ≡ p.side) × (r.quantity ≡ p.quantity) × (r.entry_price ≡ p.entry_price)
    pub moved :
        (j : String)
        → free_of j e'.database.balances
          ≡ free_after
              (exit_side p.side)
              pair
              p.quantity
              (mul p.quantity (apply_slippage price (exit_side p.side) e))
              e.database.balances
              j
    pub covered :
        can_fill
          (exit_side p.side)
          pair
          p.quantity
          (mul p.quantity (apply_slippage price (exit_side p.side) e))
          e.database.balances
        ≡ true
    pub recorded :
        All (λ t. OnTrue (t.id == p.trade_id) (IsClosedAt price r.pnl t)) e'.database.trades
    pub gone :
        (j : String)
        → lookup j (positions_of e') ≡ (if str_eq symbol j then none else lookup j (positions_of e))

  abbrev pub ClosedOrKept :
      String
      → String × String
      → Option N
      → PaperTradingEngine N
      → PaperTradingEngine N × Result (Option (CloseResult N))
      → Type 0
  ClosedOrKept symbol pair price e (e', ok (some r)) =
      (x : N) × (price ≡ some x)
      × (p : Position N) × (lookup symbol (positions_of e) ≡ some p)
      × Closed symbol pair x p e e' r
  ClosedOrKept symbol pair price e (e', ok none) =
      (e' ≡ e) × (lookup symbol (positions_of e) ≡ none)
  ClosedOrKept symbol pair price e (e', raised x) = e' ≡ e

  close_found-ClosedOrKept :
      (symbol : String) (pair : String × String) (price : N) (p : Position N)
      (e : PaperTradingEngine N)
      → get_base_quote symbol ≡ ok pair
      → initialize e ≡ e
      → lookup symbol (positions_of e) ≡ some p
      → ClosedOrKept symbol pair (some price) e (close_found symbol price p e)
  unfolding close_found
  close_found-ClosedOrKept symbol pair price p e q i f =
      let side = exit_side p.side in
      let t = execute_market_order symbol (close_side p.side) p.quantity (some price) e in
      let spec =
        subst (λ e₁. FilledOrUnchanged side p.quantity pair price e₁ t) i
          (subst (λ s. FilledOrUnchanged s p.quantity pair price (initialize e) t)
            (close_side-exit_side p.side)
            (execute_market_order_lem symbol (close_side p.side) p.quantity (some price) e pair
              price q refl)) in
      elim (Result-cases (pnl_pct_at price p)) [
        | inr (x, h) ↦ rw (h, close_found) refl
        | inl (pct, h) ↦
            rw (h, close_found)
              (elim (Result-cases t.1) [
                | inr (x, k) ↦
                    rw (k, close_found)
                      (subst (λ r. FilledOrUnchanged side p.quantity pair price e (t.0, r)) k spec)
                | inl (o, k) ↦
                    let filled =
                      subst (λ r. FilledOrUnchanged side p.quantity pair price e (t.0, r)) k spec in
                    let cost = filled.cost_eq ∙ ap (mul p.quantity) filled.price_eq in
                    rw (k, close_found)
                      (
                        price,
                        refl,
                        p,
                        f,
                        record {
                          price_eq = refl;
                          pnl_eq = pnl_at-profit price p p.side refl;
                          position_eq = (refl, refl, refl);
                          recorded =
                              close_trade-IsClosedAt p.trade_id price (pnl_at price p) pct
                                t.0.database.trades;
                          moved = λ j.
                              subst
                                (λ c.
                                  free_of j t.0.database.balances
                                  ≡ free_after side pair p.quantity c e.database.balances j)
                                cost (filled.moved j);
                          covered =
                              subst
                                (λ c. can_fill side pair p.quantity c e.database.balances ≡ true)
                                cost filled.covered;
                          gone = λ j.
                              lookup-erase symbol j (positions_of t.0)
                              ∙ ap (λ ps. if str_eq symbol j then none else lookup j ps)
                                  filled.positions_eq;
                        },
                      )
              ])
      ]

  -- `close_position` of a symbol with two currencies raises or finds no position, and leaves the
  -- engine as it was, initialized, or it closes the position that the symbol had at the price that it
  -- was given, or else at the last price of the symbol: the result has that price, the side, the
  -- quantity and the entry price of the position, and the profit, which is the exit price less the
  -- entry price, or the reverse for a sold position, times the quantity; an order of the other side
  -- over the quantity was covered and moved the free balances at that price with its slippage; every
  -- trade with the id that the position holds is closed with the price and the profit; and no other
  -- position changed.
  pub close_position_lem :
      (symbol : String) (pair : String × String) (price : Option N) (e : PaperTradingEngine N)
      → get_base_quote symbol ≡ ok pair
      → ClosedOrKept symbol pair
          (price_or price (get_price symbol (initialize e)))
          (initialize e)
          (close_position symbol price e)
  unfolding close_position
  close_position_lem symbol pair price e q =
      elim (Option-cases (price_or price (get_price symbol (initialize e)))) [
        | inl h ↦ rw (h, close_position) refl
        | inr (x, h) ↦
            rw (h, close_position)
              (elim (Option-cases (lookup symbol (positions_of (initialize e)))) [
                | inl f ↦ rw (f, close_position) (refl, f)
                | inr (p, f) ↦
                    rw (f, close_position)
                      (close_found-ClosedOrKept symbol pair x p (initialize e) q
                        (initialize-initialize e) f)
              ])
      ]

  store_position-average :
      (symbol side : String) (amount entry_price : N) (stop take : Option N) (db : Database N)
      (p : Position N) (a : N)
      → lookup symbol db.positions ≡ some p
      → average_price amount entry_price p ≡ some a
      → OnOk
          (λ t.
            (t.1.quantity ≡ add p.quantity amount)
            × (t.1.entry_price ≡ a)
            × (t.1.side ≡ p.side)
            × (lookup symbol t.0.positions ≡ some t.1))
          (store_position symbol side amount entry_price stop take db)
  unfolding store_position average_in
  store_position-average symbol side amount entry_price stop take db p a f h =
      rw (f, h, store_position)
        (refl, refl, refl, lookup-insert symbol symbol _ db.positions ∙ rw (eq_refl symbol) refl)

  abbrev pub Averaged : String → Position N → N → N → PaperTradingEngine N → Position N → Type 0
  Averaged symbol p amount a e q =
      (q.quantity ≡ add p.quantity amount)
      × (q.entry_price ≡ a)
      × (q.side ≡ p.side)
      × (lookup symbol (positions_of e) ≡ some q)

  abbrev pub AveragedOrRaised :
      String → Position N → N → N → PaperTradingEngine N × Result (Position N) → Type 0
  AveragedOrRaised symbol p amount a (e, r) = OnOk (Averaged symbol p amount a e) r

  commit-AveragedOrRaised :
      (symbol : String) (p : Position N) (amount a : N) (e : PaperTradingEngine N)
      (r : Result (Database N × Position N))
      → OnOk (λ t. Averaged symbol p amount a (record e { database = t.0 }) t.1) r
      → AveragedOrRaised symbol p amount a (commit e r)
  commit-AveragedOrRaised symbol p amount a e (ok t) h = h
  commit-AveragedOrRaised symbol p amount a e (raised x) h = tt

  -- Opening a position of a symbol that has one, where it succeeds, adds the amount to the quantity
  -- and takes the average price of the two lots, but keeps the side of the old position: a "sell" is
  -- added to a bought position like a further "buy".
  pub open_position-Averaged :
      (symbol side : String) (amount entry_price : N) (stop take : Option N)
      (e : PaperTradingEngine N) (pair : String × String) (p : Position N) (a : N)
      → get_base_quote symbol ≡ ok pair
      → lookup symbol (positions_of (initialize e)) ≡ some p
      → average_price amount entry_price p ≡ some a
      → AveragedOrRaised symbol p amount a
          (open_position symbol side amount entry_price stop take e)
  unfolding open_position
  open_position-Averaged symbol side amount entry_price stop take e pair p a q f h =
      let t = execute_market_order symbol side amount (some entry_price) (initialize e) in
      let spec =
        subst (λ e₁. FilledOrUnchanged side amount pair entry_price e₁ t) (initialize-initialize e)
          (execute_market_order_lem symbol side amount (some entry_price) (initialize e) pair
            entry_price q refl) in
      elim (Result-cases t.1) [
        | inr (x, k) ↦ rw (k, open_position) tt
        | inl (o, k) ↦
            let filled =
              subst (λ r. FilledOrUnchanged side amount pair entry_price (initialize e) (t.0, r)) k
                spec in
            rw (k, open_position)
              (commit-AveragedOrRaised symbol p amount a t.0 _ (
                store_position-average symbol side amount entry_price stop take t.0.database p a
                  (ap (lookup symbol) filled.positions_eq ∙ f) h))
      ]
