-- ===== src/Backtester/Engine/Ledger.antt =====
-- keryxflow/backtester/engine.py: where the money of a run went.
use keryx_talos.Aegis.Risk.{OrderRequest}
use keryx_talos.Base.{
  sym, ◌∙◌, eq_iff, arith, ap, ◌≡◌, ◌∷◌, [], none, some, refl, ℕ, String, Option,
}
use keryx_talos.Base.Dict.{
  Dict, lookup, insert, erase, erase-missing, insert-missing, Unique, insert-Unique, erase-Unique,
}
use keryx_talos.Base.Result.{OnOk}
use keryx_talos.Number.{
  Number, Conversion, IsExact, nought, sum_by, sum_by-append, add_rotate, add_left_comm,
  add_right_comm, sub-add,
}
use keryx_talos.Backtester.Engine.{
  entry_fill, exit_fill, trade_of, new_position, BacktestEngine, BacktestPosition, BacktestTrade,
  Generator, MarketData, cost_of, execute_order, settle,
}
use keryx_talos.Backtester.Engine.Candles.{set_price}
use keryx_talos.Backtester.Engine.Run.{run}
use keryx_talos.Backtester.Engine.Steps.{IsKept, run-keeps}

module _ {N : Type 0} ⦃num : Number N⦄ where
  open num use {add, mul}

  -- What a position cost, and a trade; what a trade brought.
  abbrev pub cost_of_position : N → BacktestPosition N → N
  cost_of_position commission p = cost_of commission p.quantity p.entry_price

  abbrev pub cost_of_trade : N → BacktestTrade N → N
  cost_of_trade commission t = cost_of commission t.quantity t.entry_price

  abbrev pub brought : BacktestTrade N → N
  brought t = elim t.exit_price [ none ↦ nought | some x ↦ mul t.quantity x ]

  abbrev pub open_costs : N → Dict (BacktestPosition N) → N
  open_costs commission d = sum_by (λ q. cost_of_position commission q.1) d

  open_costs-mark :
      (c price : N) (s : String) (p : BacktestPosition N) (d : Dict (BacktestPosition N))
      → lookup s d ≡ some p
      → open_costs c (insert s (set_price price p) d) ≡ open_costs c d
  open_costs-mark c price s p [] h = ground arith
  open_costs-mark c price s p (e ∷ d) h = ground (arith, open_costs-mark c price s p d)

  open_costs-erase :
      (c : N) (s : String) (p : BacktestPosition N) (d : Dict (BacktestPosition N))
      → IsExact num
      → Unique d
      → lookup s d ≡ some p
      → open_costs c d ≡ add (cost_of_position c p) (open_costs c (erase s d))
  open_costs-erase c s p [] laws u h = ground arith
  open_costs-erase c s p (e ∷ d) laws u h = ground (
    arith,
    eq_iff e.0 s,
    erase-missing s d,
    open_costs-erase c s p d laws,
    add_left_comm laws (cost_of_position c e.1) (cost_of_position c p) (open_costs c (erase s d)),
  )

module _ {N : Type 0} {D : Type 0} ⦃num : Number N⦄ ⦃dec : Number D⦄ ⦃conv : Conversion N D⦄ where
  open num use {add}

  -- The balance, with what the open and the closed positions cost, is the balance at the start and
  -- what the closed ones brought.
  pub record IsBooked (commission initial_balance : N) (e : BacktestEngine N D) : Type 0 where
    pub keys : Unique e.positions
    pub commission_eq : e.commission ≡ commission
    pub initial_eq : e.initial_balance ≡ initial_balance
    pub books :
        add e.balance
          (add (open_costs commission e.positions) (sum_by (cost_of_trade commission) e.trades))
        ≡ add initial_balance (sum_by brought e.trades)

  module _ (laws : IsExact num) (c b : N) where
    open laws use {add_assoc, add-nought}

    execute_order-IsBooked :
        (order : OrderRequest N) (e : BacktestEngine N D)
        → lookup order.symbol e.positions ≡ none
        → IsBooked c b e
        → IsBooked c b (execute_order order e)
    unfolding execute_order
    execute_order-IsBooked order e missing w =
        let f = entry_fill e.slippage order.side order.entry_price in
        let np = new_position e.current_time order f in
        record {
          keys = insert-Unique order.symbol np e.positions w.keys;
          commission_eq = w.commission_eq;
          initial_eq = w.initial_eq;
          books =
              rw
                (
                  w.commission_eq,
                  insert-missing order.symbol np e.positions missing,
                  sum_by-append laws (λ q. cost_of_position c q.1) e.positions (order.symbol, np),
                )
                (sub-add laws e.balance (cost_of c order.quantity f) (open_costs c e.positions)
                    (sum_by (cost_of_trade c) e.trades)
                  ∙ w.books);
        }

    settle-IsBooked :
        (symbol : String) (p : BacktestPosition N) (price : N) (reason : String) (now : ℕ)
        (e : BacktestEngine N D)
        → lookup symbol e.positions ≡ some p
        → IsBooked c b e
        → IsBooked c b (settle symbol p price reason now e)
    unfolding settle
    settle-IsBooked symbol p price reason now e h w =
        let f = exit_fill e.slippage p.side price in
        let t = trade_of e.commission symbol p f reason e.current_time in
        let k = cost_of_position c p in
        let g = num.mul p.quantity f in
        let rest = open_costs c (erase symbol e.positions) in
        let costs = sum_by (cost_of_trade c) e.trades in
        record {
          keys = erase-Unique symbol e.positions w.keys;
          commission_eq = w.commission_eq;
          initial_eq = w.initial_eq;
          books =
              rw
                (
                  sum_by-append laws (cost_of_trade c) e.trades t,
                  sum_by-append laws brought e.trades t,
                )
                (ap (add (add e.balance g)) (add_rotate laws rest costs k)
                  ∙ add_right_comm laws e.balance g (add (add k rest) costs)
                  ∙ ap (λ x. add x g)
                      (ap (λ o. add e.balance (add o costs))
                          (sym (open_costs-erase c symbol p e.positions laws w.keys h))
                        ∙ w.books)
                  ∙ add_assoc b (sum_by brought e.trades) g);
        }

    IsBooked-IsKept : IsKept (IsBooked c b)
    IsBooked-IsKept = record {
      opened = λ order e missing placeable w. execute_order-IsBooked order e missing w;
      settled = λ symbol p price reason now e h w. settle-IsBooked symbol p price reason now e h w;
      marked = λ symbol p price e h w. record {
        keys = insert-Unique symbol (set_price price p) e.positions w.keys;
        commission_eq = w.commission_eq;
        initial_eq = w.initial_eq;
        books = rw (open_costs-mark c price symbol p e.positions h) w.books;
      };
      noted = λ risk_manager equity_curve time e w. record {
        keys = w.keys;
        commission_eq = w.commission_eq;
        initial_eq = w.initial_eq;
        books = w.books;
      };
    }

  -- Where sums are exact, the balance after a run is the initial balance less what every position cost
  -- to open, its commission included, plus the value at which the closed ones were closed, whatever
  -- their side: a short that is closed adds its value as a long does, and no commission is taken when
  -- a position is closed.
  pub run-IsBooked :
      (generate : Generator N) (clock : ℕ → ℕ) (ending : ℕ) (market : MarketData N)
      (start end_time : Option ℕ) (e : BacktestEngine N D)
      → IsExact num
      → OnOk
          (IsBooked e.commission e.initial_balance)
          (run generate clock ending market start end_time e)
  run-IsBooked generate clock ending market start end_time e laws =
      run-keeps (IsBooked-IsKept laws e.commission e.initial_balance) generate clock ending market
        start end_time e
        (record {
          keys = tt;
          commission_eq = refl;
          initial_eq = refl;
          books = ap (num.add e.initial_balance) (laws.add-nought _);
        })
