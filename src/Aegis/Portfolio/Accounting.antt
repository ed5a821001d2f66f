-- ===== src/Aegis/Portfolio/Accounting.antt =====
-- The books of the portfolio through any history of calls.
use keryx_talos.Aegis.Portfolio.{
  reset_consecutive_losses, reset_hourly, apply, reset_weekly, Op, unrealized_pnl, reset_daily,
  add_position, update_prices, priced, create_portfolio_state, run, to_list, settle, close_position,
  reprice, pop_position, total_exposure, entry_value, PositionState, find_position, PortfolioState,
  update_total_value,
}
use keryx_talos.Base.{
  ◌∷◌, ◌++◌, none, inr, [], arith, Option-cases, map, some, sym, refl, ap, inl, ◌≡◌, true, String,
  ◌∙◌, List,
}
use keryx_talos.Base.Dict.{Dict}
use keryx_talos.Number.{Number, Conversion, IsTotalOrder, IsExact, nought, add_left_comm}

module _ {D : Type 0} ⦃dec : Number D⦄ where
  open dec use {add, sub, le}

  -- The total is the cash and the open positions at their current prices, and no more than the peak.
  pub record IsValid (s : PortfolioState D) : Type 0 where
    pub total_eq : s.total_value ≡ add s.cash_available (total_exposure s)
    pub total_le_peak : le s.total_value s.peak_value ≡ true

  update_total_value-IsValid :
      IsTotalOrder dec → (s : PortfolioState D) → IsValid (update_total_value s)
  unfolding update_total_value
  update_total_value-IsValid laws s =
      let total = add s.cash_available (total_exposure s) in
      ground (arith, laws.le_refl total, laws.le_of_not_lt s.peak_value total)

  settle-IsValid :
      IsTotalOrder dec
      → (symbol : String) (p : PositionState D) (s : PortfolioState D) → IsValid (settle symbol p s)
  unfolding settle
  settle-IsValid laws symbol p s = update_total_value-IsValid laws _

  -- What the open positions cost.
  abbrev pub entry_total : List (PositionState D) → D
  entry_total [] = nought
  entry_total (p ∷ ps) = add (entry_value p) (entry_total ps)

  -- Cash and the cost of the open positions.
  abbrev pub book_value : PortfolioState D → D
  book_value s = add s.cash_available (entry_total s.positions)

  abbrev pub total_of : List D → D
  total_of [] = nought
  total_of (x ∷ xs) = add x (total_of xs)

  module _ (laws : IsExact dec) where
    open laws use {add_comm, add_assoc, add-nought, add-sub}

    entry_total-append :
        (ps : List (PositionState D)) (p : PositionState D)
        → entry_total (ps ++ (p ∷ [])) ≡ add (entry_total ps) (entry_value p)
    entry_total-append [] p = add_comm _ _
    entry_total-append (q ∷ ps) p = rw (entry_total-append ps p) (sym (add_assoc _ _ _))

    entry_total-pop :
        (symbol : String) (ps : List (PositionState D)) (p : PositionState D)
        → find_position symbol ps ≡ some p
        → entry_total ps ≡ add (entry_value p) (entry_total (pop_position symbol ps))
    unfolding find_position pop_position
    entry_total-pop symbol [] p e = cc
    entry_total-pop symbol (q ∷ ps) p e = ground (
      arith,
      entry_total-pop symbol ps p,
      add_left_comm laws (entry_value q) (entry_value p) (entry_total (pop_position symbol ps)),
    )

    -- Money put into a position, and money that comes back with a profit.
    spend : (c e r : D) → add (sub c e) (add r e) ≡ add c r
    spend c e r =
        ap (add (sub c e)) (add_comm r e) ∙ sym (add_assoc _ e r) ∙ ap (λ t. add t r) (add-sub c e)

    regain : (c e r t : D) → add (add c (add e r)) t ≡ add (add c (add e t)) r
    regain c e r t =
        add_assoc c (add e r) t
        ∙ ap (add c) (add_assoc e r t ∙ ap (add e) (add_comm r t) ∙ sym (add_assoc e t r))
        ∙ sym (add_assoc c (add e t) r)

    settle-books :
        (symbol : String) (price : D) (s : PortfolioState D) (p : PositionState D)
        → find_position symbol s.positions ≡ some p
        → book_value (settle symbol (priced price p) s)
          ≡ add (book_value s) (unrealized_pnl (priced price p))
    unfolding settle update_total_value
    settle-books symbol price s p e =
        rw (entry_total-pop symbol s.positions p e, book_value)
          (regain s.cash_available (entry_value p) (unrealized_pnl (priced price p)) _)

    add_position-books :
        (p : PositionState D) (s : PortfolioState D) → book_value (add_position p s) ≡ book_value s
    unfolding add_position update_total_value
    add_position-books p s =
        rw (entry_total-append s.positions p, book_value) (spend s.cash_available (entry_value p) _)

    total_of-append : (xs ys : List D) → total_of (xs ++ ys) ≡ add (total_of xs) (total_of ys)
    total_of-append [] ys = sym (add_comm _ _ ∙ add-nought _)
    total_of-append (x ∷ xs) ys = rw (total_of-append xs ys) (sym (add_assoc _ _ _))

  module _ {N : Type 0} ⦃conv : Conversion N D⦄ where
    pub close_position-eq-settle :
        (symbol : String) (exit_price : N) (s : PortfolioState D) (p : PositionState D)
        → find_position symbol s.positions ≡ some p
        → let sold = priced (conv.decimal exit_price) p in
          close_position symbol exit_price s ≡ (settle symbol sold s, some (unrealized_pnl sold))
    unfolding close_position
    close_position-eq-settle symbol exit_price s p e = rw (e, close_position)

    close_position-eq-none :
        (symbol : String) (exit_price : N) (s : PortfolioState D)
        → find_position symbol s.positions ≡ none
        → close_position symbol exit_price s ≡ (s, none)
    unfolding close_position
    close_position-eq-none symbol exit_price s e = rw (e, close_position)

    module _ (laws : IsExact dec) where
      entry_total-reprice :
          (prices : Dict N) (ps : List (PositionState D))
          → entry_total (map (reprice prices) ps) ≡ entry_total ps
      entry_total-reprice prices [] = refl
      entry_total-reprice prices (p ∷ ps) = ground (arith, entry_total-reprice prices ps)

      close_position-books :
          (symbol : String) (exit_price : N) (s : PortfolioState D)
          → let (s', pnl) = close_position symbol exit_price s in
            book_value s' ≡ add (book_value s) (total_of (to_list pnl))
      close_position-books symbol exit_price s =
          elim (Option-cases (find_position symbol s.positions)) [
            | inl missing ↦
                rw (close_position-eq-none symbol exit_price s missing) (sym (laws.add-nought _))
            | inr (p, e) ↦ rw (close_position-eq-settle symbol exit_price s p e) (
                settle-books laws symbol (conv.decimal exit_price) s p e
                ∙ ap (add (book_value s)) (sym (laws.add-nought _)))
          ]

      apply-books :
          (op : Op N D) (s : PortfolioState D)
          → let (s', pnl) = apply op s in book_value s' ≡ add (book_value s) (total_of pnl)
      unfolding update_prices update_total_value reset_daily reset_weekly reset_hourly
          reset_consecutive_losses
      apply-books (Op.add_position position) s =
          add_position-books laws position s ∙ sym (laws.add-nought _)
      apply-books (Op.close_position symbol exit_price) s = close_position-books symbol exit_price s
      apply-books (Op.update_prices prices) s =
          rw (entry_total-reprice prices s.positions, book_value) (sym (laws.add-nought _))
      apply-books _ s = sym (laws.add-nought _)

      -- Where sums are exact, after any calls the cash and the cost of the open positions are what
      -- they were before plus the profits that the closed positions returned: no call makes or loses
      -- money otherwise.
      pub run-books :
          (ops : List (Op N D)) (s : PortfolioState D)
          → let (s', pnl) = run ops s in book_value s' ≡ add (book_value s) (total_of pnl)
      unfolding run
      run-books [] s = sym (laws.add-nought _)
      run-books (op ∷ ops) s =
          let (s₁, now) = apply op s in
          let (s₂, later) = run ops s₁ in
          run-books ops s₁
          ∙ ap (λ t. add t (total_of later)) (apply-books op s)
          ∙ laws.add_assoc _ _ _
          ∙ ap (add (book_value s)) (sym (total_of-append laws now later))

    module _ (laws : IsTotalOrder dec) where
      apply-IsValid : (op : Op N D) (s : PortfolioState D) → IsValid s → IsValid (apply op s).0
      unfolding add_position update_prices reset_daily reset_weekly reset_hourly
          reset_consecutive_losses
      apply-IsValid (Op.add_position position) s v = update_total_value-IsValid laws _
      apply-IsValid (Op.close_position symbol exit_price) s v =
          elim (Option-cases (find_position symbol s.positions)) [
            | inl missing ↦ rw (close_position-eq-none symbol exit_price s missing) v
            | inr (p, e) ↦
                rw (close_position-eq-settle symbol exit_price s p e)
                  (settle-IsValid laws symbol _ s)
          ]
      apply-IsValid (Op.update_prices prices) s v = update_total_value-IsValid laws _
      apply-IsValid _ s v = ground arith

      run-IsValid : (ops : List (Op N D)) (s : PortfolioState D) → IsValid s → IsValid (run ops s).0
      unfolding run
      run-IsValid [] s v = v
      run-IsValid (op ∷ ops) s v = run-IsValid ops _ (apply-IsValid op s v)

      -- A new portfolio keeps, through any calls, a total that is the cash and the open positions at
      -- their current prices, and a peak that the total never passes.
      pub run-create-IsValid :
          (initial_balance : N) (ops : List (Op N D))
          → add (conv.decimal initial_balance) nought ≡ conv.decimal initial_balance
          → IsValid (run ops (create_portfolio_state initial_balance)).0
      unfolding create_portfolio_state
      run-create-IsValid initial_balance ops z =
          run-IsValid ops _ (record { total_eq = sym z; total_le_peak = laws.le_refl _ })
