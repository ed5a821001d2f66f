-- ===== src/Aegis/Portfolio/Positions.antt =====
-- The list of open positions.
use keryx_talos.Aegis.Portfolio.Accounting.{close_position-eq-settle}
use keryx_talos.Aegis.Portfolio.{
  priced, unrealized_pnl, close_position, PortfolioState, update_total_value, PositionState,
  pop_position, settle, add_position, find_position,
}
use keryx_talos.Base.{String, arith, ◌≡◌, str_eq, some, true, none, ◌∷◌, [], ◌++◌, List, refl}
use keryx_talos.Number.{Number, Conversion}

module _ {D : Type 0} ⦃dec : Number D⦄ where
  find_position-append :
      (symbol : String) (ps : List (PositionState D)) (p : PositionState D)
      → find_position symbol ps ≡ none
      → str_eq p.symbol symbol ≡ true
      → (find_position symbol (ps ++ (p ∷ [])) ≡ some p)
        × (pop_position symbol (ps ++ (p ∷ [])) ≡ ps)
  unfolding find_position pop_position
  find_position-append symbol [] p e h = ground arith
  find_position-append symbol (q ∷ ps) p e h = ground (arith, find_position-append symbol ps p)

  module _ {N : Type 0} ⦃conv : Conversion N D⦄ where
    -- Closing a position that was just added returns its profit and gives the old positions back.
    pub close-add_position :
        (symbol : String) (exit_price : N) (p : PositionState D) (s : PortfolioState D)
        → find_position symbol s.positions ≡ none
        → str_eq p.symbol symbol ≡ true
        → let (s', pnl) = close_position symbol exit_price (add_position p s) in
          (pnl ≡ some (unrealized_pnl (priced (conv.decimal exit_price) p)))
          × (s'.positions ≡ s.positions)
    unfolding add_position settle update_total_value
    close-add_position symbol exit_price p s e h =
        let (found, popped) = find_position-append symbol s.positions p e h in
        rw (close_position-eq-settle symbol exit_price (add_position p s) p found) (refl, popped)
