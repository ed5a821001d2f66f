-- ===== src/Exchange/Paper/Empty.antt =====
-- keryxflow/exchange/paper.py: calls on an account without positions.
use keryx_talos.Base.{refl, ◌≡◌, ◌∙◌, String, Option, Option-cases, inl, inr, [], arith}
use keryx_talos.Number.{Number}
use keryx_talos.Exchange.Paper.{PaperTradingEngine, initialize, close_position, price_or, get_price}
use keryx_talos.Exchange.Paper.Book.{close_all_positions, close_each}

module _ {N : Type 0} ⦃num : Number N⦄ where
  pub initialize-positions :
      (p : PaperTradingEngine N) → (initialize p).database.positions ≡ p.database.positions
  unfolding initialize
  initialize-positions p = ground arith

  pub close_position-positions :
      (symbol : String) (price : Option N) (p : PaperTradingEngine N)
      → p.database.positions ≡ []
      → (close_position symbol price p).0.database.positions ≡ []
  unfolding close_position
  close_position-positions symbol price p h =
      let empty = initialize-positions p ∙ h in
      elim (Option-cases (price_or price (get_price symbol (initialize p)))) [
        | inl missing ↦ rw (missing, close_position) empty
        | inr (x, found) ↦ rw (found, empty, close_position) empty
      ]

  pub close_all_positions-positions :
      (p : PaperTradingEngine N)
      → p.database.positions ≡ []
      → (close_all_positions p).0.database.positions ≡ []
  unfolding close_all_positions close_each
  close_all_positions-positions p h =
      let empty = initialize-positions p ∙ h in rw (empty, close_all_positions) refl
