-- ===== src/Exchange/Paper/Book.antt =====
-- keryxflow/exchange/paper.py: the calls of `PaperTradingEngine` over all positions, and sequences of
-- calls.
use keryx_talos.Base.{[], if◌then◌else◌, Option, ◌∷◌, String, some, none, List}
use keryx_talos.Base.Dict.{lookup, Dict}
use keryx_talos.Base.Result.{Result, ok, raised, ◌>>=◌}
use keryx_talos.Number.{Number, is_nonzero}
use keryx_talos.Exchange.Paper.{
  close_position, PaperTradingEngine, Position, CloseResult, Op, initialize, execute_market_order,
  update_price, open_position, pnl_at, pnl_pct_at,
}

module _ {N : Type 0} ⦃num : Number N⦄ where
  -- One position of the loop of `update_position_prices`; `if price` skips a price of 0.
  abbrev pub mark : Option N → Position N → Result (Position N)
  mark none p = ok p
  mark (some price) p =
      if is_nonzero price
      then (pnl_pct_at price p >>= λ pct. ok (record p {
        current_price = price;
        unrealized_pnl = pnl_at price p;
        unrealized_pnl_percentage = pct;
      }))
      else ok p

  unfoldable pub mark_all : Dict N → Dict (Position N) → Result (Dict (Position N))
  mark_all prices [] = ok []
  mark_all prices ((symbol, p) ∷ ps) =
      mark (lookup symbol prices) p >>= λ q. mark_all prices ps >>= λ qs. ok ((symbol, q) ∷ qs)

  unfoldable pub update_position_prices :
      PaperTradingEngine N → PaperTradingEngine N × Result (Unit {0})
  update_position_prices e = elim (mark_all e.prices e.database.positions) [
    | raised x ↦ (e, raised x)
    | ok ps ↦ (record e { database = record (e.database) { positions = ps } }, ok tt)
  ]

  -- `if result: results.append(result)`
  abbrev add_result : Option (CloseResult N) → List (CloseResult N) → List (CloseResult N)
  add_result none rs = rs
  add_result (some r) rs = r ∷ rs

  -- The loop of `close_all_positions`. An exception leaves the positions after it open.
  unfoldable pub close_each :
      List (String × Position N)
      → PaperTradingEngine N
      → PaperTradingEngine N × Result (List (CloseResult N))
  close_each [] e = (e, ok [])
  close_each (entry ∷ rest) e =
      let (e₁, closed) = close_position entry.0 none e in
      let (e₂, later) = close_each rest e₁ in
      elim closed [ raised x ↦ (e₁, raised x) | ok r ↦ (e₂, later >>= λ rs. ok (add_result r rs)) ]

  unfoldable pub close_all_positions :
      PaperTradingEngine N → PaperTradingEngine N × Result (List (CloseResult N))
  close_all_positions e = let e₁ = initialize e in close_each e₁.database.positions e₁

  abbrev pub apply : Op N → PaperTradingEngine N → PaperTradingEngine N
  apply (Op.update_price symbol price) e = update_price symbol price e
  apply (Op.execute_market_order symbol side amount price) e =
      (execute_market_order symbol side amount price e).0
  apply (Op.open_position symbol side amount entry_price stop take) e =
      (open_position symbol side amount entry_price stop take e).0
  apply (Op.close_position symbol price) e = (close_position symbol price e).0
  apply Op.update_position_prices e = (update_position_prices e).0
  apply Op.close_all_positions e = (close_all_positions e).0

  unfoldable pub run : List (Op N) → PaperTradingEngine N → PaperTradingEngine N
  run [] e = e
  run (op ∷ ops) e = run ops (apply op e)
