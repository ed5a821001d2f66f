-- ===== src/Exchange/Paper.antt =====
-- keryxflow/exchange/paper.py: the positions of `PaperTradingEngine`.
mod State
mod Symbols
mod Market
pub mod Book
pub mod Funds
pub mod Validity
mod Quantities
pub mod Solvency
pub mod Movements
pub mod Transactions
pub mod Empty
pub mod Closing
pub mod Moves
mod Tests
pub use State.*
unfoldable pub use Symbols.*
unfoldable pub use Market.*
unfoldable pub use Market.{execute_market_order, update_price}
use keryx_talos.Base.{
  microseconds_per_day, map, [], length-append, ◌-◌, none, ◌≤◌, sym, inl, All, true, leb→le, ◌/◌,
  String, if◌then◌else◌, ◌↔◌, ◌≢◌, All-append, ℕ, ◌+◌, false, refl, ◌&&◌, Bool-cases, Bool, ◌∙◌,
  not, eq_refl, ltb, some, keep, if_keeps, same_date, suc, Option, List, arith, All-keep, ◌%◌,
  length, le→leb, inr, get_elem?, str_eq, microseconds_per_second, subst, sell, ◌++◌, leb, ◌==◌,
  Option-cases, ◌*◌, ◌∷◌, buy, ◌^◌, ◌≡◌, zero, ◌<◌, lt→ltb, date_of, ap, ◌||◌,
  microseconds_per_minute, eq_iff, Side, max, ◌⊎◌, is_some,
}
use keryx_talos.Base.Dict.{Dict, lookup, insert, erase}
use keryx_talos.Base.Result.{Result, Exception, ok, raised, ◌>>=◌, or_raise}
use keryx_talos.Number.{Number, nought, of_ℕ, divide, is_nonzero}

-- The side of the order that closes a position.
abbrev pub close_side : Side → String
close_side buy = "sell"
close_side sell = "buy"

module _ {N : Type 0} ⦃num : Number N⦄ where
  open num use {add, sub, mul}

  -- `x or y` on prices
  abbrev or_price : Option N → Option N → Option N
  or_price none y = y
  or_price (some x) y = if is_nonzero x then some x else y

  -- The first trade of a query, newest first.
  abbrev pub latest_trade : String → List (Trade N) → Option (Trade N)
  latest_trade symbol [] = none
  latest_trade symbol (t ∷ ts) = if str_eq t.symbol symbol then some t else latest_trade symbol ts

  -- The price of two lots together.
  abbrev pub average_price : N → N → Position N → Option N
  average_price amount entry_price p =
      let total_cost = add (mul p.entry_price p.quantity) (mul entry_price amount) in
      divide total_cost (add p.quantity amount)

  -- The branch of `open_position` on an existing position.
  unfoldable pub average_in : N → N → Option N → Option N → Position N → Result (Position N)
  average_in amount entry_price stop_loss take_profit p = do
    average ← or_raise (average_price amount entry_price p) Exception.zero_division_error
    ok (record p {
      entry_price = average;
      quantity = add p.quantity amount;
      stop_loss = or_price stop_loss p.stop_loss;
      take_profit = or_price take_profit p.take_profit;
    })

  -- The branch without one.
  unfoldable pub new_position :
      String → String → N → N → Option N → Option N → Database N → Result (Position N)
  new_position symbol side amount entry_price stop_loss take_profit db = do
    trade ← or_raise (latest_trade symbol db.trades) Exception.database_error
    side ← trade_side side
    ok (record {
      side = side;
      quantity = amount;
      entry_price = entry_price;
      current_price = entry_price;
      unrealized_pnl = nought;
      unrealized_pnl_percentage = nought;
      stop_loss = stop_loss;
      take_profit = take_profit;
      trade_id = trade.id;
    })

  -- What `open_position` does after its entry order.
  unfoldable pub store_position :
      String → String → N → N → Option N → Option N → Database N → Result (Database N × Position N)
  store_position symbol side amount entry_price stop_loss take_profit db = do
    position ← elim (lookup symbol db.positions) [
      | none ↦ new_position symbol side amount entry_price stop_loss take_profit db
      | some p ↦ average_in amount entry_price stop_loss take_profit p
    ]
    ok (record db { positions = insert symbol position db.positions }, position)

  unfoldable pub open_position :
      String
      → String
      → N
      → N
      → Option N
      → Option N
      → PaperTradingEngine N
      → PaperTradingEngine N × Result (Position N)
  open_position symbol side amount entry_price stop_loss take_profit e =
      let (e₁, order) = execute_market_order symbol side amount (some entry_price) (initialize e) in
      elim order [
        | raised x ↦ (e₁, raised x)
        | ok _ ↦
            commit e₁
              (store_position symbol side amount entry_price stop_loss take_profit e₁.database)
      ]

  -- The profit of a position at a price.
  abbrev pub pnl_at : N → Position N → N
  pnl_at price p = elim p.side [
    | buy ↦ mul (sub price p.entry_price) p.quantity
    | sell ↦ mul (sub p.entry_price price) p.quantity
  ]

  abbrev pub pnl_pct_at : N → Position N → Result N
  pnl_pct_at price p =
      or_raise (divide (pnl_at price p) (mul p.entry_price p.quantity))
        Exception.zero_division_error
      >>= λ share. ok (mul share (of_ℕ 100))

  abbrev pub close_trade : ℕ → N → N → N → Trade N → Trade N
  close_trade id price pnl pnl_pct t =
      if t.id == id
      then record t {
        exit_price = some price;
        pnl = some pnl;
        pnl_percentage = some pnl_pct;
        status = TradeStatus.closed;
      }
      else t

  -- What `close_position` does after its order.
  abbrev pub remove_position : String → Position N → N → N → Database N → Database N
  remove_position symbol p price pnl_pct db = record db {
    trades = map (close_trade p.trade_id price (pnl_at price p) pnl_pct) db.trades;
    positions = erase symbol db.positions;
  }

  abbrev pub close_result : String → Position N → N → N → CloseResult N
  close_result symbol p price pnl_pct = record {
    symbol = symbol;
    side = p.side;
    quantity = p.quantity;
    entry_price = p.entry_price;
    exit_price = price;
    pnl = pnl_at price p;
    pnl_percentage = pnl_pct;
  }

  -- `close_position` with the price and the position that it finds.
  unfoldable pub close_found :
      String
      → N
      → Position N
      → PaperTradingEngine N
      → PaperTradingEngine N × Result (Option (CloseResult N))
  close_found symbol price p e = elim (pnl_pct_at price p) [
    | raised x ↦ (e, raised x)
    | ok pnl_pct ↦
        let (e₁, order) =
          execute_market_order symbol (close_side p.side) p.quantity (some price) e in
        elim order [
          | raised x ↦ (e₁, raised x)
          | ok _ ↦ (
            record e₁ { database = remove_position symbol p price pnl_pct e₁.database },
            ok (some (close_result symbol p price pnl_pct)),
          )
        ]
  ]

  unfoldable pub close_position :
      String
      → Option N
      → PaperTradingEngine N
      → PaperTradingEngine N × Result (Option (CloseResult N))
  close_position symbol price e =
      let e₁ = initialize e in
      elim (price_or price (get_price symbol e₁)) [
        | none ↦ (e₁, raised Exception.value_error)
        | some price ↦ elim (lookup symbol e₁.database.positions) [
          | none ↦ (e₁, ok none)
          | some p ↦ close_found symbol price p e₁
        ]
      ]
