-- ===== src/Exchange/Paper/Market.antt =====
-- keryxflow/exchange/paper.py: balances, prices and market orders of `PaperTradingEngine`, with the
-- queries on its tables. A method returns the new engine and its result; a transaction that raises
-- leaves the database as it was. Events and the log are left out.
use keryx_talos.Exchange.Paper.State.{
  PaperTradingEngine, Database, PaperBalance, Trade, OrderResult, TradeStatus,
}
use keryx_talos.Exchange.Paper.Symbols.{get_base_quote, trade_side}
use keryx_talos.Base.{
  true, if◌then◌else◌, false, ◌∷◌, Side, String, Option, [], some, length, none, is_some, ◌+◌, ℕ,
  str_eq,
}
use keryx_talos.Base.Dict.{Dict, lookup, insert}
use keryx_talos.Base.Result.{Result, Exception, ok, raised, ◌>>=◌, or_raise}
use keryx_talos.Number.{Number, nought, of_ℕ}

module _ {N : Type 0} ⦃num : Number N⦄ where
  open num use {add, sub, mul, lt}

  abbrev pub new : String → N → N → Database N → PaperTradingEngine N
  new base_currency initial_balance slippage_pct database = record {
    base_currency = base_currency;
    initial_balance = initial_balance;
    slippage_pct = slippage_pct;
    prices = [];
    initialized = false;
    database = database;
  }

  -- `initialize_paper_balance`
  abbrev pub initialize_paper_balance : String → N → Database N → Database N
  initialize_paper_balance currency amount db =
      if is_some (lookup currency db.balances) then db else record db {
        balances =
            insert currency (record { total = amount; free = amount; used = nought }) db.balances;
      }

  unfoldable pub initialize : PaperTradingEngine N → PaperTradingEngine N
  initialize e = if e.initialized then e else record e {
    initialized = true;
    database = initialize_paper_balance e.base_currency e.initial_balance e.database;
  }

  unfoldable pub update_price : String → N → PaperTradingEngine N → PaperTradingEngine N
  update_price symbol price e = record e { prices = insert symbol price e.prices }

  abbrev pub get_price : String → PaperTradingEngine N → Option N
  get_price symbol e = lookup symbol e.prices

  -- `_apply_slippage`
  abbrev pub apply_slippage : N → String → PaperTradingEngine N → N
  apply_slippage price side e =
      if str_eq side "buy"
      then mul price (add (of_ℕ 1) e.slippage_pct)
      else mul price (sub (of_ℕ 1) e.slippage_pct)

  abbrev pub no_balance : PaperBalance N
  no_balance = record { total = nought; free = nought; used = nought }

  abbrev or_no_balance : Option (PaperBalance N) → PaperBalance N
  or_no_balance none = no_balance
  or_no_balance (some b) = b

  abbrev pub balance_of : String → Dict (PaperBalance N) → PaperBalance N
  balance_of currency balances = or_no_balance (lookup currency balances)

  -- `_get_or_create_balance`: the table with a row of the currency.
  abbrev pub get_or_create_balance : String → Dict (PaperBalance N) → Dict (PaperBalance N)
  get_or_create_balance currency balances =
      if is_some (lookup currency balances) then balances else insert currency no_balance balances

  -- `free` and `total` of a currency, lowered and raised.
  unfoldable pub deduct : String → N → Dict (PaperBalance N) → Result (Dict (PaperBalance N))
  deduct currency x balances =
      let balances₁ = get_or_create_balance currency balances in
      let b = balance_of currency balances₁ in
      if lt b.free x
      then raised Exception.value_error
      else ok (insert currency (record b { free = sub b.free x; total = sub b.total x }) balances₁)

  unfoldable pub put : String → N → Dict (PaperBalance N) → Dict (PaperBalance N)
  put currency x balances =
      let balances₁ = get_or_create_balance currency balances in
      let b = balance_of currency balances₁ in
      insert currency (record b { free = add b.free x; total = add b.total x }) balances₁

  abbrev and_put : String → N → Result (Dict (PaperBalance N)) → Result (Dict (PaperBalance N))
  and_put currency x r = r >>= λ balances. ok (put currency x balances)

  -- The two branches on the side.
  unfoldable pub exchange :
      String → String × String → N → N → Dict (PaperBalance N) → Result (Dict (PaperBalance N))
  exchange side (base, quote) amount cost balances =
      if str_eq side "buy"
      then and_put base amount (deduct quote cost balances)
      else and_put quote cost (deduct base amount balances)

  abbrev pub new_trade : ℕ → String → Side → N → N → Trade N
  new_trade id symbol side amount exec_price = record {
    id = id;
    symbol = symbol;
    side = side;
    quantity = amount;
    entry_price = exec_price;
    exit_price = none;
    pnl = none;
    pnl_percentage = none;
    status = TradeStatus.closed;
    is_paper = true;
  }

  -- The transaction of `execute_market_order`.
  unfoldable pub fill :
      String → String → String × String → N → N → N → Database N → Result (Database N)
  fill symbol side pair amount exec_price cost db = do
    balances ← exchange side pair amount cost db.balances
    trade ← trade_side side
    ok (record db {
      balances = balances;
      trades = new_trade (length db.trades + 1) symbol trade amount exec_price ∷ db.trades;
    })

  abbrev pub price_or : Option N → Option N → Option N
  price_or none current = current
  price_or (some price) current = some price

  abbrev pub order_result : String → String → N → N → N → OrderResult N
  order_result symbol side amount exec_price cost = record {
    symbol = symbol;
    side = side;
    amount = amount;
    price = exec_price;
    cost = cost;
    filled = amount;
    remaining = nought;
  }

  -- `execute_market_order` of an initialized engine
  unfoldable pub execute :
      String → String → N → Option N → PaperTradingEngine N → Result (Database N × OrderResult N)
  execute symbol side amount price e = do
    price ← or_raise (price_or price (get_price symbol e)) Exception.value_error
    pair ← get_base_quote symbol
    let exec_price = apply_slippage price side e
    let cost = mul amount exec_price
    db ← fill symbol side pair amount exec_price cost e.database
    ok (db, order_result symbol side amount exec_price cost)

  abbrev pub commit :
      {R : Type 0}
      → PaperTradingEngine N
      → Result (Database N × R)
      → PaperTradingEngine N × Result R
  commit e (ok (db, r)) = (record e { database = db }, ok r)
  commit e (raised x) = (e, raised x)

  unfoldable pub execute_market_order :
      String
      → String
      → N
      → Option N
      → PaperTradingEngine N
      → PaperTradingEngine N × Result (OrderResult N)
  execute_market_order symbol side amount price e =
      let e₁ = initialize e in commit e₁ (execute symbol side amount price e₁)
