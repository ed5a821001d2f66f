-- ===== src/Exchange/Paper/Symbols.antt =====
-- keryxflow/exchange/paper.py: the texts that the paper engine reads.
use Prim.Native.Char.{Char, code}
use Prim.Native.String.{String, [], ◌∷◌}
use keryx_talos.Base.{
  ◌∷◌, [], Bool, Option, none, some, Side, buy, sell, if◌then◌else◌, ◌==◌, str_eq,
}
use keryx_talos.Base.Result.{Result, Exception, ok, raised}

abbrev is_slash : Char → Bool
is_slash c = code c == 47

-- The text before the first `/`, all of it if there is none.
abbrev before_slash : String → String
before_slash [] = []
before_slash (c ∷ s) = if is_slash c then [] else c ∷ before_slash s

abbrev after_slash : String → Option String
after_slash [] = none
after_slash (c ∷ s) = if is_slash c then some s else after_slash s

-- `_get_base_quote`: the first two parts of `symbol.split("/")`.
unfoldable pub get_base_quote : String → Result (String × String)
get_base_quote symbol = elim (after_slash symbol) [
  | none ↦ raised Exception.index_error
  | some rest ↦ ok (before_slash symbol, before_slash rest)
]

-- `TradeSide(side)`
abbrev pub trade_side : String → Result Side
trade_side side =
    if str_eq side "buy"
    then ok buy
    else if str_eq side "sell"
    then ok sell
    else raised Exception.value_error
