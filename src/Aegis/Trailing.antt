-- ===== src/Aegis/Trailing.antt =====
-- keryxflow/aegis/trailing.py: `class TrailingStopManager`. A method returns the new dict of states.
pub mod Ratchet
pub mod Tracking
mod Tests
use keryx_talos.Base.{
  eq_refl, suc, sym, ◌≤◌, length-append, ◌^◌, keep, ℕ, ◌↔◌, ◌<◌, str_eq, if_keeps, All-append, map,
  buy, some, ◌/◌, subst, ◌++◌, ◌%◌, Bool, ◌∙◌, ◌≢◌, All-keep, if◌then◌else◌, false, refl, String,
  arith, le→leb, length, ◌≡◌, inl, max, ◌||◌, leb→le, true, ◌+◌, ◌==◌, ◌⊎◌, ap, sell, not, none,
  Option-cases, ◌-◌, ◌∷◌, Bool-cases, inr, eq_iff, List, leb, ◌*◌, lt→ltb, All, zero, Side, is_some,
  get_elem?, Option, [], ltb, ◌&&◌,
}
use keryx_talos.Base.Dict.{Dict, lookup, insert, erase}
use keryx_talos.Base.Result.{Result, ok, raised, zero_division_error, ◌>>=◌, or_raise}
use keryx_talos.Number.{Number, of_ℕ, divide}

pub record TrailingStopState (N : Type 0) : Type 0 where
  pub symbol : String
  pub side : Side
  pub entry_price : N
  pub trail_pct : N
  pub activation_pct : N
  pub peak_price : N
  pub current_stop : Option N
  pub activated : Bool

-- `_states`
abbrev pub TrailingStopManager : Type 0 → Type 0
TrailingStopManager N = Dict (TrailingStopState N)

module _ {N : Type 0} ⦃num : Number N⦄ where
  open num use {add, sub, mul, lt, le}

  -- `TrailingStopState(…)` with its `__post_init__`
  abbrev pub started : String → Side → N → N → N → TrailingStopState N
  started symbol side entry_price trail_pct activation_pct = record {
    symbol = symbol;
    side = side;
    entry_price = entry_price;
    trail_pct = trail_pct;
    activation_pct = activation_pct;
    peak_price = entry_price;
    current_stop = none;
    activated = false;
  }

  pub start_tracking : String → Side → N → N → N → TrailingStopManager N → TrailingStopManager N
  start_tracking symbol side entry_price trail_pct activation_pct m =
      insert symbol (started symbol side entry_price trail_pct activation_pct) m

  pub stop_tracking : String → TrailingStopManager N → TrailingStopManager N
  stop_tracking symbol m = if is_some (lookup symbol m) then erase symbol m else m

  -- What a long and a short position do differently in `update_price`: the profit of a price, whether
  -- it is a new extreme, and the factor from the extreme to the stop.
  abbrev pub gain : Side → N → N → N
  gain buy price entry = sub price entry
  gain sell price entry = sub entry price

  abbrev pub is_beyond : Side → N → N → Bool
  is_beyond buy price peak = lt peak price
  is_beyond sell price peak = lt price peak

  abbrev pub stop_factor : Side → N → N
  stop_factor buy trail = sub (of_ℕ 1) trail
  stop_factor sell trail = add (of_ℕ 1) trail

  -- `if state.activated:` and its block
  abbrev pub trail_from : N → TrailingStopState N → TrailingStopState N
  trail_from price s =
      let peak = if is_beyond s.side price s.peak_price then price else s.peak_price in
      record s {
        peak_price = peak;
        current_stop = some (mul peak (stop_factor s.side s.trail_pct));
      }

  -- The body of `update_price` on the state that it finds.
  pub advance : N → TrailingStopState N → Result (TrailingStopState N)
  advance price s = do
    profit_pct ←
        or_raise (divide (gain s.side price s.entry_price) s.entry_price) zero_division_error
    let activated = s.activated || le s.activation_pct profit_pct
    ok (if activated then trail_from price (record s { activated = true }) else s)

  pub update_price : String → N → TrailingStopManager N → Result (TrailingStopManager N)
  unfolding advance
  update_price symbol price m = elim (lookup symbol m) [
    | none ↦ ok m
    | some s ↦ advance price s >>= λ t. ok (insert symbol t m)
  ]

  abbrev pub reaches : Side → N → N → Bool
  reaches buy price stop = le price stop
  reaches sell price stop = le stop price

  pub should_trigger_stop : String → N → TrailingStopManager N → Bool
  should_trigger_stop symbol price m = elim (lookup symbol m) [
    | none ↦ false
    | some s ↦ elim s.current_stop [
      | none ↦ false
      | some stop ↦ s.activated && reaches s.side price stop
    ]
  ]

  pub get_stop_price : String → TrailingStopManager N → Option N
  get_stop_price symbol m = elim (lookup symbol m) [ none ↦ none | some s ↦ s.current_stop ]

  pub is_tracking : String → TrailingStopManager N → Bool
  is_tracking symbol m = is_some (lookup symbol m)
