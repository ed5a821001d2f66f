-- ===== src/Aegis/Trailing/Tests.antt =====
-- Runs of the trailing stops, and their theorems at an input.
use keryx_talos.Aegis.Trailing.Ratchet.{stop_ratchets, Beyond, IsValid, update_all}
use keryx_talos.Base.Int.{ℤ}
use keryx_talos.Aegis.Trailing.{
  ◌>>=◌, stop_factor, started, update_price, ok, TrailingStopState, get_stop_price,
  TrailingStopManager,
}
use keryx_talos.Base.{◌≡◌, buy, [], some, refl, ◌∷◌, true, arith, List, sell}
use keryx_talos.Number.{fixed, fixed-IsOrdered}

abbrev long : TrailingStopState ℤ
long = record {
  symbol = "BTC/USDT";
  side = buy;
  entry_price = fixed.lit 100 0;
  trail_pct = fixed.lit 2 2;
  activation_pct = fixed.lit 1 2;
  peak_price = fixed.lit 110 0;
  current_stop = some (fixed.lit 1078 1);
  activated = true;
}

abbrev m : TrailingStopManager ℤ
m = ("BTC/USDT", long) ∷ []

abbrev waiting : TrailingStopState ℤ
waiting = started "ETH/USDT" sell (fixed.lit 50 0) (fixed.lit 2 2) (fixed.lit 1 2)

abbrev prices : List ℤ
prices = fixed.lit 105 0 ∷ fixed.lit 120 0 ∷ fixed.lit 90 0 ∷ []

after_prices :
    (update_all "BTC/USDT" prices m >>= λ n. ok (get_stop_price "BTC/USDT" n))
    ≡ ok (some (fixed.lit 1176 1))
unfolding update_all update_price get_stop_price
after_prices = refl

long-IsValid : IsValid long
long-IsValid = record { stop_eq = refl }

keeps_order :
    (p q : ℤ)
    → fixed.le p q ≡ true
    → fixed.le
        (fixed.mul p (stop_factor buy (fixed.lit 2 2)))
        (fixed.mul q (stop_factor buy (fixed.lit 2 2)))
      ≡ true
keeps_order p q h = ground arith

stop_ratchets_example :
    (n : TrailingStopManager ℤ) × (old : ℤ) × (new : ℤ) × (update_all "BTC/USDT" prices m ≡ ok n)
    × (get_stop_price "BTC/USDT" m ≡ some old)
    × (get_stop_price "BTC/USDT" n ≡ some new)
    × Beyond buy old new
stop_ratchets_example =
    stop_ratchets fixed-IsOrdered "BTC/USDT" prices m long refl refl refl long-IsValid refl
      keeps_order
