-- ===== src/Optimizer/Grid/Tests.antt =====
-- A grid of two ranges.
use keryx_talos.Base.{◌≡◌, length, get_elem?, ◌∷◌, [], some, ℕ, List, refl}
use keryx_talos.Optimizer.Grid.{ParameterRange, combinations, flat_combinations, grid_length}
use keryx_talos.Optimizer.Grid.Count.{length-combinations}

abbrev ranges : List (ParameterRange ℕ)
ranges =
    record { name = "rsi_period"; values = 7 ∷ 14 ∷ 21 ∷ []; category = "oracle" }
    ∷ record { name = "risk"; values = 1 ∷ 2 ∷ []; category = "risk" }
    ∷ []

first_and_second :
    get_elem? (flat_combinations ranges) 1 ≡ some (("rsi_period", 7) ∷ ("risk", 2) ∷ [])
unfolding flat_combinations
first_and_second = refl

length-combinations_example :
    (length (combinations ranges) ≡ grid_length ranges)
    × (length (flat_combinations ranges) ≡ grid_length ranges)
length-combinations_example = length-combinations ranges
