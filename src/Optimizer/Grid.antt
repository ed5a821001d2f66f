-- ===== src/Optimizer/Grid.antt =====
-- keryxflow/optimizer/grid.py: `ParameterRange` and `ParameterGrid`, over values of any type.
pub mod Count
mod Tests
use keryx_talos.Base.{
  ◌||◌, not, str_eq, length, if◌then◌else◌, ◌*◌, leb, ◌∷◌, [], ℕ, String, List, ◌++◌, map,
}
use keryx_talos.Base.Dict.{Dict, insert}
use keryx_talos.Base.Result.{Result, Exception, ok, ◌>>◌, raise_if}

pub record ParameterRange (V : Type 0) : Type 0 where
  pub name : String
  pub values : List V
  pub category : String

-- A combination: its `oracle` and its `risk` parameters.
pub record Combination (V : Type 0) : Type 0 where
  pub oracle : Dict V
  pub risk : Dict V

module _ {V : Type 0} where
  -- `__post_init__`
  abbrev pub new_range : String → List V → String → Result (ParameterRange V)
  new_range name values category =
      raise_if (leb (length values) 0) Exception.value_error
      >> raise_if (not (str_eq category "oracle" || str_eq category "risk")) Exception.value_error
      >> ok record { name = name; values = values; category = category }

  abbrev pub add_range : ParameterRange V → List (ParameterRange V) → List (ParameterRange V)
  add_range r ranges = ranges ++ (r ∷ [])

  abbrev pub each_with : List V → List (List V) → List (List V)
  each_with [] tuples = []
  each_with (v ∷ vs) tuples = map (λ t. v ∷ t) tuples ++ each_with vs tuples

  -- `itertools.product` of the value lists: the last changes first.
  abbrev pub product_of : List (ParameterRange V) → List (List V)
  product_of [] = [] ∷ []
  product_of (r ∷ rs) = each_with r.values (product_of rs)

  -- `result[category][name] = value`, of a category that is checked.
  abbrev pub set_parameter : ParameterRange V → V → Combination V → Combination V
  set_parameter r v c =
      if str_eq r.category "oracle"
      then record c { oracle = insert r.name v c.oracle }
      else record c { risk = insert r.name v c.risk }

  abbrev pub fill_from : List (ParameterRange V) → List V → Combination V → Combination V
  fill_from [] vs c = c
  fill_from (r ∷ rs) [] c = c
  fill_from (r ∷ rs) (v ∷ vs) c = fill_from rs vs (set_parameter r v c)

  unfoldable pub combinations : List (ParameterRange V) → List (Combination V)
  combinations ranges =
      map (λ t. fill_from ranges t (record { oracle = []; risk = [] })) (product_of ranges)

  abbrev pub fill_flat : List (ParameterRange V) → List V → Dict V → Dict V
  fill_flat [] vs d = d
  fill_flat (r ∷ rs) [] d = d
  fill_flat (r ∷ rs) (v ∷ vs) d = fill_flat rs vs (insert r.name v d)

  unfoldable pub flat_combinations : List (ParameterRange V) → List (Dict V)
  flat_combinations ranges = map (λ t. fill_flat ranges t []) (product_of ranges)

  -- `__len__`
  abbrev pub total_from : ℕ → List (ParameterRange V) → ℕ
  total_from total [] = total
  total_from total (r ∷ rs) = total_from (total * length r.values) rs

  unfoldable pub grid_length : List (ParameterRange V) → ℕ
  grid_length ranges = total_from 1 ranges
