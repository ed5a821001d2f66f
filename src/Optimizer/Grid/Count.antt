-- ===== src/Optimizer/Grid/Count.antt =====
-- keryxflow/optimizer/grid.py: how many combinations there are.
use keryx_talos.Base.{
  sym, ap, ◌∙◌, ◌*◌, arith, ◌≡◌, length, ◌∷◌, [], refl, ℕ, List, map, length-append,
}
use native.Mathlib.Nat.{mul_assoc}
use keryx_talos.Optimizer.Grid.{
  ParameterRange, each_with, product_of, combinations, flat_combinations, total_from, grid_length,
}

length-map {ℓ κ} :
    {A : Type ℓ} {B : Type κ} (f : A → B) (xs : List A) → length (map f xs) ≡ length xs
length-map f [] = refl
length-map f (x ∷ xs) = omega (arith, length-map f xs)

module _ {V : Type 0} where
  length-each_with :
      (vs : List V) (tuples : List (List V))
      → length (each_with vs tuples) ≡ length vs * length tuples
  length-each_with [] tuples = omega arith
  length-each_with (v ∷ vs) tuples =
      length-append (map (λ t. v ∷ t) tuples) (each_with vs tuples)
      ∙ omega (arith, length-map (λ t. v ∷ t) tuples, length-each_with vs tuples)

  total_from-product :
      (total : ℕ) (ranges : List (ParameterRange V))
      → total_from total ranges ≡ total * length (product_of ranges)
  total_from-product total [] = omega arith
  total_from-product total (r ∷ rs) =
      total_from-product (total * length r.values) rs
      ∙ omega (arith, mul_assoc total (length r.values) (length (product_of rs)))
      ∙ ap (λ n. total * n) (sym (length-each_with r.values (product_of rs)))

  -- The length of a grid is the number of the combinations that it yields, whether grouped or flat,
  -- one for each tuple of a value of every range.
  pub length-combinations :
      (ranges : List (ParameterRange V))
      → (length (combinations ranges) ≡ grid_length ranges)
        × (length (flat_combinations ranges) ≡ grid_length ranges)
  unfolding combinations flat_combinations grid_length
  length-combinations ranges =
      let e : length (product_of ranges) ≡ total_from 1 ranges =
        omega (arith, total_from-product 1 ranges) in
      (length-map _ (product_of ranges) ∙ e, length-map _ (product_of ranges) ∙ e)
