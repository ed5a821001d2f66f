-- ===== src/Number/Laws.antt =====
-- The operations on numbers, and the laws of their comparisons.
use keryx_talos.Base.{
  ℕ, ◌≡◌, not, ◌∷◌, Bool, Option, true, some, refl, none, false, List, ◌++◌, [], if◌then◌else◌,
}

-- `lit m k` is the literal m / 10 ^ k; `quot` divides by a number that is not zero.
pub record Number (N : Type 0) : Type 0 where
  pub lit : ℕ → ℕ → N
  pub add : N → N → N
  pub sub : N → N → N
  pub mul : N → N → N
  pub quot : N → N → N
  pub neg : N → N
  pub abs : N → N
  pub lt : N → N → Bool
  pub le : N → N → Bool
  pub eqb : N → N → Bool

module _ {N : Type 0} ⦃num : Number N⦄ where
  -- The literal 0, and an integer that meets a number.
  abbrev pub nought : N
  nought = num.lit 0 0

  abbrev pub of_ℕ : ℕ → N
  of_ℕ n = num.lit n 0

  -- Division, with `ZeroDivisionError` (of a `Decimal`, `DivisionByZero`) as `none`.
  abbrev pub divide : N → N → Option N
  divide a b = if num.eqb b nought then none else some (num.quot a b)

  -- Python's `max(a, b)`: the first of the two unless the second is greater.
  abbrev pub larger : N → N → N
  larger a b = if num.lt a b then b else a

  -- Python's `min(a, b)`
  abbrev pub smaller : N → N → N
  smaller a b = if num.lt b a then b else a

  -- Python's truth test on a number.
  abbrev pub is_nonzero : N → Bool
  is_nonzero x = not (num.eqb x nought)

  -- Python's `sum(xs)`, which adds from the left to 0.
  abbrev pub sum_from : N → List N → N
  sum_from acc [] = acc
  sum_from acc (x ∷ xs) = sum_from (num.add acc x) xs

module _ {N : Type 0} ⦃num : Number N⦄ where
  pub sum_from-append :
      (acc : N) (xs : List N) (x : N) → sum_from acc (xs ++ (x ∷ [])) ≡ num.add (sum_from acc xs) x
  sum_from-append acc [] x = refl
  sum_from-append acc (y ∷ ys) x = sum_from-append (num.add acc y) ys x

-- `Decimal(str(x))` of a float `x`, and `float(d)` of a `Decimal` `d`.
pub record Conversion (N D : Type 0) : Type 0 where
  pub decimal : N → D
  pub float : D → N

-- The laws of the comparisons. They hold of IEEE floats with NaN, which is the value that is not
-- `<=` itself, and of `Decimal`.
pub record IsOrdered {N : Type 0} (num : Number N) : Type 0 where
  pub le_of_lt : (x y : N) → num.lt x y ≡ true → num.le x y ≡ true
  pub le_trans : (x y z : N) → num.le x y ≡ true → num.le y z ≡ true → num.le x z ≡ true
  pub refl_of_le : (x y : N) → num.le x y ≡ true → (num.le x x ≡ true) × (num.le y y ≡ true)
  pub not_le_of_lt : (x y : N) → num.lt x y ≡ true → num.le y x ≡ false
  pub le_of_not_lt :
      (x y : N) → num.le x x ≡ true → num.le y y ≡ true → num.lt x y ≡ false → num.le y x ≡ true
  pub nought_refl : num.le (num.lit 0 0) (num.lit 0 0) ≡ true

-- What holds besides where no value is NaN: a `Decimal` operation raises `InvalidOperation` instead
-- of returning it.
pub record IsTotalOrder {N : Type 0} (num : Number N) : Type 0 where
  pub le_refl : (x : N) → num.le x x ≡ true
  pub le_trans : (x y z : N) → num.le x y ≡ true → num.le y z ≡ true → num.le x z ≡ true
  pub le_of_not_lt : (x y : N) → num.lt x y ≡ false → num.le y x ≡ true

-- Sums and differences that are not rounded, as those of `Decimal` are while they fit its precision.
pub record IsExact {N : Type 0} (num : Number N) : Type 0 where
  pub add_comm : (x y : N) → num.add x y ≡ num.add y x
  pub add_assoc : (x y z : N) → num.add (num.add x y) z ≡ num.add x (num.add y z)
  pub add-nought : (x : N) → num.add x (num.lit 0 0) ≡ x
  pub add-sub : (x y : N) → num.add (num.sub x y) y ≡ x

-- A number that is not below 0: with floats it may be NaN.
abbrev pub IsNonNeg : {N : Type 0} ⦃num : Number N⦄ → N → Type 0
IsNonNeg ⦃num⦄ x = num.lt x nought ≡ false

-- The signs of sums, differences and products. They hold of IEEE floats with infinities and NaN.
pub record HasSigns {N : Type 0} (num : Number N) : Type 0 where
  pub nought_nonneg : num.lt (num.lit 0 0) (num.lit 0 0) ≡ false
  pub add_nonneg :
      (x y : N)
      → num.lt x (num.lit 0 0) ≡ false
      → num.lt y (num.lit 0 0) ≡ false
      → num.lt (num.add x y) (num.lit 0 0) ≡ false
  pub sub_nonneg : (x y : N) → num.lt x y ≡ false → num.lt (num.sub x y) (num.lit 0 0) ≡ false
  pub mul_nonneg :
      (x y : N)
      → num.lt x (num.lit 0 0) ≡ false
      → num.lt y (num.lit 0 0) ≡ false
      → num.lt (num.mul x y) (num.lit 0 0) ≡ false
