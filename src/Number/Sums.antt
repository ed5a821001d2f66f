-- ===== src/Number/Sums.antt =====
-- Sums of lists of numbers.
use keryx_talos.Base.{List, [], ◌∷◌, ◌++◌, ◌≡◌, sym, ap, ◌∙◌}
use keryx_talos.Number.Laws.{Number, IsExact, nought}

module _ {N : Type 0} ⦃num : Number N⦄ where
  open num use {add, sub}

  abbrev pub sum_by {ℓ} : {A : Type ℓ} → (A → N) → List A → N
  sum_by f [] = nought
  sum_by f (x ∷ xs) = add (f x) (sum_by f xs)

  module _ (laws : IsExact num) where
    open laws use {add_comm, add_assoc, add-nought, add-sub}

    pub sum_by-append {ℓ} :
        {A : Type ℓ} (f : A → N) (xs : List A) (x : A)
        → sum_by f (xs ++ (x ∷ [])) ≡ add (sum_by f xs) (f x)
    sum_by-append f [] x = add_comm _ _
    sum_by-append f (y ∷ ys) x = rw (sum_by-append f ys x) (sym (add_assoc _ _ _))

    -- A sum of three in another order.
    pub add_rotate : (x y z : N) → add x (add y z) ≡ add (add z x) y
    add_rotate x y z =
        ap (add x) (add_comm y z) ∙ sym (add_assoc x z y) ∙ ap (λ t. add t y) (add_comm x z)

    pub add_left_comm : (x y z : N) → add x (add y z) ≡ add y (add x z)
    add_left_comm x y z = sym (add_assoc x y z) ∙ ap (λ t. add t z) (add_comm x y) ∙ add_assoc y x z

    pub add_right_comm : (x y z : N) → add (add x y) z ≡ add (add x z) y
    add_right_comm x y z = add_assoc x y z ∙ ap (add x) (add_comm y z) ∙ sym (add_assoc x z y)

    -- What is taken from one part is in the other.
    pub sub-add : (b k o c : N) → add (sub b k) (add (add o k) c) ≡ add b (add o c)
    sub-add b k o c =
        ap (add (sub b k)) (ap (λ t. add t c) (add_comm o k) ∙ add_assoc k o c)
        ∙ sym (add_assoc (sub b k) k (add o c))
        ∙ ap (λ t. add t (add o c)) (add-sub b k)
