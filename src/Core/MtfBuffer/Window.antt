-- ===== src/Core/MtfBuffer/Window.antt =====
-- keryxflow/core/mtf_buffer.py: the candles that a buffer keeps.
use keryx_talos.Base.{
  length-drop, drop, ℕ, ltb, inr, length, inl, arith, Bool-cases, ◌∙◌, ◌≡◌, drop-append, sym, refl,
  ◌<◌, ◌-◌, ◌≤◌, ap, drop-drop, length-append, List, ◌++◌,
}
use keryx_talos.Core.MtfBuffer.{Candle, trim}

module _ {N : Type 0} where
  -- The last `n` of a list.
  abbrev pub tail_of : ℕ → List (Candle N) → List (Candle N)
  tail_of n xs = drop (length xs - n) xs

  pub trim-eq-tail_of : (n : ℕ) (xs : List (Candle N)) → 0 < n → trim n xs ≡ tail_of n xs
  trim-eq-tail_of n xs h = elim (Bool-cases (ltb n (length xs))) [
    | inl e ↦ rw e (ground arith)
    | inr e ↦ rw e (let z : length xs - n ≡ 0 = ground arith in rw z refl)
  ]

  pub length-trim : (n : ℕ) (xs : List (Candle N)) → 0 < n → length (trim n xs) ≤ n
  length-trim n xs h = rw (trim-eq-tail_of n xs h) (omega (arith, length-drop (length xs - n) xs))

  -- Keeping the last before more follow makes no difference.
  pub tail_of-append :
      (n : ℕ) (xs ys : List (Candle N)) → tail_of n (tail_of n xs ++ ys) ≡ tail_of n (xs ++ ys)
  tail_of-append n xs ys =
      let k = length xs - n in
      let front : drop k xs ++ ys ≡ drop k (xs ++ ys) = sym (drop-append k xs ys (omega arith)) in
      ap (tail_of n) front
      ∙ drop-drop (length (drop k (xs ++ ys)) - n) k (xs ++ ys)
      ∙ ap (λ i. drop i (xs ++ ys)) (omega (arith, length-drop k (xs ++ ys), length-append xs ys))
