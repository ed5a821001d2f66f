-- ===== src/Strategies/Dca.antt =====
-- keryxflow/strategies/dca.py: `DCAStrategy`. Python's `x ** i` on a float and an integer is the
-- parameter `power`.
use keryx_talos.Base.{
  ◌∙◌, is_some, Bool-cases, ◌<◌, Option, none, some, true, inl, inr, get_elem?, leb, arith,
  if◌then◌else◌, ◌≡◌, Bool, map, ◌∷◌, [], false, refl, zero, suc, ℕ, List,
}
use keryx_talos.Base.Result.{Result, Exception, ok, ◌>>=◌, or_raise, is_ok, is_ok-bind_ok}
use keryx_talos.Number.{Number, nought, of_ℕ, divide, sum_from}

pub record DcaStrategy (N : Type 0) : Type 0 where
  pub base_order_size : N
  pub safety_order_size : N
  pub safety_order_count : ℕ
  pub deviation_pct : N
  pub step_multiplier : N
  pub size_multiplier : N
  pub take_profit_pct : N

module _ {N : Type 0} ⦃num : Number N⦄ (power : N → ℕ → N) where
  open num use {add, sub, mul, le}

  -- The loop over the safety orders that are left, with the deviation so far.
  abbrev pub prices_from : DcaStrategy N → N → N → ℕ → ℕ → List N
  prices_from s base_price deviation i zero = []
  prices_from s base_price deviation i (suc n) =
      let next = add deviation (mul s.deviation_pct (power s.step_multiplier i)) in
      mul base_price (sub (of_ℕ 1) next) ∷ prices_from s base_price next (suc i) n

  abbrev pub safety_order_prices : N → DcaStrategy N → List N
  safety_order_prices base_price s = prices_from s base_price nought 0 s.safety_order_count

  abbrev pub sizes_from : DcaStrategy N → ℕ → ℕ → List N
  sizes_from s i zero = []
  sizes_from s i (suc n) =
      mul s.safety_order_size (power s.size_multiplier i) ∷ sizes_from s (suc i) n

  abbrev pub safety_order_sizes : DcaStrategy N → List N
  safety_order_sizes s = sizes_from s 0 s.safety_order_count

  pub average_entry : List (N × N) → Result N
  average_entry fills =
      or_raise
        (divide (sum_from nought (map (λ f. mul f.0 f.1) fills))
          (sum_from nought (map (λ f. f.1) fills)))
        Exception.zero_division_error

  abbrev pub take_profit_price : N → DcaStrategy N → N
  take_profit_price avg_entry s = mul avg_entry (add (of_ℕ 1) s.take_profit_pct)

  abbrev pub should_place_safety_order : N → N → ℕ → DcaStrategy N → Result Bool
  should_place_safety_order current_price base_price filled s =
      if leb s.safety_order_count filled
      then ok false
      else or_raise (get_elem? (safety_order_prices base_price s) filled) Exception.index_error
        >>= λ trigger. ok (le current_price trigger)

  abbrev pub required_capital : DcaStrategy N → N
  required_capital s = add s.base_order_size (sum_from nought (safety_order_sizes s))

  get_elem?-prices_from :
      (s : DcaStrategy N) (base deviation : N) (i n k : ℕ)
      → k < n
      → is_some (get_elem? (prices_from s base deviation i n) k) ≡ true
  get_elem?-prices_from s base deviation i zero k h = absurd (omega arith)
  get_elem?-prices_from s base deviation i (suc n) zero h = refl
  get_elem?-prices_from s base deviation i (suc n) (suc k) h =
      get_elem?-prices_from s base (add deviation (mul s.deviation_pct (power s.step_multiplier i)))
        (suc i) n k (omega arith)

  is_ok-or_raise :
      {A : Type 0} (o : Option A) (e : Exception) → is_some o ≡ true → is_ok (or_raise o e) ≡ true
  is_ok-or_raise none e h = h
  is_ok-or_raise (some a) e h = refl

  -- The trigger that is compared is always one of the list.
  is_ok-should_place :
      (current base : N) (filled : ℕ) (s : DcaStrategy N)
      → is_ok (should_place_safety_order current base filled s) ≡ true
  is_ok-should_place current base filled s = elim (Bool-cases (leb s.safety_order_count filled)) [
    | inl done ↦ rw done refl
    | inr left ↦ rw left (
        is_ok-bind_ok
          (or_raise (get_elem? (safety_order_prices base s) filled) Exception.index_error)
          (λ t. le current t)
        ∙ is_ok-or_raise (get_elem? (safety_order_prices base s) filled) Exception.index_error
            (get_elem?-prices_from s base nought 0 s.safety_order_count filled (ground arith)))
  ]
