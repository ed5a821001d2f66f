-- ===== src/Aegis/Trailing/Ratchet.antt =====
-- keryxflow/aegis/trailing.py: how the stop of a position moves.
use keryx_talos.Aegis.Trailing.{
  get_stop_price, ap, trail_from, is_beyond, gain, update_price, stop_factor, advance,
  TrailingStopState, TrailingStopManager,
}
use keryx_talos.Base.{
  false, str_eq, if◌then◌else◌, true, sell, refl, eq_refl, ◌≡◌, subst, ◌∷◌, some, String, none,
  Side, ◌∙◌, [], ◌||◌, arith, buy, List,
}
use keryx_talos.Base.Dict.{lookup, insert, lookup-insert}
use keryx_talos.Base.Result.{Result, ok, ◌>>=◌}
use keryx_talos.Number.{Number, nought, IsOrdered}

module _ {N : Type 0} ⦃num : Number N⦄ where
  open num use {mul, le, eqb}

  -- A stop is set exactly from the activation on, at the trailing distance from the extreme price.
  pub record IsValid (s : TrailingStopState N) : Type 0 where
    pub stop_eq :
        s.current_stop
        ≡ (if s.activated then some (mul s.peak_price (stop_factor s.side s.trail_pct)) else none)

  -- The calls `update_price(symbol, price)`.
  unfoldable pub update_all :
      String → List N → TrailingStopManager N → Result (TrailingStopManager N)
  update_all symbol [] m = ok m
  update_all symbol (p ∷ ps) m = update_price symbol p m >>= λ m'. update_all symbol ps m'

  -- The extreme price of a position moves up for a long, down for a short.
  abbrev pub Beyond : Side → N → N → Type 0
  Beyond buy p q = le p q ≡ true
  Beyond sell p q = le q p ≡ true

  -- What is so of a state and of a later one of the same position.
  pub record Ratchets (s t : TrailingStopState N) : Type 0 where
    pub side_eq : t.side ≡ s.side
    pub entry_eq : t.entry_price ≡ s.entry_price
    pub trail_eq : t.trail_pct ≡ s.trail_pct
    pub peak_beyond : Beyond s.side s.peak_price t.peak_price
    pub still_active : s.activated ≡ true → t.activated ≡ true
    pub valid : IsValid t

  -- The state after a price that raised no exception.
  abbrev advanced : N → TrailingStopState N → TrailingStopState N
  advanced price s =
      if s.activated
        || le s.activation_pct (num.quot (gain s.side price s.entry_price) s.entry_price)
      then trail_from price (record s { activated = true })
      else s

  advance-eq-advanced :
      (price : N) (s : TrailingStopState N)
      → eqb s.entry_price nought ≡ false
      → advance price s ≡ ok (advanced price s)
  unfolding advance
  advance-eq-advanced price s h = rw h

  get_stop_price-eq :
      (symbol : String) (m : TrailingStopManager N) (s : TrailingStopState N)
      → lookup symbol m ≡ some s
      → get_stop_price symbol m ≡ s.current_stop
  unfolding get_stop_price
  get_stop_price-eq symbol m s e = rw (e, get_stop_price)

  update_price-eq-insert :
      (symbol : String) (price : N) (m : TrailingStopManager N) (s : TrailingStopState N)
      → lookup symbol m ≡ some s
      → eqb s.entry_price nought ≡ false
      → update_price symbol price m ≡ ok (insert symbol (advanced price s) m)
  unfolding update_price
  update_price-eq-insert symbol price m s e h =
      rw (e, update_price) (rw (advance-eq-advanced price s h))

  -- What any prices of one symbol do: no exception, the state ratchets, and no other symbol is touched.
  pub record Updated (symbol : String) (s : TrailingStopState N) (m m' : TrailingStopManager N)
      : Type 0 where
    pub state : TrailingStopState N
    pub found : lookup symbol m' ≡ some state
    pub ratchets : Ratchets s state
    pub others : (other : String) → str_eq symbol other ≡ false → lookup other m' ≡ lookup other m

  module _ (laws : IsOrdered num) where
    Beyond-trail :
        (side : Side) (price peak : N)
        → le peak peak ≡ true
        → Beyond side peak (if is_beyond side price peak then price else peak)
    Beyond-trail buy price peak r = ground (arith, laws.le_of_lt peak price)
    Beyond-trail sell price peak r = ground (arith, laws.le_of_lt price peak)

    Beyond-refl : (side : Side) (p : N) → le p p ≡ true → Beyond side p p
    Beyond-refl buy p r = r
    Beyond-refl sell p r = r

    Beyond-is_number : (side : Side) (p q : N) → Beyond side p q → le q q ≡ true
    Beyond-is_number buy p q h = (laws.refl_of_le p q h).1
    Beyond-is_number sell p q h = (laws.refl_of_le q p h).0

    Beyond-trans : (side : Side) (p q r : N) → Beyond side p q → Beyond side q r → Beyond side p r
    Beyond-trans buy p q r h k = laws.le_trans p q r h k
    Beyond-trans sell p q r h k = laws.le_trans r q p k h

    Beyond-mul :
        (side : Side) (p q k : N)
        → ((x y : N) → le x y ≡ true → le (mul x k) (mul y k) ≡ true)
        → Beyond side p q
        → Beyond side (mul p k) (mul q k)
    Beyond-mul buy p q k mono h = mono p q h
    Beyond-mul sell p q k mono h = mono q p h

    advanced-Ratchets :
        (price : N) (s : TrailingStopState N)
        → le s.peak_price s.peak_price ≡ true
        → IsValid s
        → Ratchets s (advanced price s)
    advanced-Ratchets price s r v =
        ground (arith, Beyond-trail s.side price s.peak_price r, Beyond-refl s.side s.peak_price r)

    Ratchets-refl :
        (s : TrailingStopState N) → le s.peak_price s.peak_price ≡ true → IsValid s → Ratchets s s
    Ratchets-refl s r v = record {
      side_eq = refl;
      entry_eq = refl;
      trail_eq = refl;
      peak_beyond = Beyond-refl s.side s.peak_price r;
      still_active = λ a. a;
      valid = v;
    }

    Ratchets-trans : (s t u : TrailingStopState N) → Ratchets s t → Ratchets t u → Ratchets s u
    Ratchets-trans s t u a b = record {
      side_eq = b.side_eq ∙ a.side_eq;
      entry_eq = b.entry_eq ∙ a.entry_eq;
      trail_eq = b.trail_eq ∙ a.trail_eq;
      peak_beyond =
          Beyond-trans s.side s.peak_price t.peak_price u.peak_price a.peak_beyond
            (subst (λ x. Beyond x t.peak_price u.peak_price) a.side_eq b.peak_beyond);
      still_active = λ h. b.still_active (a.still_active h);
      valid = b.valid;
    }

    -- On a valid state whose entry price is not 0 and whose extreme price is a number, any prices are
    -- taken without an exception: the extreme price only moves up for a long and down for a short,
    -- an activated stop stays activated, the stop stays at its distance from the extreme, and no
    -- other symbol changes.
    pub update_all-Updated :
        (symbol : String) (prices : List N) (m : TrailingStopManager N) (s : TrailingStopState N)
        → lookup symbol m ≡ some s
        → eqb s.entry_price nought ≡ false
        → le s.peak_price s.peak_price ≡ true
        → IsValid s
        → (m' : TrailingStopManager N) × (update_all symbol prices m ≡ ok m')
          × Updated symbol s m m'
    unfolding update_all
    update_all-Updated symbol [] m s e h r v = (
      m,
      refl,
      record { state = s; found = e; ratchets = Ratchets-refl s r v; others = λ other d. refl },
    )
    update_all-Updated symbol (p ∷ ps) m s e h r v =
        let t = advanced p s in
        let a = advanced-Ratchets p s r v in
        let hit : lookup symbol (insert symbol t m) ≡ some t = simp (lookup-insert, eq_refl) in
        let (m', ran, u) =
          update_all-Updated symbol ps (insert symbol t m) t hit (rw a.entry_eq h)
            (Beyond-is_number s.side s.peak_price t.peak_price a.peak_beyond) a.valid in
        (
          m',
          ap (λ r. r >>= update_all symbol ps) (update_price-eq-insert symbol p m s e h) ∙ ran,
          record {
            state = u.state;
            found = u.found;
            ratchets = Ratchets-trans s t u.state a u.ratchets;
            others = λ other d. u.others other d ∙ rw (lookup-insert symbol other t m) (rw d);
          },
        )

    -- Where multiplying by the stop factor keeps the order of prices, the stop of an activated
    -- position only moves in its favour: it never falls for a long and never rises for a short.
    pub stop_ratchets :
        (symbol : String) (prices : List N) (m : TrailingStopManager N) (s : TrailingStopState N)
        → lookup symbol m ≡ some s
        → eqb s.entry_price nought ≡ false
        → le s.peak_price s.peak_price ≡ true
        → IsValid s
        → s.activated ≡ true
        → ((p q : N)
            → le p q ≡ true
            → le (mul p (stop_factor s.side s.trail_pct)) (mul q (stop_factor s.side s.trail_pct))
              ≡ true)
        → (m' : TrailingStopManager N) × (old : N) × (new : N) × (update_all symbol prices m
            ≡ ok m')
          × (get_stop_price symbol m ≡ some old)
          × (get_stop_price symbol m' ≡ some new)
          × Beyond s.side old new
    stop_ratchets symbol prices m s e h r v a mono =
        let (m', ran, u) = update_all-Updated symbol prices m s e h r v in
        let t = u.state in
        let k = stop_factor s.side s.trail_pct in
        (
          m',
          mul s.peak_price k,
          mul t.peak_price k,
          ran,
          get_stop_price-eq symbol m s e ∙ v.stop_eq ∙ rw a,
          get_stop_price-eq symbol m' t u.found
              ∙ (u.ratchets.valid.stop_eq
                  ∙ rw (u.ratchets.still_active a, u.ratchets.side_eq, u.ratchets.trail_eq)),
          Beyond-mul s.side s.peak_price t.peak_price k mono u.ratchets.peak_beyond,
        )
