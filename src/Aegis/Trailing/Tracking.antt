-- ===== src/Aegis/Trailing/Tracking.antt =====
-- keryxflow/aegis/trailing.py: where tracking starts, is inactive, and ends.
use keryx_talos.Base.{
  eq_refl, Side, some, str_eq, ◌∙◌, if◌then◌else◌, refl, String, eq_iff, none, ◌≡◌, false, arith,
}
use keryx_talos.Base.Dict.{lookup, insert, lookup-insert, lookup-erase}
use keryx_talos.Number.{Number}
use keryx_talos.Aegis.Trailing.{
  should_trigger_stop, started, get_stop_price, is_tracking, start_tracking, stop_tracking,
  TrailingStopState, TrailingStopManager,
}
use keryx_talos.Aegis.Trailing.Ratchet.{IsValid}

module _ {N : Type 0} ⦃num : Number N⦄ where
  -- A position whose prices have not reached the activation profit has no stop, and no price
  -- triggers one.
  pub inactive_never_triggers :
      (symbol : String) (price : N) (m : TrailingStopManager N) (s : TrailingStopState N)
      → lookup symbol m ≡ some s
      → IsValid s
      → s.activated ≡ false
      → (get_stop_price symbol m ≡ none) × (should_trigger_stop symbol price m ≡ false)
  unfolding get_stop_price should_trigger_stop
  inactive_never_triggers symbol price m s e v a =
      let unset : s.current_stop ≡ none = v.stop_eq ∙ rw a in
      (rw (e, get_stop_price) unset, rw (e, should_trigger_stop) (rw unset))

  lookup-stop_tracking :
      (symbol other : String) (m : TrailingStopManager N)
      → lookup other (stop_tracking symbol m)
        ≡ (if str_eq symbol other then none else lookup other m)
  unfolding stop_tracking
  lookup-stop_tracking symbol other m =
      ground (arith, eq_iff symbol other, lookup-erase symbol other m)

  -- Tracking starts inactive, with no stop and the entry price as the extreme, whatever was tracked
  -- under the symbol before. No other symbol changes.
  pub start_tracking_lem :
      (symbol other : String) (side : Side) (entry trail activation : N) (m : TrailingStopManager N)
      → let m' = start_tracking symbol side entry trail activation m in
        (lookup symbol m' ≡ some (started symbol side entry trail activation))
        × IsValid (started symbol side entry trail activation)
        × (get_stop_price symbol m' ≡ none)
        × (str_eq symbol other ≡ false → lookup other m' ≡ lookup other m)
  unfolding start_tracking get_stop_price
  start_tracking_lem symbol other side entry trail activation m =
      let s = started symbol side entry trail activation in
      let hit : lookup symbol (insert symbol s m) ≡ some s = simp (lookup-insert, eq_refl) in
      (
        hit,
        record { stop_eq = refl },
        rw (hit, get_stop_price),
        λ d. rw (lookup-insert symbol other s m) (rw d),
      )

  -- After `stop_tracking` the symbol is not tracked, has no stop and triggers at no price. No other
  -- symbol changes.
  pub stop_tracking_lem :
      (symbol other : String) (price : N) (m : TrailingStopManager N)
      → let m' = stop_tracking symbol m in
        (is_tracking symbol m' ≡ false)
        × (get_stop_price symbol m' ≡ none)
        × (should_trigger_stop symbol price m' ≡ false)
        × (str_eq symbol other ≡ false → lookup other m' ≡ lookup other m)
  unfolding is_tracking get_stop_price should_trigger_stop
  stop_tracking_lem symbol other price m =
      let gone : lookup symbol (stop_tracking symbol m) ≡ none =
        simp (lookup-stop_tracking, eq_refl) in
      (
        rw (gone, is_tracking),
        rw (gone, get_stop_price),
        rw (gone, should_trigger_stop),
        λ d. rw (lookup-stop_tracking symbol other m) (rw d),
      )
