-- ===== src/Strategies/Grid/Cycles.antt =====
-- keryxflow/strategies/grid.py: a buy that fills, and the sell that answers it.
use keryx_talos.Base.{
  ◌∙◌, get_elem?, arith, ◌≡◌, ◌+◌, ◌∷◌, [], none, some, true, false, refl, suc, ℕ, List,
}
use keryx_talos.Base.Result.{ok}
use keryx_talos.Number.{Number}
use keryx_talos.Strategies.Grid.{
  complete_cycle, sell_filled, buy_filled, GridStrategy, on_order_filled, cell_quantity, order_at,
  find_at, put_at, remove_at,
}

module _ {ℓ} {V : Type ℓ} where
  find_at-put_at : (k : ℕ) (v : V) (d : List (ℕ × V)) → find_at k (put_at k v d) ≡ some v
  find_at-put_at k v [] = ground arith
  find_at-put_at k v ((j, w) ∷ d) = ground (arith, find_at-put_at k v d)

  remove_at-put_at :
      (k : ℕ) (v : V) (d : List (ℕ × V)) → find_at k d ≡ none → remove_at k (put_at k v d) ≡ d
  remove_at-put_at k v [] h = ground arith
  remove_at-put_at k v ((j, w) ∷ d) h = ground (arith, remove_at-put_at k v d)

module _ {N : Type 0} ⦃num : Number N⦄ (power : N → N → N) (round8 : N → N) where
  open num use {add, sub, mul}

  -- A grid that works, with two neighbouring levels, and no buy pending at the lower one.
  pub record IsOpen (g : GridStrategy N) (i : ℕ) (price above quantity : N) : Type 0 where
    pub running : g.is_stopped ≡ false
    pub ready : g.initialized ≡ true
    pub level : get_elem? g.levels i ≡ some price
    pub next_level : get_elem? g.levels (suc i) ≡ some above
    pub size : cell_quantity power round8 g price ≡ ok quantity
    pub free : find_at i g.pending_buys ≡ none

  -- What a grid is after a cycle.
  abbrev pub after_cycle : GridStrategy N → N → N → N → GridStrategy N
  after_cycle g price above quantity = record g {
    total_profit = add g.total_profit (mul (sub above price) quantity);
    completed_cycles = g.completed_cycles + 1;
  }

  -- The grid with a buy pending.
  abbrev pub bought : GridStrategy N → ℕ → N → GridStrategy N
  bought g i quantity = record g { pending_buys = put_at i quantity g.pending_buys }

  filled_at :
      (g : GridStrategy N) (i : ℕ) (price : N)
      → g.is_stopped ≡ false
      → g.initialized ≡ true
      → get_elem? g.levels i ≡ some price
      → (on_order_filled power round8 i "buy" g ≡ buy_filled power round8 i price g)
        × (on_order_filled power round8 i "sell" g ≡ sell_filled power round8 i price g)
  unfolding on_order_filled
  filled_at g i price r y l =
      (simp (r, y, l, on_order_filled) refl, simp (r, y, l, on_order_filled) refl)

  buy-IsOpen :
      (g : GridStrategy N) (i : ℕ) (price above quantity : N)
      → IsOpen g i price above quantity
      → on_order_filled power round8 i "buy" g
        ≡ ok (bought g i quantity, some (order_at power round8 above quantity "sell" (suc i)))
  buy-IsOpen g i price above quantity o =
      (filled_at g i price o.running o.ready o.level).0 ∙ rw (o.size, o.next_level) refl

  sell-IsOpen :
      (g : GridStrategy N) (i : ℕ) (price above quantity : N)
      → IsOpen g i price above quantity
      → on_order_filled power round8 (suc i) "sell" (bought g i quantity)
        ≡ ok (
          after_cycle g price above quantity,
          some (order_at power round8 price quantity "buy" i),
        )
  sell-IsOpen g i price above quantity o =
      (filled_at (bought g i quantity) (suc i) above o.running o.ready o.next_level).1
      ∙ rw
          (
            o.level,
            o.size,
            find_at-put_at i quantity g.pending_buys,
            remove_at-put_at i quantity g.pending_buys o.free,
            sell_filled,
            complete_cycle,
          )
          refl

  -- On a grid that works, with no buy pending at a level, a buy that fills there is answered by a sell
  -- of the same quantity at the next level, and when that fills the grid is what it was, with one more
  -- cycle and the difference of the two levels times the quantity as profit, and orders the buy again.
  pub buy-sell :
      (g : GridStrategy N) (i : ℕ) (price above quantity : N)
      → IsOpen g i price above quantity
      → (g₁ : GridStrategy N) × (on_order_filled power round8 i "buy" g
          ≡ ok (g₁, some (order_at power round8 above quantity "sell" (suc i))))
        × (on_order_filled power round8 (suc i) "sell" g₁
            ≡ ok (
              after_cycle g price above quantity,
              some (order_at power round8 price quantity "buy" i),
            ))
  buy-sell g i price above quantity o = (
    bought g i quantity,
    buy-IsOpen g i price above quantity o,
    sell-IsOpen g i price above quantity o,
  )
