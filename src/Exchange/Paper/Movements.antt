-- ===== src/Exchange/Paper/Movements.antt =====
-- keryxflow/exchange/paper.py: what deductions and deposits do to the free balances.
use keryx_talos.Base.{
  ◌∙◌, ◌&&◌, str_eq, String, arith, ◌≡◌, Bool, not, ap, inr, inl, Bool-cases, eq_iff, if◌then◌else◌,
}
use keryx_talos.Base.Dict.{lookup-insert, insert, Dict}
use keryx_talos.Base.Result.{OnOk-bind, is_ok, OnOk}
use keryx_talos.Number.{Number}
use keryx_talos.Exchange.Paper.{
  no_balance, get_or_create_balance, balance_of, fill, put, exchange, deduct, PaperBalance,
  Database,
}

module _ {N : Type 0} ⦃num : Number N⦄ where
  open num use {add, sub, mul, lt}

  abbrev pub free_of : String → Dict (PaperBalance N) → N
  free_of c bs = (balance_of c bs).free

  balance_of-insert :
      (k j : String) (b : PaperBalance N) (bs : Dict (PaperBalance N))
      → balance_of j (insert k b bs) ≡ (if str_eq k j then b else balance_of j bs)
  balance_of-insert k j b bs = ground (arith, lookup-insert k j b bs)

  balance_of-get_or_create_balance :
      (k j : String) (bs : Dict (PaperBalance N))
      → balance_of j (get_or_create_balance k bs) ≡ balance_of j bs
  balance_of-get_or_create_balance k j bs =
      ground (arith, lookup-insert k j no_balance bs, eq_iff k j)

  -- What is free of a currency `j` after `x` of `k` is deducted.
  free_of-deduct :
      (k j : String) (x : N) (bs : Dict (PaperBalance N))
      → OnOk
          (λ bs'. free_of j bs' ≡ (if str_eq k j then sub (free_of j bs) x else free_of j bs))
          (deduct k x bs)
  unfolding deduct
  free_of-deduct k j x bs = ground (
    arith,
    eq_iff k j,
    balance_of-get_or_create_balance k j bs,
    balance_of-insert k j
        (record (balance_of k (get_or_create_balance k bs)) {
          free = sub (free_of k (get_or_create_balance k bs)) x;
          total = sub (balance_of k (get_or_create_balance k bs)).total x;
        })
        (get_or_create_balance k bs),
  )

  free_of-put :
      (k j : String) (x : N) (bs : Dict (PaperBalance N))
      → free_of j (put k x bs) ≡ (if str_eq k j then add (free_of j bs) x else free_of j bs)
  unfolding put
  free_of-put k j x bs = ground (
    arith,
    eq_iff k j,
    balance_of-get_or_create_balance k j bs,
    balance_of-insert k j
        (record (balance_of k (get_or_create_balance k bs)) {
          free = add (free_of k (get_or_create_balance k bs)) x;
          total = add (balance_of k (get_or_create_balance k bs)).total x;
        })
        (get_or_create_balance k bs),
  )

  -- Whether the order has a side, and the account what it spends.
  abbrev pub can_fill : String → String × String → N → N → Dict (PaperBalance N) → Bool
  can_fill side (base, quote) amount cost bs =
      if str_eq side "buy"
      then not (lt (free_of quote bs) cost)
      else str_eq side "sell" && not (lt (free_of base bs) amount)

  -- What is free of a currency `j` after an order.
  abbrev pub free_after : String → String × String → N → N → Dict (PaperBalance N) → String → N
  free_after side (base, quote) amount cost bs j =
      let x = free_of j bs in
      if str_eq side "buy"
      then (let y = if str_eq quote j then sub x cost else x in
          if str_eq base j then add y amount else y)
      else (let y = if str_eq base j then sub x amount else x in
          if str_eq quote j then add y cost else y)

  is_ok-deduct :
      (k : String) (x : N) (bs : Dict (PaperBalance N))
      → is_ok (deduct k x bs) ≡ not (lt (free_of k bs) x)
  unfolding deduct
  is_ok-deduct k x bs = ground (arith, balance_of-get_or_create_balance k k bs)

  pub is_ok-fill :
      (symbol side : String) (pair : String × String) (amount exec_price cost : N) (db : Database N)
      → is_ok (fill symbol side pair amount exec_price cost db)
        ≡ can_fill side pair amount cost db.balances
  unfolding fill exchange
  is_ok-fill symbol side pair amount exec_price cost db = ground (
    arith,
    is_ok-deduct pair.1 cost db.balances,
    is_ok-deduct pair.0 amount db.balances,
    eq_iff side "buy",
    eq_iff side "sell",
  )

  pub exchange-free_after :
      (side : String) (pair : String × String) (amount cost : N) (bs : Dict (PaperBalance N))
      (j : String)
      → OnOk
          (λ bs'. free_of j bs' ≡ free_after side pair amount cost bs j)
          (exchange side pair amount cost bs)
  unfolding exchange
  exchange-free_after side pair amount cost bs j = elim (Bool-cases (str_eq side "buy")) [
    | inl b ↦ rw b (
        OnOk-bind _ _ (deduct pair.1 cost bs) _ (free_of-deduct pair.1 j cost bs) (λ bs' h.
          free_of-put pair.0 j amount bs'
          ∙ ap (λ y. if str_eq pair.0 j then add y amount else y) h))
    | inr b ↦ rw b (
        OnOk-bind _ _ (deduct pair.0 amount bs) _ (free_of-deduct pair.0 j amount bs) (λ bs' h.
          free_of-put pair.1 j cost bs' ∙ ap (λ y. if str_eq pair.1 j then add y cost else y) h))
  ]
