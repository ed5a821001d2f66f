-- ===== src/Exchange/Paper/Funds.antt =====
-- keryxflow/exchange/paper.py: balances and whether they are funded, through the steps of an order.
use keryx_talos.Exchange.Paper.{
  no_balance, balance_of, get_or_create_balance, exchange, deduct, put, PaperBalance,
}
use keryx_talos.Base.{
  ◌≡◌, str_eq, String, ap, inr, if_keeps, Bool-cases, inl, is_some, subst, refl, Option-cases,
}
use keryx_talos.Base.Dict.{lookup-Values, OnSome, lookup, insert-Values, Values, Dict}
use keryx_talos.Base.Result.{OnOk-bind, OnOk}
use keryx_talos.Number.{Number, IsNonNeg, HasSigns, nought}

module _ {N : Type 0} ⦃num : Number N⦄ where
  open num use {add, sub, mul, lt}

  -- A row of a balance: nothing is used, so that all of it is free, and it is not below 0.
  pub record IsFunded (b : PaperBalance N) : Type 0 where
    pub free_ok : IsNonNeg b.free
    pub total_eq : b.total ≡ b.free
    pub used_eq : b.used ≡ nought

  abbrev pub Funds : Dict (PaperBalance N) → Type 0
  Funds = Values IsFunded

  module _ (laws : HasSigns num) where
    open laws use {nought_nonneg, add_nonneg, sub_nonneg, mul_nonneg}

    get_or_create_balance-Funds :
        (c : String) (bs : Dict (PaperBalance N)) → Funds bs → Funds (get_or_create_balance c bs)
    get_or_create_balance-Funds c bs f = if_keeps Funds (is_some (lookup c bs)) f (
        insert-Values IsFunded c no_balance bs
          (record { free_ok = nought_nonneg; total_eq = refl; used_eq = refl }) f)

    balance_of-IsFunded :
        (c : String) (bs : Dict (PaperBalance N)) → Funds bs → IsFunded (balance_of c bs)
    balance_of-IsFunded c bs f = elim (Option-cases (lookup c bs)) [
      | inl e ↦ rw e (record { free_ok = nought_nonneg; total_eq = refl; used_eq = refl })
      | inr (b, e) ↦ rw e (subst (OnSome IsFunded) e (lookup-Values IsFunded c bs f))
    ]

    put-Funds :
        (c : String) (x : N) (bs : Dict (PaperBalance N))
        → IsNonNeg x
        → Funds bs
        → Funds (put c x bs)
    unfolding put
    put-Funds c x bs p f =
        let f₁ = get_or_create_balance-Funds c bs f in
        let b = balance_of-IsFunded c _ f₁ in
        insert-Values IsFunded c _ _
          (record {
            free_ok = add_nonneg _ _ b.free_ok p;
            total_eq = ap (λ t. add t x) b.total_eq;
            used_eq = b.used_eq;
          })
          f₁

    deduct-Funds :
        (c : String) (x : N) (bs : Dict (PaperBalance N)) → Funds bs → OnOk Funds (deduct c x bs)
    unfolding deduct
    deduct-Funds c x bs f =
        let f₁ = get_or_create_balance-Funds c bs f in
        let b = balance_of-IsFunded c _ f₁ in
        elim (Bool-cases (lt (balance_of c (get_or_create_balance c bs)).free x)) [
          | inl short ↦ rw short tt
          | inr enough ↦ rw enough (
              insert-Values IsFunded c _ _
                (record {
                  free_ok = sub_nonneg _ _ enough;
                  total_eq = ap (λ t. sub t x) b.total_eq;
                  used_eq = b.used_eq;
                })
                f₁)
        ]

    pub exchange-Funds :
        (side : String) (pair : String × String) (amount cost : N) (bs : Dict (PaperBalance N))
        → IsNonNeg amount
        → IsNonNeg cost
        → Funds bs
        → OnOk Funds (exchange side pair amount cost bs)
    unfolding exchange
    exchange-Funds side pair amount cost bs p q f =
        if_keeps (OnOk Funds) (str_eq side "buy")
          (OnOk-bind Funds Funds _ _ (deduct-Funds pair.1 cost bs f)
            (λ b g. put-Funds pair.0 amount b p g))
          (OnOk-bind Funds Funds _ _ (deduct-Funds pair.0 amount bs f)
            (λ b g. put-Funds pair.1 cost b q g))
