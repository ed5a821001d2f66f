-- ===== src/Base/Result.antt =====
-- Python's exceptions as values.
use mathlib.Core.Bool.{Bool, true, false}
use mathlib.Core.Path.{◌≡◌, refl}
use mathlib.Core.Logic.{◌⊎◌, inl, inr}
use mathlib.Core.Option.{Option, none, some}

pub data Exception : Type 0 where
  value_error zero_division_error key_error index_error database_error : Exception

pub data Result {ℓ} (A : Type ℓ) : Type ℓ where
  ok : A → Result A
  raised : Exception → Result A

infixl 5 ◌>>=◌ ◌>>◌
abbrev pub ◌>>=◌ {ℓ κ} : {A : Type ℓ} {B : Type κ} → Result A → (A → Result B) → Result B
ok a >>= f = f a
raised e >>= f = raised e

abbrev pub ◌>>◌ {ℓ} : {B : Type ℓ} → Result (Unit {0}) → Result B → Result B
m >> k = m >>= λ _. k

-- `if c: raise e`
abbrev pub raise_if : Bool → Exception → Result (Unit {0})
raise_if true e = raised e
raise_if false e = ok tt

abbrev pub or_raise {ℓ} : {A : Type ℓ} → Option A → Exception → Result A
or_raise none e = raised e
or_raise (some a) e = ok a

pub Result-cases {ℓ} :
    {A : Type ℓ} (m : Result A) → ((a : A) × (m ≡ ok a)) ⊎ ((e : Exception) × (m ≡ raised e))
Result-cases (ok a) = inl (a, refl)
Result-cases (raised e) = inr (e, refl)

-- A predicate holds of the result, if there is one.
abbrev pub OnOk {ℓ κ} : {A : Type ℓ} → (A → Type κ) → Result A → Type κ
OnOk P (ok a) = P a
OnOk P (raised e) = Unit

pub OnOk-bind {ℓ κ ℓ' κ'} :
    {A : Type ℓ} {B : Type ℓ'} (P : A → Type κ) (Q : B → Type κ') (m : Result A) (f : A → Result B)
    → OnOk P m
    → ((a : A) → P a → OnOk Q (f a))
    → OnOk Q (m >>= f)
OnOk-bind P Q (ok a) f p q = q a p
OnOk-bind P Q (raised e) f p q = tt

pub OnOk-any {ℓ} : {A : Type ℓ} (m : Result A) → OnOk (λ _. Unit {0}) m
OnOk-any (ok a) = tt
OnOk-any (raised e) = tt

pub OnOk-bind_any {ℓ κ ℓ'} :
    {A : Type ℓ} {B : Type ℓ'} (Q : B → Type κ) (m : Result A) (f : A → Result B)
    → ((a : A) → OnOk Q (f a))
    → OnOk Q (m >>= f)
OnOk-bind_any Q (ok a) f q = q a
OnOk-bind_any Q (raised e) f q = tt

abbrev pub is_ok {ℓ} : {A : Type ℓ} → Result A → Bool
is_ok (ok a) = true
is_ok (raised e) = false

pub OnOk-self {ℓ} : {A : Type ℓ} (m : Result A) → OnOk (λ a. m ≡ ok a) m
OnOk-self (ok a) = refl
OnOk-self (raised e) = tt

pub is_ok-bind_ok {ℓ κ} :
    {A : Type ℓ} {B : Type κ} (m : Result A) (f : A → B) → is_ok (m >>= λ a. ok (f a)) ≡ is_ok m
is_ok-bind_ok (ok a) f = refl
is_ok-bind_ok (raised e) f = refl
