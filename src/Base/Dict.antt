-- ===== src/Base/Dict.antt =====
-- A Python dict keyed by texts, in insertion order.
use keryx_talos.Base.{if_keeps, All}
use mathlib.Core.Path.{◌≡◌, refl}
use mathlib.Core.Option.{Option, none, some}
use mathlib.Core.List.{List, [], ◌∷◌, ◌++◌}
use Prim.Native.String.{String}
use native.Mathlib.Omega.{arith}
use keryx_talos.Base.Result.{Exception, OnOk, or_raise}
use text.Mathlib.Text.{◌==◌ as str_eq}
use text.Mathlib.TextEquality.{eq_iff}
use keryx_talos.Base.Tests.{if◌then◌else◌}

abbrev pub Dict {ℓ} : Type ℓ → Type ℓ
Dict V = List (String × V)

module _ {ℓ} {V : Type ℓ} where
  -- `d.get(k)`
  abbrev pub lookup : String → Dict V → Option V
  lookup k [] = none
  lookup k ((j, v) ∷ d) = if str_eq j k then some v else lookup k d

  -- `d[k] = v`
  abbrev pub insert : String → V → Dict V → Dict V
  insert k v [] = (k, v) ∷ []
  insert k v (e ∷ d) = if str_eq e.0 k then (k, v) ∷ d else e ∷ insert k v d

  -- `del d[k]`
  abbrev pub erase : String → Dict V → Dict V
  erase k [] = []
  erase k (e ∷ d) = if str_eq e.0 k then erase k d else e ∷ erase k d

  pub lookup-insert :
      (k j : String) (v : V) (d : Dict V)
      → lookup j (insert k v d) ≡ (if str_eq k j then some v else lookup j d)
  lookup-insert k j v [] = refl
  lookup-insert k j v (e ∷ d) =
      ground (arith, eq_iff k j, eq_iff e.0 k, eq_iff e.0 j, lookup-insert k j v d)

  pub lookup-erase :
      (k j : String) (d : Dict V) → lookup j (erase k d) ≡ (if str_eq k j then none else lookup j d)
  lookup-erase k j [] = ground arith
  lookup-erase k j (e ∷ d) =
      ground (arith, eq_iff k j, eq_iff e.0 k, eq_iff e.0 j, lookup-erase k j d)

  pub erase-missing : (k : String) (d : Dict V) → lookup k d ≡ none → erase k d ≡ d
  erase-missing k [] h = refl
  erase-missing k (e ∷ d) h = ground (arith, erase-missing k d)

  pub insert-missing :
      (k : String) (v : V) (d : Dict V) → lookup k d ≡ none → insert k v d ≡ d ++ ((k, v) ∷ [])
  insert-missing k v [] h = refl
  insert-missing k v (e ∷ d) h = ground (arith, insert-missing k v d)

  -- No two entries have the same key.
  abbrev pub Unique : Dict V → Type ℓ
  Unique [] = Unit {ℓ}
  Unique (e ∷ d) = (lookup e.0 d ≡ none) × Unique d

  pub insert-Unique : (k : String) (v : V) (d : Dict V) → Unique d → Unique (insert k v d)
  insert-Unique k v [] u = (refl, tt)
  insert-Unique k v (e ∷ d) u =
      ground (arith, eq_iff e.0 k, eq_iff k e.0, insert-Unique k v d, lookup-insert k e.0 v d)

  pub erase-Unique : (k : String) (d : Dict V) → Unique d → Unique (erase k d)
  erase-Unique k [] u = tt
  erase-Unique k (e ∷ d) u =
      ground (arith, eq_iff e.0 k, eq_iff k e.0, erase-Unique k d, lookup-erase k e.0 d)

  -- A predicate holds of every value.
  abbrev pub Values {κ} : (V → Type κ) → Dict V → Type κ
  Values P d = All (λ e. P e.1) d

  pub insert-Values {κ} :
      (P : V → Type κ) (k : String) (v : V) (d : Dict V)
      → P v
      → Values P d
      → Values P (insert k v d)
  insert-Values P k v [] p q = (p, tt)
  insert-Values P k v (e ∷ d) p q =
      if_keeps (λ d'. Values P d') (str_eq e.0 k) (p, q.1) (q.0, insert-Values P k v d p q.1)

  pub erase-Values {κ} :
      (P : V → Type κ) (k : String) (d : Dict V) → Values P d → Values P (erase k d)
  erase-Values P k [] q = tt
  erase-Values P k (e ∷ d) q =
      if_keeps (λ d'. Values P d') (str_eq e.0 k) (erase-Values P k d q.1)
        (q.0, erase-Values P k d q.1)

  -- A predicate holds of what an option holds.
  abbrev pub OnSome {κ} : (V → Type κ) → Option V → Type κ
  OnSome P none = Unit
  OnSome P (some v) = P v

  pub lookup-Values {κ} :
      (P : V → Type κ) (k : String) (d : Dict V) → Values P d → OnSome P (lookup k d)
  lookup-Values P k [] q = tt
  lookup-Values P k (e ∷ d) q =
      if_keeps (λ o. OnSome P o) (str_eq e.0 k) q.0 (lookup-Values P k d q.1)

pub or_raise-OnOk {ℓ κ} :
    {V : Type ℓ} (P : V → Type κ) (o : Option V) (e : Exception)
    → OnSome P o
    → OnOk P (or_raise o e)
or_raise-OnOk P none e h = tt
or_raise-OnOk P (some v) e h = h
