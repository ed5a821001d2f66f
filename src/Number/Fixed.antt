-- ===== src/Number/Fixed.antt =====
-- Numbers with four decimal places, cut off towards zero: an instance that runs, in which the
-- witnesses and tests compute.
use keryx_talos.Base.{ℕ, ◌+◌, ◌*◌, ◌/◌, ◌^◌, refl, arith, if◌then◌else◌, ◌&&◌}
use keryx_talos.Base.Int.{ℤ, pos, pos_part, neg_part, sub_ℕ, ◌+ℤ◌, ◌-ℤ◌, ltb_ℤ, leb_ℤ}
use keryx_talos.Number.Laws.{HasSigns, IsTotalOrder, IsExact, Conversion, Number, IsOrdered}

abbrev pub scale : ℕ
scale = 10_000

abbrev size : ℤ → ℕ
size a = pos_part a + neg_part a

abbrev with_sign_of : ℤ → ℤ → ℕ → ℤ
with_sign_of a b n =
    if ltb_ℤ a (pos 0)
    then (if ltb_ℤ b (pos 0) then pos n else sub_ℕ 0 n)
    else (if ltb_ℤ b (pos 0) then sub_ℕ 0 n else pos n)

abbrev fixed_lit : ℕ → ℕ → ℤ
fixed_lit m k = pos (m * scale / 10 ^ k)

abbrev fixed_mul : ℤ → ℤ → ℤ
fixed_mul a b = with_sign_of a b (size a * size b / scale)

abbrev fixed_quot : ℤ → ℤ → ℤ
fixed_quot a b = with_sign_of a b (size a * scale / size b)

instance abbrev pub fixed : Number ℤ
fixed = record {
  lit = fixed_lit;
  add = ◌+ℤ◌;
  sub = ◌-ℤ◌;
  mul = fixed_mul;
  quot = fixed_quot;
  neg = λ a. sub_ℕ (neg_part a) (pos_part a);
  abs = λ a. pos (size a);
  lt = ltb_ℤ;
  le = leb_ℤ;
  eqb = λ a b. leb_ℤ a b && leb_ℤ b a;
}

pub fixed-IsOrdered : IsOrdered fixed
fixed-IsOrdered = record {
  le_of_lt = λ x y h. ground arith;
  le_trans = λ x y z h k. ground arith;
  refl_of_le = λ x y h. ground arith;
  not_le_of_lt = λ x y h. ground arith;
  le_of_not_lt = λ x y hx hy h. ground arith;
  nought_refl = refl;
}

instance abbrev pub fixed_conversion : Conversion ℤ ℤ
fixed_conversion = record { decimal = λ x. x; float = λ d. d }

pub fixed-IsTotalOrder : IsTotalOrder fixed
fixed-IsTotalOrder = record {
  le_refl = λ x. ground arith;
  le_trans = λ x y z h k. ground arith;
  le_of_not_lt = λ x y h. ground arith;
}

pub fixed-IsExact : IsExact fixed
fixed-IsExact = record {
  add_comm = λ x y. ground arith;
  add_assoc = λ x y z. ground arith;
  add-nought = λ x. ground arith;
  add-sub = λ x y. ground arith;
}

pub fixed-HasSigns : HasSigns fixed
fixed-HasSigns = record {
  nought_nonneg = refl;
  add_nonneg = λ x y h k. ground arith;
  sub_nonneg = λ x y h. ground arith;
  mul_nonneg = λ x y h k. ground arith;
}
