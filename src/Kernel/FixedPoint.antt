-- ===== src/Kernel/FixedPoint.antt =====
-- lib/kernel/fixed_point.c: numbers with 14 binary digits behind the point, in an `int64_t`.
-- A division by zero is a processor exception, `none`.
pub mod Rounding
mod Tests
use uni_orion_os.Base.{ℕ, zero, ◌^◌, Option, none, some, Bool, if◌then◌else◌}
use uni_orion_os.Base.Int.{ℤ, pos, negsuc, ◌+ℤ◌, ◌-ℤ◌, ◌*ℤ◌, ◌/ℤ◌, leb_ℤ, int32, int64}

-- `f`, the conversion constant 1 << 14
abbrev pub f : ℤ
f = pos (2 ^ 14)

-- `f / 2`
abbrev pub half_f : ℤ
half_f = pos (2 ^ 13)

unfoldable pub fp_from_int : ℤ → ℤ
fp_from_int n = int64 (n *ℤ f)

unfoldable pub fp_to_int_rz : ℤ → ℤ
fp_to_int_rz fp = int32 (fp /ℤ f)

unfoldable pub fp_to_int_rn : ℤ → ℤ
fp_to_int_rn fp =
    if leb_ℤ (pos 0) fp
    then int32 (int64 (fp +ℤ half_f) /ℤ f)
    else int32 (int64 (fp -ℤ half_f) /ℤ f)

unfoldable pub fp_add : ℤ → ℤ → ℤ
fp_add x y = int64 (x +ℤ y)

unfoldable pub fp_sub : ℤ → ℤ → ℤ
fp_sub x y = int64 (x -ℤ y)

unfoldable pub fp_mult : ℤ → ℤ → ℤ
fp_mult x y = int64 (x *ℤ y) /ℤ f

-- C's `/`
unfoldable pub quotient : ℤ → ℤ → Option ℤ
quotient a (pos zero) = none
quotient a b = some (int64 (a /ℤ b))

unfoldable pub fp_div : ℤ → ℤ → Option ℤ
unfolding quotient
fp_div x y = quotient (int64 (x *ℤ f)) y

unfoldable pub fp_int_add : ℤ → ℤ → ℤ
fp_int_add fp n = int64 (fp +ℤ fp_from_int n)

unfoldable pub fp_int_subtract : ℤ → ℤ → ℤ
fp_int_subtract fp n = int64 (fp -ℤ fp_from_int n)

unfoldable pub fp_int_mult : ℤ → ℤ → ℤ
fp_int_mult fp n = int64 (fp *ℤ n)

unfoldable pub fp_int_div : ℤ → ℤ → Option ℤ
unfolding quotient
fp_int_div fp n = quotient fp n
