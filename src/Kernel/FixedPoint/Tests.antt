-- ===== src/Kernel/FixedPoint/Tests.antt =====
-- The conversions at some numbers.
use uni_orion_os.Base.{◌≡◌, refl, arith}
use uni_orion_os.Base.Int.{pos, negsuc, int32, int64}
use uni_orion_os.Kernel.FixedPoint.{
  fp_from_int, fp_to_int_rz, fp_to_int_rn, fp_add, fp_sub, fp_mult,
}
use uni_orion_os.Kernel.FixedPoint.Rounding.{IsNear, to_int_rn_nearest}

-- -1.5 goes to -2 and to -1
rounds_away : fp_to_int_rn (negsuc 24575) ≡ negsuc 1
unfolding fp_to_int_rn int32 int64
rounds_away = refl

rounds_to_zero : fp_to_int_rz (negsuc 24575) ≡ negsuc 0
unfolding fp_to_int_rz int32
rounds_to_zero = refl

-- 2.5 * 4 - 1 = 9
nine :
    fp_sub (fp_mult (pos 40960) (fp_from_int (pos 4))) (fp_from_int (pos 1)) ≡ fp_from_int (pos 9)
unfolding fp_sub fp_mult fp_from_int int64
nine = refl

three : fp_add (fp_from_int (pos 5)) (fp_from_int (negsuc 1)) ≡ fp_from_int (pos 3)
unfolding fp_add fp_from_int int64
three = refl

to_int_rn_nearest_example : IsNear (negsuc 24575) (fp_to_int_rn (negsuc 24575))
to_int_rn_nearest_example = to_int_rn_nearest (negsuc 24575) (omega arith)
