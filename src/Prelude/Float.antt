-- ===== src/Prelude/Float.antt =====
-- A Python float, as the bits of the double that it is.
use master_all_strings.Prelude.{ℕ, ◌<◌, ◌≡◌, Bool, true, not, nat_eq}
use Prim.Native.Nat.{◌/◌, ◌%◌}

-- The two zeros are apart, as they are for `repr`.
pub record Float : Type 0 where
  pub bits : ℕ

abbrev pub zero_float : Float
zero_float = record { bits = 0 }

-- `math.isfinite`: the eleven bits of the exponent are not all set.
unfoldable pub is_finite : Float → Bool
is_finite x = not (nat_eq (x.bits / 4_503_599_627_370_496 % 2048) 2047)

-- The bits are 64, of a number that is finite.
abbrev pub IsFinite : Float → Type 0
IsFinite x = (x.bits < 18_446_744_073_709_551_616) × (is_finite x ≡ true)
