-- ===== src/Score/Rounding.antt =====
-- core/score/rounding.py: the one rounding rule of canonical values.
pub mod Natural
pub mod Laws
use master_all_strings.Prelude.{Result, ok, ◌>>◌, if◌then◌else◌, ◌/◌, zero, suc}
use master_all_strings.Prelude.Int.{ℤ, pos, negsuc, neg_ℤ, ◌+ℤ◌, ◌*ℤ◌, leb_ℤ}
use master_all_strings.Score.Errors.{ScoreError, require_positive_int}

-- Python's `//`, which rounds down. Division by zero is guarded against where it is called.
infixl 70 ◌//ℤ◌
unfoldable pub ◌//ℤ◌ : ℤ → ℤ → ℤ
pos n //ℤ pos d = pos (n / d)
negsuc n //ℤ pos zero = pos 0
negsuc n //ℤ pos (suc d) = negsuc (n / suc d)
pos zero //ℤ negsuc d = pos 0
pos (suc n) //ℤ negsuc d = negsuc (n / suc d)
negsuc n //ℤ negsuc d = pos (suc n / suc d)

unfoldable pub divide_round_half_away_from_zero : ℤ → ℤ → Result ScoreError ℤ
unfolding require_positive_int ◌+ℤ◌ ◌*ℤ◌ ◌//ℤ◌
divide_round_half_away_from_zero numerator denominator = do
  require_positive_int denominator "denominator"
  if leb_ℤ (pos 0) numerator
      then ok ((pos 2 *ℤ numerator +ℤ denominator) //ℤ (pos 2 *ℤ denominator))
      else ok (neg_ℤ ((negsuc 1 *ℤ numerator +ℤ denominator) //ℤ (pos 2 *ℤ denominator)))
