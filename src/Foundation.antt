-- ===== src/Foundation.antt =====
-- core/foundation.py: the validators that the domain packages share.
use Prim.Native.String.{String}
use master_all_strings.Prelude.{Result, ok, require, ◌&&◌, not, ◌≡◌, ◌≤◌, arith}
use master_all_strings.Prelude.Int.{ℤ, pos, pos_part, leb_ℤ}
use master_all_strings.Prelude.Text.{Str, is_blank}
use master_all_strings.Prelude.Float.{Float, is_finite}

-- `SpatialMappingError`, by its message; the field's name is kept where the message has one.
pub data DomainError : Type 0 where
  blank not_a_midi_note negative not_positive not_finite duplicates : String → DomainError
  velocity_out_of_range strings_empty frets_missing frets_on_fretless : DomainError
  hybrid_unsupported fractional_capo fractional_position : DomainError
  allowed_and_excluded open_not_at_zero zero_not_open fret_missing fret_not_physical : DomainError

pub data FingerboardMode : Type 0 where
  fretted fretless hybrid : FingerboardMode

unfoldable pub require_non_empty : Str → String → Result DomainError (Unit {0})
unfolding is_blank
require_non_empty value field_name = require (not (is_blank value)) (DomainError.blank field_name)

unfoldable pub require_midi_note : ℤ → String → Result DomainError (Unit {0})
require_midi_note value field_name =
    require (leb_ℤ (pos 0) value && leb_ℤ value (pos 127)) (DomainError.not_a_midi_note field_name)

unfoldable pub require_finite : Float → String → Result DomainError (Unit {0})
require_finite value field_name = require (is_finite value) (DomainError.not_finite field_name)

-- `require_nonnegative` and, on integers, `require_index`
unfoldable pub require_index : ℤ → String → Result DomainError (Unit {0})
require_index value field_name = require (leb_ℤ (pos 0) value) (DomainError.negative field_name)

pub require_midi_note-le :
    (value : ℤ) (field_name : String)
    → require_midi_note value field_name ≡ ok tt
    → pos_part value ≤ 127
unfolding require_midi_note
require_midi_note-le value field_name h = ground arith
