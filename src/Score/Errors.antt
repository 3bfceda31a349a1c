-- ===== src/Score/Errors.antt =====
-- core/score/errors.py: the contract failures and the validators.
use Prim.Native.String.{String}
use master_all_strings.Prelude.{
  ℕ, suc, zero, List, [], ◌∷◌, Bool, true, false, ◌&&◌, ◌||◌, not, Option, none, some, Result, ok,
  err, require, ◌>>◌, Eq, all_distinct, length, nat_eq, leb,
}
use master_all_strings.Prelude.Int.{ℤ, pos, ltb_ℤ, leb_ℤ}
use master_all_strings.Prelude.Text.{Str, codes, is_blank}
use master_all_strings.Foundation.{DomainError}
use master_all_strings.Prelude.Strings.{Iso8601, is_stripped, ends_in_z, replace_z}

-- `ScoreContractError`, by its message; the field's name is kept where the message has one; and the
-- `SpatialMappingError` of an event that is constructed on the way.
pub data ScoreError : Type 0 where
  not_an_integer not_positive negative duplicates : String → ScoreError
  tempo_missing tempo_not_finite wrong_schema_version numerator_out_of_range denominator_unsupported
        bpm_not_a_number bpm_not_finite seconds_not_finite :
      ScoreError
  before_capture_origin release_precedes_onset duration_below_one_tick : ScoreError
  tempo_map_missing no_tempo_at_zero seconds_negative unreachable_walk : ScoreError
  blank padded not_utc not_iso not_a_digest not_labelled no_prose out_of_range : String → ScoreError
  no_source_reference release_precedes_capture unsupported_resolution : ScoreError
  origin_with_parent parent_missing own_parent id_not_derived count_not_increasing : ScoreError
  map_empty map_not_at_zero map_not_increasing : String → ScoreError
  lesson_id_illegal second_id_refused : ScoreError
  meter_not_at_zero no_identity_on_success revision_on_rejection rejection_unexplained : ScoreError
  accepted_with_rejections rejections_missing duplicate_created_revision count_too_small :
      ScoreError
  musical : DomainError → ScoreError

-- The error of a validator of core/foundation.py.
unfoldable pub as_musical {ℓ} : {A : Type ℓ} → Result DomainError A → Result ScoreError A
as_musical (ok x) = ok x
as_musical (err e) = err (musical e)

unfoldable pub require_positive_int : ℤ → String → Result ScoreError (Unit {0})
require_positive_int value field_name =
    require (ltb_ℤ (pos 0) value) (ScoreError.not_positive field_name)

unfoldable pub require_nonnegative_int : ℤ → String → Result ScoreError (Unit {0})
require_nonnegative_int value field_name =
    require (leb_ℤ (pos 0) value) (ScoreError.negative field_name)

unfoldable pub require_identifier : Str → String → Result ScoreError (Unit {0})
require_identifier value field_name = do
  require (not (is_blank value)) (blank field_name)
  require (is_stripped value) (padded field_name)

unfoldable pub require_optional_identifier : Option Str → String → Result ScoreError (Unit {0})
require_optional_identifier none field_name = ok tt
require_optional_identifier (some value) field_name = require_identifier value field_name

unfoldable pub require_utc_timestamp : ⦃iso : Iso8601⦄ → Str → String → Result ScoreError (Unit {0})
require_utc_timestamp ⦃iso⦄ value field_name = do
  require_identifier value field_name
  require (ends_in_z value) (not_utc field_name)
  require (iso.accepts (replace_z value)) (not_iso field_name)

unfoldable pub require_unique {ℓ} :
    {A : Type ℓ} ⦃e : Eq A⦄ → List A → String → Result ScoreError (Unit {0})
require_unique values field_name = require (all_distinct values) (duplicates field_name)

-- `c in "0123456789abcdef"`
unfoldable pub is_hex : ℕ → Bool
is_hex c = (leb 48 c && leb c 57) || (leb 97 c && leb c 102)

unfoldable pub are_hex : Str → Bool
unfolding is_hex
are_hex [] = true
are_hex (c ∷ s) = is_hex c && are_hex s

abbrev pub digest_length : ℕ
digest_length = 64

unfoldable pub require_digest : Str → String → Result ScoreError (Unit {0})
require_digest value field_name = do
  require_identifier value field_name
  require (nat_eq (length value) digest_length && are_hex value) (not_a_digest field_name)

-- `value.startswith(prefix)`
unfoldable pub starts_with : Str → Str → Bool
starts_with value [] = true
starts_with [] (p ∷ prefix) = false
starts_with (c ∷ value) (p ∷ prefix) = nat_eq c p && starts_with value prefix

-- `value[n:]`
unfoldable pub drop : ℕ → Str → Str
drop zero value = value
drop (suc n) [] = []
drop (suc n) (c ∷ value) = drop n value

abbrev pub digest_algorithm_prefix : Str
digest_algorithm_prefix = codes "sha256:"

unfoldable pub require_prefixed_digest : Str → String → Result ScoreError (Unit {0})
require_prefixed_digest value field_name = do
  require_identifier value field_name
  require (starts_with value digest_algorithm_prefix) (not_labelled field_name)
  require_digest (drop (length digest_algorithm_prefix) value) field_name

unfoldable pub require_prose : Str → String → Result ScoreError (Unit {0})
require_prose value field_name = require (not (is_blank value)) (no_prose field_name)

unfoldable pub require_optional_prose : Option Str → String → Result ScoreError (Unit {0})
require_optional_prose none field_name = ok tt
require_optional_prose (some value) field_name = require_prose value field_name
