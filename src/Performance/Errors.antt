-- ===== src/Performance/Errors.antt =====
-- performance/contracts/errors.py: the validators that the performance contracts share.
use Prim.Native.String.{String}
use master_all_strings.Prelude.{
  ℕ, List, [], ◌∷◌, Bool, true, ◌&&◌, not, Result, ok, require, ◌>>◌, Eq, all_distinct, Option,
  none, some, length, leb,
}
use master_all_strings.Prelude.Int.{ℤ, pos, leb_ℤ, ltb_ℤ}
use master_all_strings.Prelude.Text.{Str, is_blank}
use master_all_strings.Foundation.{DomainError}
pub use master_all_strings.Prelude.Strings.{Iso8601}
unfoldable pub use master_all_strings.Prelude.Strings.{
  ends_plainly, is_stripped, ends_in_z, replace_z,
}

-- `PerformanceContractError`, by its message; a failure of the shared validators; and the clock's
-- `ValueError`.
pub data PerformanceError : Type 0 where
  foundation : DomainError → PerformanceError
  blank padded not_utc not_iso negative not_positive out_of_range : String → PerformanceError
  repeated wrong_note_data wrong_controller_data wrong_bend_data : String → PerformanceError
  no_ended_at stray_ended_at sequence_not_increasing time_decreasing : PerformanceError
  capture_closed not_terminal already_closed no_active_capture runtime_crashed : PerformanceError
  clock_past_midnight unsupported_unresolved ready_while_blocked not_ready : PerformanceError
  capture_id_mismatch capture_in_progress payload_too_long missing_key : PerformanceError
  empty_loop audio_out_of_scope armed_without_input no_tracks too_many_tracks : PerformanceError
  assertion_failed no_note_off_evidence off_before_on wrong_duration : PerformanceError
  invented_note_off : PerformanceError
  bad_beat_unit bad_level bad_tempo first_after_last bounds_reversed : PerformanceError

unfoldable pub require_identifier : Str → String → Result PerformanceError (Unit {0})
require_identifier value field_name = do
  require (not (is_blank value)) (blank field_name)
  require (is_stripped value) (padded field_name)

unfoldable pub require_optional_identifier :
    Option Str → String → Result PerformanceError (Unit {0})
require_optional_identifier none field_name = ok tt
require_optional_identifier (some value) field_name = require_identifier value field_name

unfoldable pub require_utc_timestamp :
    ⦃iso : Iso8601⦄ → Str → String → Result PerformanceError (Unit {0})
require_utc_timestamp ⦃iso⦄ value field_name = do
  require_identifier value field_name
  require (ends_in_z value) (not_utc field_name)
  require (iso.accepts (replace_z value)) (not_iso field_name)

unfoldable pub require_positive_int : ℤ → String → Result PerformanceError (Unit {0})
require_positive_int value field_name = require (ltb_ℤ (pos 0) value) (not_positive field_name)

unfoldable pub require_nonnegative_int : ℤ → String → Result PerformanceError (Unit {0})
require_nonnegative_int value field_name = require (leb_ℤ (pos 0) value) (negative field_name)

unfoldable pub require_range : ℤ → String → ℤ → ℤ → Result PerformanceError (Unit {0})
require_range value field_name low high =
    require (leb_ℤ low value && leb_ℤ value high) (out_of_range field_name)

unfoldable pub require_unique {ℓ} :
    {A : Type ℓ} ⦃e : Eq A⦄ → List A → String → Result PerformanceError (Unit {0})
require_unique values field_name = require (all_distinct values) (repeated field_name)

abbrev max_raw_payload_bytes : ℕ
max_raw_payload_bytes = 64

-- `all(0 <= byte <= 255 for byte in value)`
unfoldable pub are_bytes : List ℤ → Bool
are_bytes [] = true
are_bytes (byte ∷ value) = leb_ℤ (pos 0) byte && leb_ℤ byte (pos 255) && are_bytes value

unfoldable pub require_raw_payload : List ℤ → String → Result PerformanceError (Unit {0})
require_raw_payload value field_name = do
  require (leb (length value) max_raw_payload_bytes) payload_too_long
  require (are_bytes value) (out_of_range field_name)
