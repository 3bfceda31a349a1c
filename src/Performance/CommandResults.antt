-- ===== src/Performance/CommandResults.antt =====
-- performance/contracts/results.py: the outcome of a command and of the retrieval of a capture.
use master_all_strings.Prelude.{
  Bool, true, false, Option, none, some, Result, ok, err, require, ◌>>◌,
}
use master_all_strings.Prelude.Text.{Str, str_eq}
use master_all_strings.Performance.Errors.{
  PerformanceError, Iso8601, require_identifier, require_utc_timestamp, capture_id_mismatch,
}
use master_all_strings.Performance.Runtimes.{RuntimeFault}
use master_all_strings.Performance.Capture.{Capture}

-- `succeeded` is that there is no fault; the constructor refuses any other combination.
pub record CommandResult : Type 0 where
  pub command : Str
  pub runtime_id : Str
  pub completed_at : Str
  pub fault : Option RuntimeFault

abbrev pub succeeded : CommandResult → Bool
succeeded result = elim result.fault [ none ↦ true | some _ ↦ false ]

unfoldable pub new_command_result :
    ⦃iso : Iso8601⦄ → CommandResult → Result PerformanceError CommandResult
new_command_result result = do
  require_identifier result.command "command"
  require_identifier result.runtime_id "runtime_id"
  require_utc_timestamp result.completed_at "completed_at"
  ok result

-- A success carries its capture, a failure its fault.
pub record CaptureResult : Type 0 where
  pub capture_id : Str
  pub completed_at : Str
  pub outcome : Result RuntimeFault Capture

abbrev pub matches : Str → Result RuntimeFault Capture → Bool
matches capture_id (ok capture) = str_eq capture.capture_id capture_id
matches capture_id (err fault) = true

unfoldable pub new_capture_result :
    ⦃iso : Iso8601⦄ → CaptureResult → Result PerformanceError CaptureResult
new_capture_result result = do
  require_identifier result.capture_id "capture_id"
  require_utc_timestamp result.completed_at "completed_at"
  require (matches result.capture_id result.outcome) capture_id_mismatch
  ok result
