-- ===== src/Score/Revisions.antt =====
-- core/score/revision_service.py: building a revision from a submission.
use master_all_strings.Prelude.{ℕ, List, Option, Result, ok, ◌>>=◌, ◌>>◌}
use master_all_strings.Prelude.Text.{Str}
use master_all_strings.Prelude.Strings.{Iso8601}
use master_all_strings.Events.{MusicalEvent}
use master_all_strings.Score.Errors.{ScoreError}
use master_all_strings.Score.Canonicalize.{
  canonicalize_events, canonicalize_tempo_changes, canonicalize_meter_changes,
}
use master_all_strings.Score.Tempo.{TempoChange}
use master_all_strings.Score.Meter.{MeterChange}
use master_all_strings.Score.Provenance.{RevisionProvenance}
use master_all_strings.Score.Models.{Revision, check_revision}
use master_all_strings.Score.Digest.{Hashing, compute_revision_digest, derive_revision_id}

-- What a caller submits, the grid apart.
pub record Submission : Type 0 where
  pub created_at : Str
  pub provenance : RevisionProvenance
  pub events : List MusicalEvent
  pub tempo_changes : List TempoChange
  pub meter_changes : List MeterChange

-- The prose of a new document.
pub record Labels : Type 0 where
  pub title : Option Str
  pub description : Option Str
  pub external_reference : Option Str

-- `_build_revision`: document, number, parent, grid, and the rest.
unfoldable pub build_revision :
    ⦃iso : Iso8601⦄ ⦃h : Hashing⦄
    → Str
    → ℕ
    → Option Str
    → ℕ
    → Submission
    → Result ScoreError Revision
build_revision document_id revision_number parent_revision_id ticks_per_quarter submission = do
  events ← canonicalize_events submission.events
  tempo_changes ← canonicalize_tempo_changes submission.tempo_changes
  meter_changes ← canonicalize_meter_changes submission.meter_changes
  digest ← compute_revision_digest (record {
    document_id = document_id;
    revision_number = revision_number;
    parent_revision_id = parent_revision_id;
    ticks_per_quarter = ticks_per_quarter;
    events = events;
    tempo_changes = tempo_changes;
    meter_changes = meter_changes;
  })
  revision_id ← derive_revision_id digest
  let revision : Revision = record {
    revision_id = revision_id;
    document_id = document_id;
    revision_number = revision_number;
    parent_revision_id = parent_revision_id;
    created_at = submission.created_at;
    ticks_per_quarter = ticks_per_quarter;
    content_digest = digest;
    provenance = submission.provenance;
    events = events;
    tempo_changes = tempo_changes;
    meter_changes = meter_changes;
  }
  check_revision revision
  ok revision
