-- ===== src/Score/Digest.antt =====
-- core/score/digest.py: the identity of a revision, from its canonical content.
pub mod Laws
use master_all_strings.Prelude.{
  ℕ, List, [], ◌∷◌, ◌++◌, Bool, true, false, Option, none, some, Result, ok, err, ◌>>=◌, ◌>>◌,
}
use master_all_strings.Prelude.Float.{Float}
use master_all_strings.Prelude.Text.{Str, codes, str_eq}
use master_all_strings.Prelude.Json.{Json, null, number, text, array, Items, end, item, dumps}
use master_all_strings.Events.{MusicalEvent}
use master_all_strings.Score.Errors.{ScoreError, require_identifier, require_digest}
use master_all_strings.Score.Canonicalize.{
  canonicalize_events, canonicalize_tempo_changes, canonicalize_meter_changes,
}
use master_all_strings.Score.Tempo.{TempoChange}
use master_all_strings.Score.Meter.{MeterChange}
use master_all_strings.Score.Models.{Revision, revision_id_of}

-- `hashlib.sha256(text.encode("utf-8")).hexdigest()`, and `repr` of a float.
pub record Hashing : Type 0 where
  pub sha256 : Str → Str
  pub repr_float : Float → Str

abbrev pub optional : Option Str → Json
optional none = null
optional (some value) = text value

abbrev pub content_serialization_version : Str
content_serialization_version = codes "1"

unfoldable pub event_row : ⦃h : Hashing⦄ → MusicalEvent → Json
event_row ⦃h⦄ event = array (
    item (text event.event_id) (
      item (number event.midi_note) (
        item (number event.start_tick) (
          item (number event.duration_ticks) (
            item (number event.velocity) (
              item (text (h.repr_float event.cents_offset))
                (item (optional event.voice_id) end)))))))

unfoldable pub tempo_row : TempoChange → Json
tempo_row change =
    array (item (number change.tick) (item (number change.microseconds_per_quarter) end))

unfoldable pub meter_row : MeterChange → Json
meter_row change = array (
    item (number change.tick)
      (item (number change.numerator) (item (number change.denominator) end)))

-- `[row(x) for x in xs]`
unfoldable pub rows {ℓ} : {A : Type ℓ} → (A → Json) → List A → Items
rows row [] = end
rows row (x ∷ xs) = item (row x) (rows row xs)

-- What identifies a revision: the fields that the digest covers.
pub record Content : Type 0 where
  pub document_id : Str
  pub revision_number : ℕ
  pub parent_revision_id : Option Str
  pub ticks_per_quarter : ℕ
  pub events : List MusicalEvent
  pub tempo_changes : List TempoChange
  pub meter_changes : List MeterChange

-- `payload`, on content that is in canonical order.
unfoldable pub payload : ⦃h : Hashing⦄ → Content → Items
payload c = item (text content_serialization_version) (
    item (text c.document_id) (
      item (number c.revision_number) (
        item (optional c.parent_revision_id) (
          item (number c.ticks_per_quarter) (
            item (array (rows event_row c.events)) (
              item (array (rows tempo_row c.tempo_changes))
                (item (array (rows meter_row c.meter_changes)) end)))))))

unfoldable pub canonical : Content → Result ScoreError Content
canonical c = do
  events ← canonicalize_events c.events
  tempo_changes ← canonicalize_tempo_changes c.tempo_changes
  meter_changes ← canonicalize_meter_changes c.meter_changes
  ok (record c { events = events; tempo_changes = tempo_changes; meter_changes = meter_changes })

unfoldable pub serialize_revision_content : ⦃h : Hashing⦄ → Content → Result ScoreError Str
serialize_revision_content c = do
  require_identifier c.document_id "document_id"
  ordered ← canonical c
  ok (dumps (array (payload ordered)))

unfoldable pub compute_revision_digest : ⦃h : Hashing⦄ → Content → Result ScoreError Str
compute_revision_digest ⦃h⦄ c = do
  serialized ← serialize_revision_content c
  ok (h.sha256 serialized)

unfoldable pub derive_revision_id : Str → Result ScoreError Str
derive_revision_id content_digest = do
  require_digest content_digest "content_digest"
  ok (revision_id_of content_digest)

abbrev pub content_of : Revision → Content
content_of v = record {
  document_id = v.document_id;
  revision_number = v.revision_number;
  parent_revision_id = v.parent_revision_id;
  ticks_per_quarter = v.ticks_per_quarter;
  events = v.events;
  tempo_changes = v.tempo_changes;
  meter_changes = v.meter_changes;
}

unfoldable pub verify_revision_digest : ⦃h : Hashing⦄ → Revision → Bool
verify_revision_digest v = elim (compute_revision_digest (content_of v)) [
  | ok expected ↦ str_eq expected v.content_digest
  | err e ↦ false
]
