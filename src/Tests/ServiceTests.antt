-- ===== src/Tests/ServiceTests.antt =====
-- core/score/revision_service.py, digest.py and ids.py at concrete inputs.
use master_all_strings.Prelude.{
  ℕ, zero, suc, ◌+◌, ◌*◌, ◌%◌, ◌≤◌, ◌<◌, arith, List, [], ◌∷◌, ◌++◌, Bool, true, false, Option,
  none, some, Result, ok, err, ◌≡◌, refl, sym, ap, ◌∙◌, inl, inr, length, All, subst, if◌then◌else◌,
  ok-injective, all_distinct, contains, ◌↔◌, Str_eq,
}
use master_all_strings.Prelude.Dict.{get, put, has}
use master_all_strings.Prelude.Decimal.{digits, digits-injective, digits-AllDigits, IsDigit}
use master_all_strings.Prelude.Json.{IsScalar, dumps, dumps_before}
use master_all_strings.Prelude.Float.{IsFinite, zero_float, is_finite}
use master_all_strings.Prelude.Text.{Str, codes, str_eq, str_eq_refl, is_blank, is_space}
use master_all_strings.Prelude.Strings.{Iso8601, is_stripped, ends_in_z, ends_plainly, replace_z}
use master_all_strings.Score.Errors.{
  ScoreError, require_digest, are_hex, is_hex, require_identifier, require_optional_identifier,
  require_optional_prose, require_positive_int, require_prose, require_unique,
  require_utc_timestamp,
}
use master_all_strings.Score.Canonicalize.{
  canonicalize_events, canonicalize_tempo_changes, canonicalize_meter_changes,
}
use master_all_strings.Prelude.Sort.{sort, insert}
use master_all_strings.Prelude.Order.{str_leb}
use master_all_strings.Prelude.Json.Escapes.{escape, escape_char, unit}
use master_all_strings.Events.{MusicalEvent}
use master_all_strings.Score.Provenance.{manual_construction}
use master_all_strings.Score.Models.{
  Document, Revision, check_document, check_revision, with_revision, increases, is_origin, take,
  validate_lineage, validate_map,
}
use master_all_strings.Score.Digest.{
  compute_revision_digest, derive_revision_id, payload, event_row, meter_row, rows, tempo_row,
  Hashing, Content, canonical, content_of, serialize_revision_content,
}
use master_all_strings.Score.Digest.Laws.{ReprLaws, IsPlain, serialize_revision_content_iff}
use master_all_strings.Score.Ids.{
  zeros, padded_number, format_document_id, Deterministic, deterministic, next_deterministic,
}
use master_all_strings.Score.Ids.Laws.{issue, issue-distinct}
use master_all_strings.Score.Repository.{
  document_not_found, get_document, get_revision, require_score_identifier, save_revision,
  save_document, store_revision, append_listed, create_document_with_origin_revision, Repository,
  empty_repository,
}
use master_all_strings.Score.Revisions.{build_revision, Submission, Labels}
use master_all_strings.Score.Service.{
  origin_document, create_document_with_revision, create_child_revision, Service, RevisionCreation,
  storage, verify_lineage,
}
use master_all_strings.Score.Service.Steps.{MadeAfter, advanced}
use master_all_strings.Score.Service.Chains.{IsHistory}
use master_all_strings.Score.Service.Runs.{
  Call, create, extend, perform, IsClear, Reached, start, called, Reached-IsHistory,
  perform-refused,
}
use master_all_strings.Score.Service.Catalog.{log, perform-appends}

instance abbrev every_time : Iso8601
every_time = record { accepts = λ s. true }

-- Sixty-four times a digit that the length of the text chooses.
abbrev repeated : ℕ → ℕ → Str
repeated zero c = []
repeated (suc n) c = c ∷ repeated n c

instance abbrev by_length : Hashing
by_length = record {
  sha256 = λ s. repeated 64 (97 + length s % 6);
  repr_float = λ x. digits x.bits;
}

abbrev music : Submission
music = record {
  created_at = codes "2026-01-01T00:00:00Z";
  provenance = record {
    source_kind = manual_construction;
    policy_version = codes "1";
    source_reference = none;
    event_provenance = [];
    notes = [];
  };
  events =
      record {
        event_id = codes "ev-1";
        midi_note = 64;
        start_tick = 0;
        duration_ticks = 960;
        velocity = 80;
        cents_offset = zero_float;
        voice_id = none;
      }
      ∷ [];
  tempo_changes = record { tick = 0; microseconds_per_quarter = 500_000 } ∷ [];
  meter_changes = record { tick = 0; numerator = 4; denominator = 4 } ∷ [];
}

abbrev no_labels : Labels
no_labels = record { title = none; description = none; external_reference = none }

abbrev ids : Deterministic
ids = record { prefix = codes "test"; next = 1; width = 4; issued = [] }

abbrev opening : Service Deterministic
opening = record { repository = empty_repository; ids = ids }

abbrev first : Call
first = create 960 music no_labels

abbrev state1 : Service Deterministic
state1 = (perform deterministic first opening).1

name_plain : All IsScalar (codes "score-test-0001")
name_plain = ground arith

first-IsClear : IsClear deterministic first opening
unfolding next_deterministic get has put master_all_strings.Score.Ids.format_document_id
    master_all_strings.Score.Errors.require_identifier master_all_strings.Prelude.Text.is_blank
    master_all_strings.Prelude.Strings.is_stripped master_all_strings.Score.Ids.padded_number digits
first-IsClear id w (issued, built) =
    (subst (All IsScalar) (ok-injective issued) name_plain, λ k v s t there. cc)

state1_Reached : Reached deterministic state1
state1_Reached = called first (start ids) first-IsClear refl

abbrev document_id : Str
document_id = codes "score-test-0001"

abbrev or_else : {E A : Type 0} → A → Result E A → A
or_else a (ok b) = b
or_else a (err e) = a

abbrev blank_revision : Revision
blank_revision = record {
  revision_id = [];
  document_id = [];
  revision_number = 0;
  parent_revision_id = none;
  created_at = [];
  ticks_per_quarter = 0;
  content_digest = [];
  provenance = music.provenance;
  events = [];
  tempo_changes = [];
  meter_changes = [];
}

-- The first revision, and the one that follows it.
abbrev origin : Revision
origin = or_else blank_revision (build_revision document_id 1 none 960 music)

abbrev child : Revision
child = or_else blank_revision (build_revision document_id 2 (some origin.revision_id) 960 music)

abbrev work : Document
work = origin_document document_id music no_labels origin

abbrev stored_work : Repository
stored_work = record {
  documents = (document_id, work) ∷ [];
  revisions = (origin.revision_id, origin) ∷ [];
  by_document = (document_id, origin.revision_id ∷ []) ∷ [];
}

state1_repository : state1.repository ≡ stored_work
unfolding next_deterministic get has put contains all_distinct digits str_eq
    create_document_with_revision create_child_revision build_revision canonicalize_events
    canonicalize_tempo_changes canonicalize_meter_changes compute_revision_digest
    serialize_revision_content canonical sort insert derive_revision_id require_digest dumps payload
    escape escape_char unit dumps_before str_leb ends_in_z ends_plainly replace_z is_space event_row
    meter_row rows tempo_row are_hex is_hex require_identifier require_optional_identifier
    require_optional_prose require_positive_int require_prose require_unique require_utc_timestamp
    zeros check_document check_revision increases is_origin take validate_lineage validate_map
    is_blank is_stripped padded_number format_document_id create_document_with_origin_revision
state1_repository = refl

child_built : MadeAfter document_id none music origin child
unfolding next_deterministic get has put contains all_distinct digits str_eq
    create_document_with_revision create_child_revision build_revision canonicalize_events
    canonicalize_tempo_changes canonicalize_meter_changes compute_revision_digest
    serialize_revision_content canonical sort insert derive_revision_id require_digest dumps payload
    escape escape_char unit dumps_before str_leb ends_in_z ends_plainly replace_z is_space event_row
    meter_row rows tempo_row are_hex is_hex require_identifier require_optional_identifier
    require_optional_prose require_positive_int require_prose require_unique require_utc_timestamp
    zeros check_document check_revision increases is_origin take validate_lineage validate_map
    is_blank is_stripped padded_number format_document_id create_document_with_origin_revision
child_built = refl

abbrev text_of : Revision → Str
text_of v = or_else [] (serialize_revision_content (content_of v))

told_apart : str_eq (by_length.sha256 (text_of origin)) (by_length.sha256 (text_of child)) ≡ false
unfolding next_deterministic get has put contains all_distinct digits str_eq
    create_document_with_revision create_child_revision build_revision canonicalize_events
    canonicalize_tempo_changes canonicalize_meter_changes compute_revision_digest
    serialize_revision_content canonical sort insert derive_revision_id require_digest dumps payload
    escape escape_char unit dumps_before str_leb ends_in_z ends_plainly replace_z is_space event_row
    meter_row rows tempo_row are_hex is_hex require_identifier require_optional_identifier
    require_optional_prose require_positive_int require_prose require_unique require_utc_timestamp
    zeros check_document check_revision increases is_origin take validate_lineage validate_map
    is_blank is_stripped padded_number format_document_id create_document_with_origin_revision
told_apart = refl

one_entry : {V : Type 0} (k j : Str) (x : V) {y : V} → get j ((k, x) ∷ []) ≡ some y → y ≡ x
unfolding get
one_entry k j x h = ground (arith, h)

abbrev second : Call
second = extend document_id none music

-- The second call builds `child`, whose hash differs from that of the one stored revision.
second-IsClear : IsClear deterministic second state1
second-IsClear d p w there current built k v s t stored hs ht same =
    let d_is : d ≡ work =
      one_entry document_id document_id work (
        subst (λ (r : Repository). get document_id r.documents ≡ some d) state1_repository there) in
    let p_is : p ≡ origin = one_entry origin.revision_id d.current_revision_id origin (
      subst (λ (r : Repository). get d.current_revision_id r.revisions ≡ some p) state1_repository
        current) in
    let w_is : w ≡ child = ok-injective (
      sym (subst (λ (q : Revision). MadeAfter document_id none music q w) p_is built)
      ∙ child_built) in
    let v_is : v ≡ origin =
      one_entry origin.revision_id k origin
        (subst (λ (r : Repository). get k r.revisions ≡ some v) state1_repository stored) in
    let s_is : s ≡ text_of origin = sym (ap (or_else []) hs) ∙ ap text_of v_is in
    let t_is : t ≡ text_of child = sym (ap (or_else []) ht) ∙ ap text_of w_is in
    let clash = sym (ap by_length.sha256 s_is) ∙ same ∙ ap by_length.sha256 t_is in
    absurd (ground (arith, told_apart, str_eq_refl (by_length.sha256 (text_of child)), clash))

Reached-IsHistory_example : IsHistory (perform deterministic second state1).1.repository
Reached-IsHistory_example =
    Reached-IsHistory deterministic (perform deterministic second state1).1
      (called second state1_Reached second-IsClear refl)

-- A call on a document that is not there.
stray :
    (perform deterministic (extend (codes "score-test-0002") none music) state1).0
    ≡ err (storage document_not_found)
unfolding next_deterministic get has put contains all_distinct digits str_eq
    create_document_with_revision create_child_revision build_revision canonicalize_events
    canonicalize_tempo_changes canonicalize_meter_changes compute_revision_digest
    serialize_revision_content canonical sort insert derive_revision_id require_digest dumps payload
    escape escape_char unit dumps_before str_leb ends_in_z ends_plainly replace_z is_space event_row
    meter_row rows tempo_row are_hex is_hex require_identifier require_optional_identifier
    require_optional_prose require_positive_int require_prose require_unique require_utc_timestamp
    zeros check_document check_revision increases is_origin take validate_lineage validate_map
    is_blank is_stripped padded_number format_document_id create_document_with_origin_revision
    get_document get_revision require_score_identifier verify_lineage with_revision save_revision
    save_document store_revision append_listed
stray = refl

perform-refused_example :
    (perform deterministic (extend (codes "score-test-0002") none music) state1).1.repository
    ≡ state1.repository
perform-refused_example =
    perform-refused deterministic state1 (extend (codes "score-test-0002") none music)
      (storage document_not_found) state1_Reached stray

abbrev second_creation : RevisionCreation
second_creation = record { document = advanced work child; revision = child }

second_answer : (perform deterministic second state1).0 ≡ ok second_creation
unfolding next_deterministic get has put contains all_distinct digits str_eq
    create_document_with_revision create_child_revision build_revision canonicalize_events
    canonicalize_tempo_changes canonicalize_meter_changes compute_revision_digest
    serialize_revision_content canonical sort insert derive_revision_id require_digest dumps payload
    escape escape_char unit dumps_before str_leb ends_in_z ends_plainly replace_z is_space event_row
    meter_row rows tempo_row are_hex is_hex require_identifier require_optional_identifier
    require_optional_prose require_positive_int require_prose require_unique require_utc_timestamp
    zeros check_document check_revision increases is_origin take validate_lineage validate_map
    is_blank is_stripped padded_number format_document_id create_document_with_origin_revision
    get_document get_revision require_score_identifier verify_lineage with_revision save_revision
    save_document store_revision append_listed
second_answer = refl

perform-appends_example : log (perform deterministic second state1).1.repository document_id ≡ (
    if str_eq document_id document_id
    then log state1.repository document_id ++ child ∷ []
    else log state1.repository document_id)
perform-appends_example =
    perform-appends deterministic state1 second second_creation document_id state1_Reached
      second-IsClear second_answer

-- The same music, submitted in another order.
abbrev two_notes : List MusicalEvent → Content
two_notes events = record {
  document_id = document_id;
  revision_number = 1;
  parent_revision_id = none;
  ticks_per_quarter = 960;
  events = events;
  tempo_changes = music.tempo_changes;
  meter_changes = music.meter_changes;
}

abbrev note_at : Str → ℕ → MusicalEvent
note_at id tick = record {
  event_id = id;
  midi_note = 60;
  start_tick = tick;
  duration_ticks = 480;
  velocity = 64;
  cents_offset = record { bits = 13_836_183_955_189_006_336 };
  voice_id = none;
}

abbrev forwards : Content
forwards = two_notes (note_at (codes "a") 0 ∷ note_at (codes "b") 480 ∷ [])

abbrev backwards : Content
backwards = two_notes (note_at (codes "b") 480 ∷ note_at (codes "a") 0 ∷ [])

abbrev serialized : Content → Str
serialized c = or_else [] (serialize_revision_content c)

digits-IsScalar : (s : Str) → All IsDigit s → All IsScalar s
digits-IsScalar [] h = tt
digits-IsScalar (c ∷ s) h = (inl (omega (arith, h.0)), digits-IsScalar s h.1)

bits_laws : ReprLaws by_length
bits_laws = record {
  apart = λ x y hx hy e. ap (λ n. record { bits = n }) (digits-injective x.bits y.bits e);
  plain = λ x hx. digits-IsScalar (digits x.bits) (digits-AllDigits x.bits);
}

low_IsFinite : IsFinite (record { bits = 13_836_183_955_189_006_336 })
unfolding is_finite
low_IsFinite = (omega arith, refl)

forwards-IsPlain : IsPlain forwards
forwards-IsPlain = record {
  document_id = name_plain;
  parent = tt;
  events = (
    ((inl (omega arith), tt), tt, low_IsFinite),
    (((inl (omega arith), tt), tt, low_IsFinite), tt),
  );
}

backwards-IsPlain : IsPlain backwards
backwards-IsPlain = record {
  document_id = name_plain;
  parent = tt;
  events = (
    ((inl (omega arith), tt), tt, low_IsFinite),
    (((inl (omega arith), tt), tt, low_IsFinite), tt),
  );
}

forwards_text : serialize_revision_content forwards ≡ ok (serialized forwards)
unfolding next_deterministic get has put contains all_distinct digits str_eq
    create_document_with_revision create_child_revision build_revision canonicalize_events
    canonicalize_tempo_changes canonicalize_meter_changes compute_revision_digest
    serialize_revision_content canonical sort insert derive_revision_id require_digest dumps payload
    escape escape_char unit dumps_before str_leb ends_in_z ends_plainly replace_z is_space event_row
    meter_row rows tempo_row are_hex is_hex require_identifier require_optional_identifier
    require_optional_prose require_positive_int require_prose require_unique require_utc_timestamp
    zeros check_document check_revision increases is_origin take validate_lineage validate_map
    is_blank is_stripped padded_number format_document_id create_document_with_origin_revision
forwards_text = refl

backwards_text : serialize_revision_content backwards ≡ ok (serialized backwards)
unfolding next_deterministic get has put contains all_distinct digits str_eq
    create_document_with_revision create_child_revision build_revision canonicalize_events
    canonicalize_tempo_changes canonicalize_meter_changes compute_revision_digest
    serialize_revision_content canonical sort insert derive_revision_id require_digest dumps payload
    escape escape_char unit dumps_before str_leb ends_in_z ends_plainly replace_z is_space event_row
    meter_row rows tempo_row are_hex is_hex require_identifier require_optional_identifier
    require_optional_prose require_positive_int require_prose require_unique require_utc_timestamp
    zeros check_document check_revision increases is_origin take validate_lineage validate_map
    is_blank is_stripped padded_number format_document_id create_document_with_origin_revision
backwards_text = refl

serialize_revision_content_iff_example :
    (serialized forwards ≡ serialized backwards) ↔ (canonical forwards ≡ canonical backwards)
serialize_revision_content_iff_example =
    serialize_revision_content_iff bits_laws forwards backwards forwards-IsPlain backwards-IsPlain
      forwards_text backwards_text

issue-distinct_example :
    all_distinct
      (issue 12 (record { prefix = codes "test"; next = 1; width = 1; issued = [] })).issued
    ≡ true
issue-distinct_example = issue-distinct 12 (codes "test") 1 1
