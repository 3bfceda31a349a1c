-- ===== src/Tests/RepositoryTests.antt =====
-- core/score/repository.py at concrete inputs.
use master_all_strings.Prelude.{
  ℕ, ◌≡◌, refl, true, false, [], ◌∷◌, none, some, ok, err, List, contains, Str_eq,
}
use master_all_strings.Prelude.Dict.{get, put, has}
use master_all_strings.Prelude.Order.{by_number, on}
use master_all_strings.Prelude.Sort.{IsSorted}
use master_all_strings.Prelude.Text.{Str, codes, str_eq, is_blank, is_space}
use master_all_strings.Performance.Errors.{is_stripped, ends_plainly}
use master_all_strings.Score.Provenance.{manual_construction}
use master_all_strings.Score.Repository.{
  Document, Revision, document_not_found, empty_repository, create_document_with_origin_revision,
  save_document, append_listed, store_revision, save_revision, list_revisions, get_revision,
}
use master_all_strings.Score.Repository.Laws.{
  Write, written, written_all, written_all-keeps_revision,
}
use master_all_strings.Score.Repository.Returns.{save_revision-get_revision}
use master_all_strings.Score.Repository.Refusals.{written-refused, list_revisions-total}

abbrev work : Str → Document
work current = record {
  document_id = codes "d";
  created_at = codes "2026-01-01T00:00:00Z";
  current_revision_id = current;
  revision_count = 1;
  title = none;
  description = none;
  external_reference = none;
}

abbrev version : Str → Str → ℕ → Str → Revision
version document_id revision_id number digest = record {
  revision_id = revision_id;
  document_id = document_id;
  revision_number = number;
  parent_revision_id = none;
  created_at = codes "2026-01-01T00:00:00Z";
  ticks_per_quarter = 960;
  content_digest = digest;
  provenance = record {
    source_kind = manual_construction;
    policy_version = codes "1";
    source_reference = none;
    event_provenance = [];
    notes = [];
  };
  events = [];
  tempo_changes = [];
  meter_changes = [];
}

abbrev origin : Revision
origin = version (codes "d") (codes "r1") 1 (codes "x")

-- A document with its origin, a second revision saved before the pointer moves to it, and a
-- collision, which is refused.
abbrev writes : List Write
writes =
    Write.create (work (codes "r1")) origin
    ∷ Write.revision (version (codes "d") (codes "r2") 2 (codes "y"))
    ∷ Write.document (work (codes "r2"))
    ∷ Write.revision (version (codes "d") (codes "r1") 1 (codes "z"))
    ∷ []

origin_stored :
    get
      (codes "r1")
      (written_all (Write.create (work (codes "r1")) origin ∷ []) empty_repository).revisions
    ≡ some origin
unfolding written_all written create_document_with_origin_revision get put has str_eq contains
origin_stored = refl

work_stored :
    get (codes "d") (written_all writes empty_repository).documents ≡ some (work (codes "r2"))
unfolding written_all written create_document_with_origin_revision save_document save_revision
    store_revision append_listed get put has str_eq contains
work_stored = refl

d_plain : is_blank (codes "d") ≡ false
unfolding is_blank is_space
d_plain = refl

d_stripped : is_stripped (codes "d") ≡ true
unfolding is_stripped ends_plainly is_space
d_stripped = refl

stray_raises :
    (save_revision
      (version (codes "e") (codes "r3") 1 (codes "x"))
      (written_all writes empty_repository)).0
    ≡ err document_not_found
unfolding written_all written create_document_with_origin_revision save_document save_revision
    store_revision append_listed get put has str_eq contains
stray_raises = refl

written_all-keeps_revision_example :
    get
      (codes "r1")
      (written_all writes
        (written_all (Write.create (work (codes "r1")) origin ∷ []) empty_repository)).revisions
    ≡ some origin
written_all-keeps_revision_example =
    written_all-keeps_revision (codes "r1") origin writes
      (written_all (Write.create (work (codes "r1")) origin ∷ []) empty_repository) origin_stored

written-refused_example :
    written
      (Write.revision (version (codes "e") (codes "r3") 1 (codes "x")))
      (written_all writes empty_repository)
    ≡ written_all writes empty_repository
written-refused_example =
    written-refused writes (Write.revision (version (codes "e") (codes "r3") 1 (codes "x")))
      document_not_found stray_raises

list_revisions-total_example :
    (vs : List Revision) × ((list_revisions (codes "d") (written_all writes empty_repository)).0
      ≡ ok vs)
    × IsSorted (on (λ (x : Revision). x.revision_number) by_number) vs
list_revisions-total_example =
    list_revisions-total writes (codes "d") (work (codes "r2")) d_plain d_stripped work_stored

-- The origin again, created later.
abbrev retry : Revision
retry = record origin { created_at = codes "2026-01-02T00:00:00Z" }

r1_plain : is_blank (codes "r1") ≡ false
unfolding is_blank is_space
r1_plain = refl

r1_stripped : is_stripped (codes "r1") ≡ true
unfolding is_stripped ends_plainly is_space
r1_stripped = refl

retry_answered : (save_revision retry (written_all writes empty_repository)).0 ≡ ok origin
unfolding written_all written create_document_with_origin_revision save_document save_revision
    store_revision append_listed get put has str_eq contains
retry_answered = refl

save_revision-get_revision_example :
    ((get_revision (codes "r1") (save_revision retry (written_all writes empty_repository)).1).0
      ≡ ok origin)
    × (origin.content_digest ≡ retry.content_digest)
save_revision-get_revision_example =
    save_revision-get_revision retry origin (written_all writes empty_repository) r1_plain
      r1_stripped retry_answered
