-- ===== src/Score/Ids.antt =====
-- core/score/ids.py: authorities that issue document ids.
pub mod Laws
use master_all_strings.Prelude.{
  ℕ, zero, suc, ◌+◌, ◌-◌, ◌≤◌, ◌<◌, List, [], ◌∷◌, ◌++◌, Bool, true, false, ◌&&◌, ◌||◌, Result, ok,
  err, require, ◌>>=◌, ◌>>◌, if◌then◌else◌, leb, nat_eq, length,
}
use master_all_strings.Prelude.Action
use master_all_strings.Prelude.Action.{Action}
use master_all_strings.Prelude.Decimal.{digits}
use master_all_strings.Prelude.Text.{Str, codes}
use master_all_strings.Score.Errors.{
  ScoreError, require_identifier, lesson_id_illegal, second_id_refused,
}

-- The protocol: an authority has a state, and issuing an id may raise.
pub record DocumentIdAuthority : Type 1 where
  pub State : Type 0
  pub next_document_id : Action State ScoreError Str

abbrev pub document_id_prefix : Str
document_id_prefix = codes "score-"

unfoldable pub format_document_id : Str → Result ScoreError Str
format_document_id suffix = do
  require_identifier suffix "document id suffix"
  require_identifier (document_id_prefix ++ suffix) "document_id"
  ok (document_id_prefix ++ suffix)

-- `f"{n:0{width}d}"`
unfoldable pub zeros : ℕ → Str
zeros zero = []
zeros (suc n) = 48 ∷ zeros n

unfoldable pub padded_number : ℕ → ℕ → Str
unfolding zeros
padded_number width n = zeros (width - length (digits n)) ++ digits n

pub record Deterministic : Type 0 where
  pub prefix : Str
  pub next : ℕ
  pub width : ℕ
  pub issued : List Str

-- `DeterministicDocumentIdAuthority.next_document_id`
unfoldable pub next_deterministic : Action Deterministic ScoreError Str
next_deterministic s =
    Action.after (format_document_id (s.prefix ++ codes "-" ++ padded_number s.width s.next)) s
      (λ id s. (ok id, record s { next = s.next + 1; issued = s.issued ++ id ∷ [] }))

pub record Fixed : Type 0 where
  pub document_id : Str
  pub used : Bool

-- `FixedDocumentIdAuthority.next_document_id`
unfoldable pub next_fixed : Action Fixed ScoreError Str
next_fixed s =
    if s.used then (err second_id_refused, s) else (ok s.document_id, record s { used = true })

pub record Lesson : Type 0 where
  pub content_id : Str
  pub document_id : Str
  pub issued : List Str

-- `LessonDocumentIdAuthority.next_document_id`
unfoldable pub next_lesson : Action Lesson ScoreError Str
next_lesson s = (ok s.document_id, record s { issued = s.issued ++ s.document_id ∷ [] })

-- `set("abcdefghijklmnopqrstuvwxyz0123456789_-")`
unfoldable pub lesson_id_allowed : ℕ → Bool
lesson_id_allowed c =
    (leb 97 c && leb c 122) || (leb 48 c && leb c 57) || nat_eq c 95 || nat_eq c 45

unfoldable pub all_allowed : Str → Bool
all_allowed [] = true
all_allowed (c ∷ s) = lesson_id_allowed c && all_allowed s

-- The constructor of a lesson's authority; `lower` is `str.lower`, and an identifier is stripped.
unfoldable pub new_lesson : (Str → Str) → Str → Result ScoreError Lesson
new_lesson lower content_id = do
  require_identifier content_id "content_id"
  require (all_allowed (lower content_id)) lesson_id_illegal
  document_id ← format_document_id (lower content_id)
  ok (record { content_id = lower content_id; document_id = document_id; issued = [] })

abbrev pub deterministic : DocumentIdAuthority
deterministic = record { State = Deterministic; next_document_id = next_deterministic }

abbrev pub fixed : DocumentIdAuthority
fixed = record { State = Fixed; next_document_id = next_fixed }

abbrev pub lesson : DocumentIdAuthority
lesson = record { State = Lesson; next_document_id = next_lesson }
