-- ===== src/Ingestion/Policy/Queues.antt =====
-- The queues of open notes of core/ingestion/policies.py.
use master_all_strings.Prelude.{
  ◌≡◌, refl, arith, List, [], ◌∷◌, Bool-cases, inl, inr, if◌then◌else◌, All,
}
use master_all_strings.Prelude.Dict.{Dict, get, put, All-put}
use master_all_strings.Ingestion.Contracts.{SourceMidiEvent, NoteKey, NoteKey_eq, note_key_eq}
use master_all_strings.Ingestion.Policy.{queue}

pub queue-cons :
    (j k : NoteKey) (w : List SourceMidiEvent) (d : Dict NoteKey (List SourceMidiEvent))
    → queue k ((j, w) ∷ d) ≡ (if note_key_eq j k then w else queue k d)
unfolding queue get
queue-cons j k w d = ground arith

pub queue-nil : (k : NoteKey) → queue k [] ≡ []
unfolding queue get
queue-nil k = refl

-- A property of all open notes.
abbrev pub AllOpen : (SourceMidiEvent → Type 0) → Dict NoteKey (List SourceMidiEvent) → Type 0
AllOpen P = All (λ (entry : NoteKey × List SourceMidiEvent). All P entry.1)

module _ (P : SourceMidiEvent → Type 0) where
  pub All-queue :
      (k : NoteKey) (d : Dict NoteKey (List SourceMidiEvent)) → AllOpen P d → All P (queue k d)
  All-queue k [] h = rw queue-nil tt
  All-queue k ((j, w) ∷ d) h = elim (Bool-cases (note_key_eq j k)) [
    | inl same ↦ rw (queue-cons j k w d, same) h.0
    | inr other ↦ rw (queue-cons j k w d, other) (All-queue k d h.1)
  ]

  pub AllOpen-put :
      (k : NoteKey) (q : List SourceMidiEvent) (d : Dict NoteKey (List SourceMidiEvent))
      → All P q
      → AllOpen P d
      → AllOpen P (put k q d)
  AllOpen-put k q d hq h =
      All-put (λ (entry : NoteKey × List SourceMidiEvent). All P entry.1) k q d (λ j same. hq) h
