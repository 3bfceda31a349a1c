-- ===== src/Score/Ids/Laws.antt =====
-- core/score/ids.py: sequential ids are never issued twice.
use master_all_strings.Prelude.{
  ℕ, zero, suc, ◌+◌, ◌-◌, ◌<◌, List, [], ◌∷◌, ◌++◌, true, ◌||◌, length, Result, ok, err, ◌≡◌, refl,
  sym, ap, ◌∙◌, arith, All, All-append, All-imp, all_distinct, contains, Str_eq, ◌≢◌,
}
use master_all_strings.Prelude.Action.{after}
use master_all_strings.Prelude.Decimal.{digits, read, digits-read}
use master_all_strings.Prelude.Text.{Str, codes, str_eq, str_eq_sound}
use master_all_strings.Score.Errors.{ScoreError}
use master_all_strings.Score.Ids.{
  format_document_id, zeros, padded_number, Deterministic, next_deterministic, document_id_prefix,
}

read-zeros : (n : ℕ) (s : Str) → read 0 (zeros n ++ s) ≡ read 0 s
unfolding zeros read
read-zeros zero s = refl
read-zeros (suc n) s = read-zeros n s

read-padded : (width n : ℕ) → read 0 (padded_number width n) ≡ n
unfolding padded_number
read-padded width n = read-zeros (width - length (digits n)) (digits n) ∙ digits-read n

padded_number-injective : (width m n : ℕ) → padded_number width m ≡ padded_number width n → m ≡ n
unfolding padded_number
padded_number-injective width m n e =
    sym (read-padded width m) ∙ ap (read 0) e ∙ read-padded width n

-- The text that the authority makes of a number.
abbrev pub numbered : Str → ℕ → ℕ → Str
numbered prefix width n = document_id_prefix ++ prefix ++ codes "-" ++ padded_number width n

append-cancel : (p s t : Str) → p ++ s ≡ p ++ t → s ≡ t
append-cancel [] s t e = e
append-cancel (c ∷ p) s t e = append-cancel p s t (cc)

numbered-injective :
    (prefix : Str) (width m n : ℕ) → numbered prefix width m ≡ numbered prefix width n → m ≡ n
numbered-injective prefix width m n e =
    padded_number-injective width m n
      (append-cancel (document_id_prefix ++ prefix ++ codes "-") _ _ e)

contains-snoc :
    (y x : Str) (xs : List Str) → contains y (xs ++ x ∷ []) ≡ (contains y xs || str_eq y x)
unfolding contains
contains-snoc y x [] = ground arith
contains-snoc y x (z ∷ zs) = ground (arith, contains-snoc y x zs)

all_distinct-snoc :
    (x : Str) (xs : List Str)
    → all_distinct xs ≡ true
    → All (λ y. y ≢ x) xs
    → all_distinct (xs ++ x ∷ []) ≡ true
unfolding all_distinct contains
all_distinct-snoc x [] h fresh = refl
all_distinct-snoc x (y ∷ ys) h fresh = ground (
  arith,
  contains-snoc y x ys,
  str_eq_sound y x,
  fresh.0,
  h,
  all_distinct-snoc x ys (ground (arith, h)) fresh.1,
)

-- What a sequential authority has issued: numbers below the next one, each once.
record IsSequential (s : Deterministic) : Type 0 where
  numbers : All (λ id. (n : ℕ) × (n < s.next) × (id ≡ numbered s.prefix s.width n)) s.issued
  distinct : all_distinct s.issued ≡ true

format_document_id-eq :
    (suffix : Str) {id : Str}
    → format_document_id suffix ≡ ok id
    → id ≡ document_id_prefix ++ suffix
unfolding format_document_id
format_document_id-eq suffix h = ground arith

issued_from :
    (s : Deterministic)
    → IsSequential s
    → (r : Result ScoreError Str)
    → format_document_id (s.prefix ++ codes "-" ++ padded_number s.width s.next) ≡ r
    → IsSequential
        (after r s
          (λ id s. (ok id, record s { next = s.next + 1; issued = s.issued ++ id ∷ [] }))).1
issued_from s h (err e) formatted = h
issued_from s h (ok id) formatted =
    let named = format_document_id-eq _ formatted in
    record {
      numbers =
          All-append _ s.issued (id ∷ [])
            (All-imp _ _ (λ y (n, below, eq). (n, omega arith, eq)) s.issued h.numbers)
            ((s.next, omega arith, named), tt);
      distinct = all_distinct-snoc id s.issued h.distinct (
          All-imp _ _
            (λ y (n, below, eq) same.
              let clash = numbered-injective s.prefix s.width n s.next (sym eq ∙ same ∙ named) in
              omega arith)
            s.issued h.numbers);
    }

next_deterministic-IsSequential :
    (s : Deterministic) → IsSequential s → IsSequential (next_deterministic s).1
unfolding next_deterministic
next_deterministic-IsSequential s h =
    issued_from s h (format_document_id (s.prefix ++ codes "-" ++ padded_number s.width s.next))
      refl

-- `n` calls, of which some may raise.
unfoldable pub issue : ℕ → Deterministic → Deterministic
issue zero s = s
issue (suc n) s = issue n (next_deterministic s).1

issue-IsSequential : (n : ℕ) (s : Deterministic) → IsSequential s → IsSequential (issue n s)
unfolding issue
issue-IsSequential zero s h = h
issue-IsSequential (suc n) s h = issue-IsSequential n _ (next_deterministic-IsSequential s h)

-- However often a new sequential authority is asked, it never issues an id twice.
pub issue-distinct :
    (n : ℕ) (prefix : Str) (start width : ℕ)
    → all_distinct
        (issue n (record { prefix = prefix; next = start; width = width; issued = [] })).issued
      ≡ true
unfolding all_distinct
issue-distinct n prefix start width =
    (issue-IsSequential n _ (record { numbers = tt; distinct = refl })).distinct
