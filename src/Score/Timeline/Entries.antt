-- ===== src/Score/Timeline/Entries.antt =====
-- The entries of the dict that `normalize_tempo_map` of core/score/musical_timeline.py builds and sorts.
use master_all_strings.Prelude.{
  ℕ, ◌<◌, List, [], ◌∷◌, map, if◌then◌else◌, leb, nat_eq, nat_eq_iff, All, ◌≡◌, refl, ap, ◌∙◌,
  arith, inl, inr, Bool-cases, Option, none, some, true, false, ℕ_eq, subst,
}
use master_all_strings.Prelude.Dict.{
  Dict, get, put, HasUniqueKeys, put-HasUniqueKeys, All-put, get-put,
}
use master_all_strings.Prelude.Order.{Order, by_number, on}
use master_all_strings.Prelude.Sort.{sort, insert, IsSorted, All-sort, All-insert}
use master_all_strings.Score.Tempo.{TempoChange}
use master_all_strings.Score.Timeline.{last_writer_wins}
use master_all_strings.Score.Timeline.Spec.{IsAscending}

-- The change that the list has at a tick, and the last one that was submitted for it.
unfoldable pub find_tick : ℕ → List TempoChange → Option TempoChange
find_tick t [] = none
find_tick t (c ∷ cs) = if nat_eq c.tick t then some c else find_tick t cs

abbrev pub or_else : Option TempoChange → Option TempoChange → Option TempoChange
or_else (some c) o = some c
or_else none o = o

unfoldable pub last_change : ℕ → List TempoChange → Option TempoChange
last_change t [] = none
last_change t (c ∷ cs) = or_else (last_change t cs) (if nat_eq c.tick t then some c else none)

abbrev pub Entry : Type 0
Entry = ℕ × TempoChange

abbrev pub by_key : Order Entry
by_key = on (λ (entry : Entry). entry.0) by_number

-- Every entry stands under its own tick.
abbrev pub IsKeyed : List Entry → Type 0
IsKeyed = All (λ (entry : Entry). entry.0 ≡ entry.1.tick)

pub last_writer_wins-keys :
    (d : Dict ℕ TempoChange) (cs : List TempoChange)
    → HasUniqueKeys d
    → IsKeyed d
    → HasUniqueKeys (last_writer_wins d cs) × IsKeyed (last_writer_wins d cs)
unfolding last_writer_wins
last_writer_wins-keys d [] u k = (u, k)
last_writer_wins-keys d (c ∷ cs) u k =
    last_writer_wins-keys (put c.tick c d) cs (put-HasUniqueKeys c.tick c d u)
      (All-put _ c.tick c d (λ j same. (nat_eq_iff j c.tick).0 same) k)

pub get-last_writer_wins :
    (t : ℕ) (d : Dict ℕ TempoChange) (cs : List TempoChange)
    → get t (last_writer_wins d cs) ≡ or_else (last_change t cs) (get t d)
unfolding last_writer_wins last_change
get-last_writer_wins t d [] = refl
get-last_writer_wins t d (c ∷ cs) =
    ground (arith, get-last_writer_wins t (put c.tick c d) cs, get-put c.tick t c d)

-- Sorting entries with distinct keys does not change what a key finds.
get-insert :
    (t k : ℕ) (c : TempoChange) (d : List Entry)
    → All (λ (x : Entry). nat_eq k x.0 ≡ false) d
    → get t (insert by_key (k, c) d) ≡ (if nat_eq k t then some c else get t d)
unfolding insert get
get-insert t k c [] h = refl
get-insert t k c ((j, w) ∷ d) h = ground (arith, get-insert t k c d h.1, h.0)

pub get-sort : (t : ℕ) (d : List Entry) → HasUniqueKeys d → get t (sort by_key d) ≡ get t d
unfolding sort get
get-sort t [] u = refl
get-sort t ((k, c) ∷ d) u =
    get-insert t k c (sort by_key d) (All-sort by_key _ d u.0)
    ∙ ap (λ o. if nat_eq k t then some c else o) (get-sort t d u.1)

insert-HasUniqueKeys :
    (k : ℕ) (c : TempoChange) (d : List Entry)
    → All (λ (x : Entry). nat_eq k x.0 ≡ false) d
    → HasUniqueKeys d
    → HasUniqueKeys (insert by_key (k, c) d)
unfolding insert
insert-HasUniqueKeys k c [] h u = (tt, tt)
insert-HasUniqueKeys k c ((j, w) ∷ d) h u = elim (Bool-cases (leb k j)) [
  | inl first ↦ rw first (h, u)
  | inr later ↦
      rw later
        (All-insert by_key _ (k, c) d (ground (arith, h.0)) u.0, insert-HasUniqueKeys k c d h.1 u.1)
]

pub sort-HasUniqueKeys : (d : List Entry) → HasUniqueKeys d → HasUniqueKeys (sort by_key d)
unfolding sort
sort-HasUniqueKeys [] u = tt
sort-HasUniqueKeys ((k, c) ∷ d) u =
    insert-HasUniqueKeys k c (sort by_key d) (All-sort by_key _ d u.0) (sort-HasUniqueKeys d u.1)

abbrev pub values : List Entry → List TempoChange
values = map (λ entry. entry.1)

pub find_tick-values : (t : ℕ) (d : List Entry) → IsKeyed d → find_tick t (values d) ≡ get t d
unfolding find_tick get
find_tick-values t [] k = refl
find_tick-values t ((j, c) ∷ d) k = ground (arith, find_tick-values t d k.1, k.0)

later_ticks :
    (k : ℕ) (d : List Entry)
    → All (λ (x : Entry). leb k x.0 ≡ true) d
    → All (λ (x : Entry). nat_eq k x.0 ≡ false) d
    → IsKeyed d
    → All (λ n. k < n.tick) (values d)
later_ticks k [] s u h = tt
later_ticks k ((j, c) ∷ d) s u h = (ground (arith, s.0, u.0, h.0), later_ticks k d s.1 u.1 h.1)

pub values-IsAscending :
    (d : List Entry) → IsSorted by_key d → HasUniqueKeys d → IsKeyed d → IsAscending (values d)
values-IsAscending [] s u k = tt
values-IsAscending ((j, c) ∷ d) s u k = (
  subst (λ t. All (λ n. t < n.tick) (values d)) k.0 (later_ticks j d s.0 u.0 k.1),
  values-IsAscending d s.1 u.1 k.1,
)
