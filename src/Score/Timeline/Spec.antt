-- ===== src/Score/Timeline/Spec.antt =====
-- Elapsed microseconds and ticks under a tempo map, as functions of natural numbers.
use master_all_strings.Prelude.{ℕ, ◌+◌, ◌-◌, ◌*◌, ◌≤◌, ◌<◌, List, [], ◌∷◌, if◌then◌else◌, leb, All}
use master_all_strings.Score.Rounding.Natural.{round_div}
use master_all_strings.Score.Tempo.{TempoChange}

-- Microseconds of a number of ticks at the tempo of a change.
unfoldable pub span : ℕ → TempoChange → ℕ → ℕ
span ppq c ticks = round_div (ticks * c.microseconds_per_quarter) ppq

unfoldable pub elapsed_at : ℕ → List TempoChange → ℕ → ℕ
elapsed_at ppq [] t = 0
elapsed_at ppq (c ∷ []) t = span ppq c (t - c.tick)
elapsed_at ppq (c ∷ n ∷ rest) t =
    if leb t n.tick
    then span ppq c (t - c.tick)
    else span ppq c (n.tick - c.tick) + elapsed_at ppq (n ∷ rest) t

unfoldable pub tick_at : ℕ → List TempoChange → ℕ → ℕ
tick_at ppq [] r = 0
tick_at ppq (c ∷ []) r = c.tick + round_div (r * ppq) c.microseconds_per_quarter
tick_at ppq (c ∷ n ∷ rest) r =
    let s = span ppq c (n.tick - c.tick) in
    if leb r s
    then c.tick + round_div (r * ppq) c.microseconds_per_quarter
    else tick_at ppq (n ∷ rest) (r - s)

-- Ticks strictly ascend.
abbrev pub IsAscending : List TempoChange → Type 0
IsAscending [] = Unit
IsAscending (c ∷ rest) = All (λ n. c.tick < n.tick) rest × IsAscending rest

-- No tempo is so fast that a tick takes less than a microsecond.
abbrev pub IsCoarse : ℕ → List TempoChange → Type 0
IsCoarse ppq = All (λ c. ppq ≤ c.microseconds_per_quarter)

abbrev pub StartsBy : ℕ → List TempoChange → Type 0
StartsBy t [] = ⊥
StartsBy t (c ∷ rest) = c.tick ≤ t
