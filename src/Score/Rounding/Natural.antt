-- ===== src/Score/Rounding/Natural.antt =====
-- Rounding to the nearest, halves up, on natural numbers, and what bounds say about it.
use master_all_strings.Prelude.{ℕ, ◌+◌, ◌*◌, ◌/◌, ◌%◌, ◌≤◌, ◌<◌, ◌≡◌, refl, arith, ◌↔◌}
use native.Mathlib.Nat.{div-add-mod, mod-lt}
use native.Mathlib.Decide.{dec_le, dec_lt}

pub round_div : ℕ → ℕ → ℕ
round_div n d = (2 * n + d) / (2 * d)

pub round_div_lem : (n d : ℕ) → round_div n d ≡ (2 * n + d) / (2 * d)
unfolding round_div
round_div_lem n d = refl

-- The error of the quotient is at most half of the divisor, and a half goes up.
pub round_div_bounds :
    (n d : ℕ)
    → 0 < d
    → (2 * (round_div n d * d) ≤ 2 * n + d) × (2 * n + d < 2 * (round_div n d * d) + 2 * d)
unfolding round_div
round_div_bounds n d h =
    let e = div-add-mod (2 * n + d) (2 * d) in
    let m : (2 * n + d) % (2 * d) < 2 * d = mod-lt _ (omega arith) in (omega arith, omega arith)

pub round_div_unique :
    (n d q : ℕ)
    → 0 < d
    → 2 * (q * d) ≤ 2 * n + d
    → 2 * n + d < 2 * (q * d) + 2 * d
    → round_div n d ≡ q
round_div_unique n d q h low high = elim (dec_le (round_div n d) q) [
  | yes p ↦ elim (dec_le q (round_div n d)) [
    | yes r ↦ omega arith
    | no r ↦ absurd (grind (arith, round_div_bounds n d h))
  ]
  | no p ↦ absurd (grind (arith, round_div_bounds n d h))
]

pub round_div_mono : (m n d : ℕ) → 0 < d → m ≤ n → round_div m d ≤ round_div n d
round_div_mono m n d h le = elim (dec_le (round_div m d) (round_div n d)) [
  | yes p ↦ p
  | no p ↦ absurd (grind (arith, round_div_bounds m d h, round_div_bounds n d h))
]

pub round_div_zero : (d : ℕ) → 0 < d → round_div 0 d ≡ 0
round_div_zero d h = round_div_unique 0 d 0 h (omega arith) (omega arith)

-- A multiple of the divisor is divided exactly.
pub round_div_exact : (q d : ℕ) → 0 < d → round_div (q * d) d ≡ q
round_div_exact q d h = round_div_unique (q * d) d q h (omega arith) (omega arith)

-- Conversion to a grid that is at least as fine, and back, loses nothing.
pub round_div_roundtrip : (t a b : ℕ) → 0 < a → a ≤ b → round_div (round_div (t * b) a * a) b ≡ t
round_div_roundtrip t a b h le =
    let (low, high) = round_div_bounds (t * b) a h in
    elim (dec_lt a b) [
      | yes finer ↦
          round_div_unique (round_div (t * b) a * a) b t (omega arith) (omega arith) (omega arith)
      | no equal ↦
          let e : b ≡ a = omega arith in rw (e, round_div_exact t a h) (round_div_exact t a h)
    ]

-- The error of a conversion to a grid and back: half a step of each grid.
pub round_div_residue :
    (e a b : ℕ)
    → 0 < a
    → 0 < b
    → let back : ℕ = round_div (round_div (e * a) b * b) a in
      (2 * (e * a) ≤ 2 * (back * a) + a + b) × (2 * (back * a) ≤ 2 * (e * a) + a + b)
round_div_residue e a b ha hb =
    let (low, high) = round_div_bounds (e * a) b hb in
    let (low', high') = round_div_bounds (round_div (e * a) b * b) a ha in
    (omega arith, omega arith)

-- A quotient rounds to zero exactly below half of the divisor.
pub round_div_pos_iff : (n d : ℕ) → 0 < d → (1 ≤ round_div n d) ↔ (d ≤ 2 * n)
round_div_pos_iff n d h =
    (λ p. grind (arith, round_div_bounds n d h), λ p. grind (arith, round_div_bounds n d h))
