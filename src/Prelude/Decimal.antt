-- ===== src/Prelude/Decimal.antt =====
-- `str` of a natural number, which its digits determine.
use Prim.Native.Nat.{ℕ, zero, suc, ◌+◌, ◌-◌, ◌*◌, ◌/◌, ◌%◌, ◌≤◌, ◌<◌}
use mathlib.Core.Path.{◌≡◌, refl, sym, ap, ◌∙◌}
use mathlib.Core.Logic.{◌⊎◌, inl, inr}
use mathlib.Core.Bool.{true, false}
use mathlib.Core.List.{[], ◌∷◌, ◌++◌}
use native.Mathlib.Omega.{arith}
use master_all_strings.Prelude.Tests.{ltb, Bool-cases}
use master_all_strings.Prelude.Lists.{All}
use master_all_strings.Prelude.Text.{Str}

-- A number has no more digits than its value plus one, which is the fuel.
digits_loop : ℕ → ℕ → Str → Str
digits_loop zero n rest = rest
digits_loop (suc fuel) n rest = elim (ltb n 10) [
  | true ↦ (48 + n) ∷ rest
  | false ↦ digits_loop fuel (n / 10) ((48 + n % 10) ∷ rest)
]

unfoldable pub digits : ℕ → Str
unfolding digits_loop
digits n = digits_loop (suc n) n []

abbrev pub IsDigit : ℕ → Type 0
IsDigit c = (48 ≤ c) × (c ≤ 57)

digits_loop-last :
    (fuel n : ℕ) (rest : Str) → ltb n 10 ≡ true → digits_loop (suc fuel) n rest ≡ (48 + n) ∷ rest
unfolding digits_loop
digits_loop-last fuel n rest h = ground (arith, h)

digits_loop-more :
    (fuel n : ℕ) (rest : Str)
    → ltb n 10 ≡ false
    → digits_loop (suc fuel) n rest ≡ digits_loop fuel (n / 10) ((48 + n % 10) ∷ rest)
unfolding digits_loop
digits_loop-more fuel n rest h = ground (arith, h)

digits_loop-AllDigits :
    (fuel n : ℕ) (rest : Str) → All IsDigit rest → All IsDigit (digits_loop fuel n rest)
unfolding digits_loop
digits_loop-AllDigits zero n rest h = h
digits_loop-AllDigits (suc fuel) n rest h = elim (Bool-cases (ltb n 10)) [
  | inl small ↦ rw (digits_loop-last fuel n rest small) ((omega arith, ground (arith, small)), h)
  | inr large ↦
      rw (digits_loop-more fuel n rest large)
        (digits_loop-AllDigits fuel (n / 10) _ ((omega arith, omega arith), h))
]

pub digits-AllDigits : (n : ℕ) → All IsDigit (digits n)
unfolding digits
digits-AllDigits n = digits_loop-AllDigits (suc n) n [] tt

-- The first character of a text satisfies a predicate; there is one.
abbrev pub Starts : (ℕ → Type 0) → Str → Type 0
Starts P [] = ⊥
Starts P (c ∷ s) = P c

digits_loop-Starts : (fuel n : ℕ) (rest : Str) → n < fuel → Starts IsDigit (digits_loop fuel n rest)
unfolding digits_loop
digits_loop-Starts zero n rest h = absurd (omega arith)
digits_loop-Starts (suc fuel) n rest h = elim (Bool-cases (ltb n 10)) [
  | inl small ↦ rw (digits_loop-last fuel n rest small) (omega arith, ground (arith, small))
  | inr large ↦
      rw (digits_loop-more fuel n rest large)
        (digits_loop-Starts fuel (n / 10) _ (ground (arith, large)))
]

pub digits-Starts : (n : ℕ) → Starts IsDigit (digits n)
unfolding digits
digits-Starts n = digits_loop-Starts (suc n) n [] (omega arith)

-- The number that a row of digits stands for, after `before`.
unfoldable pub read : ℕ → Str → ℕ
read before [] = before
read before (c ∷ s) = let more = (before * 10 + c) in read (more - 48) s

-- What is read after the digits of `n` is read with `n` before it.
read-digits_loop :
    (fuel n : ℕ) (rest : Str) → n < fuel → read 0 (digits_loop fuel n rest) ≡ read n rest
unfolding digits_loop read
read-digits_loop zero n rest h = absurd (omega arith)
read-digits_loop (suc fuel) n rest h = elim (Bool-cases (ltb n 10)) [
  | inl small ↦ rw (digits_loop-last fuel n rest small) (ap (λ k. read k rest) (omega arith))
  | inr large ↦ rw (digits_loop-more fuel n rest large) (
      read-digits_loop fuel (n / 10) ((48 + n % 10) ∷ rest) (ground (arith, large))
      ∙ ap (λ k. read k rest) (omega arith))
]

pub digits-injective : (m n : ℕ) → digits m ≡ digits n → m ≡ n
unfolding digits read
digits-injective m n h =
    sym (read-digits_loop (suc m) m [] (omega arith))
    ∙ ap (read 0) h
    ∙ read-digits_loop (suc n) n [] (omega arith)

pub digits-read : (n : ℕ) → read 0 (digits n) ≡ n
unfolding digits read
digits-read n = read-digits_loop (suc n) n [] (omega arith)

-- Two rows of digits, each followed by something that is no digit, are told apart.
abbrev pub IsStop : ℕ → Type 0
IsStop c = (c ≡ 44) ⊎ (c ≡ 93)

rows :
    (xs ys r s : Str)
    → All IsDigit xs
    → All IsDigit ys
    → Starts IsStop r
    → Starts IsStop s
    → xs ++ r ≡ ys ++ s
    → (xs ≡ ys) × (r ≡ s)
rows [] [] r s hx hy hr hs e = (refl, e)
rows [] (y ∷ ys) [] s hx hy hr hs e = absurd hr
rows [] (y ∷ ys) (c ∷ r) s hx hy hr hs e = absurd (ground (arith, hr, hy.0, e))
rows (x ∷ xs) [] r [] hx hy hr hs e = absurd hs
rows (x ∷ xs) [] r (c ∷ s) hx hy hr hs e = absurd (ground (arith, hs, hx.0, e))
rows (x ∷ xs) (y ∷ ys) r s hx hy hr hs e = ground (arith, e, rows xs ys r s hx.1 hy.1 hr hs)

-- A number that is followed by a comma or a bracket is read back, with what follows it.
pub digits-prefix :
    (m n : ℕ) (r s : Str)
    → Starts IsStop r
    → Starts IsStop s
    → digits m ++ r ≡ digits n ++ s
    → (m ≡ n) × (r ≡ s)
digits-prefix m n r s hr hs e =
    let (same, rest) =
      rows (digits m) (digits n) r s (digits-AllDigits m) (digits-AllDigits n) hr hs e in
    (digits-injective m n same, rest)
