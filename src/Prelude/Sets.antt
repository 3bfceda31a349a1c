-- ===== src/Prelude/Sets.antt =====
-- Membership and duplicates among values that are compared by a Boolean test.
use Prim.Native.Nat.{ℕ}
use mathlib.Core.Path.{◌≡◌, refl, subst₂, ◌∙◌}
use mathlib.Core.Logic.{◌↔◌, ◌≢◌}
use mathlib.Core.Bool.{Bool, true, false, ◌&&◌, ◌||◌, not}
use mathlib.Core.List.{List, [], ◌∷◌, map, Permᴰ}
use native.Mathlib.Omega.{arith}
use master_all_strings.Prelude.Lists.{All}
use master_all_strings.Prelude.Tests.{nat_eq, nat_eq_iff}
use master_all_strings.Prelude.Text.{Str, str_eq, str_eq_iff}

-- Python's `==` between values of one type, which decides whether they are the same.
pub record Eq {ℓ} (K : Type ℓ) : Type ℓ where
  pub beq : (x y : K) → Bool
  pub beq_iff : (x y : K) → (beq x y ≡ true) ↔ (x ≡ y)

instance abbrev pub ℕ_eq : Eq ℕ
ℕ_eq = record { beq = nat_eq; beq_iff = nat_eq_iff }

instance abbrev pub Str_eq : Eq Str
Str_eq = record { beq = str_eq; beq_iff = str_eq_iff }

module _ {ℓ} {A : Type ℓ} ⦃e : Eq A⦄ where
  -- `a in xs`
  unfoldable pub contains : A → List A → Bool
  contains a [] = false
  contains a (x ∷ xs) = e.beq a x || contains a xs

  -- `len(xs) == len(set(xs))`
  unfoldable pub all_distinct : List A → Bool
  all_distinct [] = true
  all_distinct (x ∷ xs) = not (contains x xs) && all_distinct xs

module _ {ℓ κ} {A : Type ℓ} {B : Type κ} ⦃e : Eq B⦄ (f : A → B) where
  pub contains-permᴰ :
      (b : B) {xs ys : List A} → Permᴰ xs ys → contains b (map f xs) ≡ contains b (map f ys)
  unfolding contains
  contains-permᴰ b Permᴰ.nil = refl
  contains-permᴰ b (Permᴰ.cons p d) = rw (p, contains-permᴰ b d)
  contains-permᴰ b (Permᴰ.swap {a = x} {b = y} {l = l} p q) = rw (← p, ← q) (ground arith)
  contains-permᴰ b (Permᴰ.trans d d') = contains-permᴰ b d ∙ contains-permᴰ b d'

  all_distinct-swap : (a b : B) (l : List B) → all_distinct (a ∷ b ∷ l) ≡ all_distinct (b ∷ a ∷ l)
  unfolding all_distinct contains
  all_distinct-swap a b l =
      ground (arith, (e.beq_iff a b).0, (e.beq_iff a b).1, (e.beq_iff b a).0, (e.beq_iff b a).1)

  pub all_distinct-permᴰ :
      {xs ys : List A} → Permᴰ xs ys → all_distinct (map f xs) ≡ all_distinct (map f ys)
  unfolding all_distinct contains
  all_distinct-permᴰ Permᴰ.nil = refl
  all_distinct-permᴰ (Permᴰ.cons {a = x} {b = y} {l₁ = xs} {l₂ = ys} p d) =
      ground (arith, p, contains-permᴰ (f x) d, all_distinct-permᴰ d)
  all_distinct-permᴰ (Permᴰ.swap {a = x} {b = y} {l = l} p q) =
      subst₂ (λ u v. all_distinct (map f (x ∷ y ∷ l)) ≡ all_distinct (map f (u ∷ v ∷ l))) q p
        (all_distinct-swap (f x) (f y) (map f l))
  all_distinct-permᴰ (Permᴰ.trans d d') = all_distinct-permᴰ d ∙ all_distinct-permᴰ d'

  -- Values that are found to be distinct differ from each other.
  pub not_contains-All :
      (b : B) (xs : List A) → contains b (map f xs) ≡ false → All (λ x. b ≢ f x) xs
  unfolding contains
  not_contains-All b [] h = tt
  not_contains-All b (x ∷ xs) h =
      (λ same. ground (arith, (e.beq_iff b (f x)).1 same), not_contains-All b xs (ground arith))
