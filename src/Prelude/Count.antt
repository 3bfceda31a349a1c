-- ===== src/Prelude/Count.antt =====
-- How often a text occurs in a list: the view of a list that forgets its order.
use Prim.Native.Nat.{ℕ, ◌+◌}
use mathlib.Core.Path.{◌≡◌, refl, sym, ap, ◌∙◌}
use mathlib.Core.Logic.{inl, inr}
use mathlib.Core.List.{List, [], ◌∷◌, ◌++◌, map}
use native.Mathlib.Omega.{arith}
use master_all_strings.Prelude.Tests.{if◌then◌else◌, Bool-cases}
use master_all_strings.Prelude.Text.{Str, str_eq}
use master_all_strings.Prelude.Order.{Order}
use master_all_strings.Prelude.Sort.{insert, sort}

unfoldable pub count : Str → List Str → ℕ
count a [] = 0
count a (x ∷ xs) = (if str_eq a x then 1 else 0) + count a xs

pub count-append : (a : Str) (xs ys : List Str) → count a (xs ++ ys) ≡ count a xs + count a ys
unfolding count
count-append a [] ys = omega arith
count-append a (x ∷ xs) ys = omega (arith, count-append a xs ys)

-- Sorting keeps how often each text occurs among the ids of the elements.
module _ {ℓ} {A : Type ℓ} (o : Order A) (f : A → Str) (a : Str) where
  count-insert : (x : A) (ys : List A) → count a (map f (insert o x ys)) ≡ count a (map f (x ∷ ys))
  unfolding insert count
  count-insert x [] = refl
  count-insert x (y ∷ ys) = elim (Bool-cases (o.le? x y)) [
    | inl first ↦ rw first
    | inr later ↦ rw later (omega (arith, count-insert x ys))
  ]

  pub count-sort : (xs : List A) → count a (map f (sort o xs)) ≡ count a (map f xs)
  unfolding sort count
  count-sort [] = refl
  count-sort (x ∷ xs) = count-insert x (sort o xs) ∙ (omega (arith, count-sort xs))

map_same : (xs : List Str) → map (λ x. x) xs ≡ xs
map_same [] = refl
map_same (x ∷ xs) = ap (λ ys. x ∷ ys) (map_same xs)

pub count-sort_self : (o : Order Str) (a : Str) (xs : List Str) → count a (sort o xs) ≡ count a xs
count-sort_self o a xs =
    ap (count a) (sym (map_same (sort o xs)))
    ∙ count-sort o (λ x. x) a xs
    ∙ ap (count a) (map_same xs)
