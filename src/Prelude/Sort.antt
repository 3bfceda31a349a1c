-- ===== src/Prelude/Sort.antt =====
-- Python's `sorted`, which is stable: its result is ordered, has the same elements, and does not
-- depend on the order of its input where no two elements are tied.
use mathlib.Core.Path.{◌≡◌, refl, subst₂, ◌∙◌}
use mathlib.Core.Logic.{inl, inr, ∥∥₁_elim}
use mathlib.Core.Bool.{true, false}
use mathlib.Core.List.{List, [], ◌∷◌, Perm, Permᴰ}
use mathlib.Core.List.Perm
use native.Mathlib.Omega.{arith}
use master_all_strings.Prelude.Tests.{if◌then◌else◌, Bool-cases}
use master_all_strings.Prelude.Lists.{All, All-imp}
use master_all_strings.Prelude.Order.{Order, tied}

module _ {ℓ} {A : Type ℓ} (o : Order A) where
  unfoldable pub insert : A → List A → List A
  insert x [] = x ∷ []
  insert x (y ∷ ys) = if o.le? x y then x ∷ y ∷ ys else y ∷ insert x ys

  unfoldable pub sort : List A → List A
  unfolding insert
  sort [] = []
  sort (x ∷ xs) = insert x (sort xs)

  -- Every element comes no later than those after it.
  abbrev pub IsSorted : List A → Type ℓ
  IsSorted [] = Unit
  IsSorted (x ∷ xs) = All (λ y. o.le? x y ≡ true) xs × IsSorted xs

  -- No two elements are tied.
  abbrev pub IsUntied : List A → Type ℓ
  IsUntied [] = Unit
  IsUntied (x ∷ xs) = All (λ y. tied o x y ≡ false) xs × IsUntied xs

module _ {ℓ} {A : Type ℓ} (o : Order A) where
  insert-perm : (x : A) (ys : List A) → Perm (insert o x ys) (x ∷ ys)
  unfolding insert
  insert-perm x [] = Perm.refl (x ∷ [])
  insert-perm x (y ∷ ys) = elim (Bool-cases (o.le? x y)) [
    | inl first ↦ rw first (Perm.refl (x ∷ y ∷ ys))
    | inr later ↦ rw later (Perm.trans (Perm.cons y (insert-perm x ys)) (Perm.swap x y ys))
  ]

  pub sort-perm : (xs : List A) → Perm (sort o xs) xs
  unfolding sort
  sort-perm [] = Perm.refl []
  sort-perm (x ∷ xs) = Perm.trans (insert-perm x (sort o xs)) (Perm.cons x (sort-perm xs))

  pub All-insert {κ} :
      (P : A → Type κ) (x : A) (ys : List A) → P x → All P ys → All P (insert o x ys)
  unfolding insert
  All-insert P x [] hx h = (hx, tt)
  All-insert P x (y ∷ ys) hx h = elim (Bool-cases (o.le? x y)) [
    | inl first ↦ rw first (hx, h)
    | inr later ↦ rw later (h.0, All-insert P x ys hx h.1)
  ]

  pub All-sort {κ} : (P : A → Type κ) (xs : List A) → All P xs → All P (sort o xs)
  unfolding sort
  All-sort P [] h = tt
  All-sort P (x ∷ xs) h = All-insert P x (sort o xs) h.0 (All-sort P xs h.1)

  not_le : (x y : A) → o.le? x y ≡ false → o.le? y x ≡ true
  not_le x y h = ground (arith, o.total x y)

  insert-IsSorted : (x : A) (ys : List A) → IsSorted o ys → IsSorted o (insert o x ys)
  unfolding insert
  insert-IsSorted x [] s = (tt, tt)
  insert-IsSorted x (y ∷ ys) s = elim (Bool-cases (o.le? x y)) [
    | inl first ↦ rw first ((first, All-imp _ _ (λ z h. o.trans x y z first h) ys s.0), s)
    | inr later ↦
        rw later
          (All-insert (λ z. o.le? y z ≡ true) x ys (not_le x y later) s.0, insert-IsSorted x ys s.1)
  ]

  pub sort-IsSorted : (xs : List A) → IsSorted o (sort o xs)
  unfolding sort
  sort-IsSorted [] = tt
  sort-IsSorted (x ∷ xs) = insert-IsSorted x (sort o xs) (sort-IsSorted xs)

  insert_comm :
      (x y : A) (zs : List A)
      → tied o x y ≡ false
      → insert o x (insert o y zs) ≡ insert o y (insert o x zs)
  unfolding insert
  insert_comm x y [] h = ground (arith, o.total x y)
  insert_comm x y (z ∷ zs) h = ground (
    arith,
    o.total x y,
    o.trans x y z,
    o.trans y x z,
    o.trans x z y,
    o.trans y z x,
    insert_comm x y zs h,
  )

  tied_comm : (x y : A) → tied o x y ≡ tied o y x
  tied_comm x y = ground arith

  All-permᴰ {κ} : (P : A → Type κ) {xs ys : List A} → Permᴰ xs ys → All P xs → All P ys
  All-permᴰ P Permᴰ.nil h = tt
  All-permᴰ P (Permᴰ.cons e d) h = (rw (← e) h.0, All-permᴰ P d h.1)
  All-permᴰ P (Permᴰ.swap e f) h = (rw (← f) h.1.0, (rw (← e) h.0, h.1.1))
  All-permᴰ P (Permᴰ.trans d e) h = All-permᴰ P e (All-permᴰ P d h)

  IsUntied-swap : (a b : A) (l : List A) → IsUntied o (a ∷ b ∷ l) → IsUntied o (b ∷ a ∷ l)
  IsUntied-swap a b l h = ((tied_comm b a ∙ h.0.0, h.1.0), (h.0.1, h.1.1))

  IsUntied-permᴰ : {xs ys : List A} → Permᴰ xs ys → IsUntied o xs → IsUntied o ys
  IsUntied-permᴰ Permᴰ.nil h = tt
  IsUntied-permᴰ (Permᴰ.cons e d) h = (rw (← e) (All-permᴰ _ d h.0), IsUntied-permᴰ d h.1)
  IsUntied-permᴰ (Permᴰ.swap {a = a} {b = b} {l = l} e f) h =
      subst₂ (λ u v. IsUntied o (u ∷ v ∷ l)) f e (IsUntied-swap a b l h)
  IsUntied-permᴰ (Permᴰ.trans d e) h = IsUntied-permᴰ e (IsUntied-permᴰ d h)

  sort-permᴰ : {xs ys : List A} → Permᴰ xs ys → IsUntied o xs → sort o xs ≡ sort o ys
  unfolding sort
  sort-permᴰ Permᴰ.nil h = refl
  sort-permᴰ (Permᴰ.cons e d) h = rw (e, sort-permᴰ d h.1)
  sort-permᴰ (Permᴰ.swap {a = a} {b = b} {l = l} e f) h =
      rw (← e, ← f) (insert_comm a b (sort o l) h.0.0)
  sort-permᴰ (Permᴰ.trans d e) h = sort-permᴰ d h ∙ sort-permᴰ e (IsUntied-permᴰ d h)

  pub sort-eq_of_perm :
      IsSet A → (xs ys : List A) → Perm xs ys → IsUntied o xs → sort o xs ≡ sort o ys
  sort-eq_of_perm is_set xs ys p h =
      let lists : IsSet (List A) = hlevel is_set in
      ∥∥₁_elim p (lists (sort o xs) (sort o ys)) (λ d. sort-permᴰ d h)

module _ {ℓ} {A : Type ℓ} (o : Order A) where
  -- What is in order stays as it is.
  pub sort-sorted : (xs : List A) → IsSorted o xs → sort o xs ≡ xs
  unfolding sort insert
  sort-sorted [] h = refl
  sort-sorted (x ∷ []) h = refl
  sort-sorted (x ∷ y ∷ ys) h = ground (arith, sort-sorted (y ∷ ys) h.1, h.0.0)
