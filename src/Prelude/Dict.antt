-- ===== src/Prelude/Dict.antt =====
-- Python's `dict` as the list of its entries in insertion order.
use mathlib.Core.Path.{◌≡◌, refl}
use mathlib.Core.Bool.{Bool, true, false}
use mathlib.Core.Option.{Option, none, some}
use mathlib.Core.List.{List, [], ◌∷◌}
use native.Mathlib.Omega.{arith}
use master_all_strings.Prelude.Tests.{if◌then◌else◌, Bool-cases}
use master_all_strings.Prelude.Lists.{All}
use master_all_strings.Prelude.Sets.{Eq}
use mathlib.Core.Logic.{inl, inr}

abbrev pub Dict {ℓ κ} : Type ℓ → Type κ → Type (ℓ ⊔ κ)
Dict K V = List (K × V)

module _ {ℓ κ} {K : Type ℓ} {V : Type κ} ⦃e : Eq K⦄ where
  -- `d.get(k)`
  unfoldable pub get : K → Dict K V → Option V
  get k [] = none
  get k ((j, v) ∷ d) = if e.beq j k then some v else get k d

  -- `d[k] = v`: a key that is there keeps its place.
  unfoldable pub put : K → V → Dict K V → Dict K V
  put k v [] = (k, v) ∷ []
  put k v ((j, w) ∷ d) = if e.beq j k then (j, v) ∷ d else (j, w) ∷ put k v d

  -- `k in d`
  unfoldable pub has : K → Dict K V → Bool
  unfolding get
  has k d = elim (get k d) [ none ↦ false | some v ↦ true ]

  -- An entry is not shadowed by an earlier one.
  abbrev pub HasUniqueKeys : Dict K V → Type 0
  HasUniqueKeys [] = Unit
  HasUniqueKeys ((k, v) ∷ d) = All (λ x. e.beq k x.0 ≡ false) d × HasUniqueKeys d

module _ {ℓ κ} {K : Type ℓ} {V : Type κ} ⦃e : Eq K⦄ where
  pub get-put :
      (k j : K) (v : V) (d : Dict K V) → get j (put k v d) ≡ (if e.beq k j then some v else get j d)
  unfolding get put
  get-put k j v [] = refl
  get-put k j v ((i, w) ∷ d) = ground (
    arith,
    (e.beq_iff i k).0,
    (e.beq_iff i k).1,
    (e.beq_iff i j).0,
    (e.beq_iff i j).1,
    (e.beq_iff k j).0,
    (e.beq_iff k j).1,
    get-put k j v d,
  )

  pub get-put_self : (k : K) (v : V) (d : Dict K V) → get k (put k v d) ≡ some v
  get-put_self k v d = ground (arith, get-put k k v d, (e.beq_iff k k).1 refl)

  pub get-put_ne :
      (k j : K) (v : V) (d : Dict K V) → e.beq k j ≡ false → get j (put k v d) ≡ get j d
  get-put_ne k j v d h = ground (arith, get-put k j v d)

  -- `put` keeps a property of all entries that holds of the new one, whatever key it stands under.
  pub All-put {μ} :
      (P : K × V → Type μ) (k : K) (v : V) (d : Dict K V)
      → ((j : K) → e.beq j k ≡ true → P (j, v))
      → All P d
      → All P (put k v d)
  unfolding put
  All-put P k v [] hk h = (hk k ((e.beq_iff k k).1 refl), tt)
  All-put P k v ((j, w) ∷ d) hk h = elim (Bool-cases (e.beq j k)) [
    | inl same ↦ rw same (hk j same, h.1)
    | inr other ↦ rw other (h.0, All-put P k v d hk h.1)
  ]

  pub put-HasUniqueKeys :
      (k : K) (v : V) (d : Dict K V) → HasUniqueKeys d → HasUniqueKeys (put k v d)
  unfolding put
  put-HasUniqueKeys k v [] h = (tt, tt)
  put-HasUniqueKeys k v ((j, w) ∷ d) h = elim (Bool-cases (e.beq j k)) [
    | inl same ↦ rw same h
    | inr other ↦ rw other (
      All-put _ k v d (λ i eq. ground (arith, (e.beq_iff i k).0, (e.beq_iff i k).1)) h.0,
      put-HasUniqueKeys k v d h.1,
    )
  ]
