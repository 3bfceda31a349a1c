-- ===== src/Prelude/Queues.antt =====
-- `defaultdict(deque)`: a queue for every key, and the values of all queues.
use mathlib.Core.Path.{◌≡◌, refl}
use mathlib.Core.Option.{none, some}
use mathlib.Core.Logic.{inl, inr}
use mathlib.Core.List.{List, [], ◌∷◌, ◌++◌, map}
use Prim.Native.Nat.{◌+◌}
use native.Mathlib.Omega.{arith}
use master_all_strings.Prelude.Tests.{if◌then◌else◌, Bool-cases}
use master_all_strings.Prelude.Sets.{Eq}
use master_all_strings.Prelude.Text.{Str}
use master_all_strings.Prelude.Count.{count}
use master_all_strings.Prelude.Dict.{Dict, get, put}

module _ {ℓ κ} {K : Type ℓ} {A : Type κ} ⦃e : Eq K⦄ where
  -- `queues[key]`
  unfoldable pub queue_of : K → Dict K (List A) → List A
  queue_of k d = elim (get k d) [ none ↦ [] | some waiting ↦ waiting ]

  -- `(x for queue in queues.values() for x in queue)`
  unfoldable pub all_waiting : Dict K (List A) → List A
  all_waiting [] = []
  all_waiting ((k, waiting) ∷ d) = waiting ++ all_waiting d

module _ {κ} {A : Type κ} (f : A → Str) (a : Str) where
  pub count-map-append :
      (xs ys : List A) → count a (map f (xs ++ ys)) ≡ count a (map f xs) + count a (map f ys)
  unfolding count
  count-map-append [] ys = omega arith
  count-map-append (x ∷ xs) ys = omega (arith, count-map-append xs ys)

module _ {ℓ κ} {K : Type ℓ} {A : Type κ} ⦃e : Eq K⦄ where
  queue_of-cons :
      (j k : K) (w : List A) (d : Dict K (List A))
      → queue_of k ((j, w) ∷ d) ≡ (if e.beq j k then w else queue_of k d)
  unfolding queue_of get
  queue_of-cons j k w d = ground arith

  queue_of-nil : (k : K) → queue_of {A = A} k [] ≡ []
  unfolding queue_of get
  queue_of-nil k = refl

module _ {ℓ κ} {K : Type ℓ} {A : Type κ} ⦃e : Eq K⦄ (f : A → Str) (a : Str) where
  -- Replacing the queue of a key exchanges its members for those of the new queue.
  pub count-all_waiting-put :
      (k : K) (q : List A) (d : Dict K (List A))
      → count a (map f (all_waiting (put k q d))) + count a (map f (queue_of k d))
        ≡ count a (map f (all_waiting d)) + count a (map f q)
  unfolding all_waiting put count
  count-all_waiting-put k q [] =
      rw (queue_of-nil {A = A} k) (omega (arith, count-map-append f a q []))
  count-all_waiting-put k q ((j, w) ∷ d) = elim (Bool-cases (e.beq j k)) [
    | inl same ↦
        rw (queue_of-cons j k w d, same)
          (omega
            (arith, count-map-append f a q (all_waiting d), count-map-append f a w (all_waiting d)))
    | inr other ↦
        rw (queue_of-cons j k w d, other)
          (omega (
            arith,
            count-map-append f a w (all_waiting (put k q d)),
            count-map-append f a w (all_waiting d),
            count-all_waiting-put k q d,
          ))
  ]
