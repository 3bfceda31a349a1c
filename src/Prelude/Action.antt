-- ===== src/Prelude/Action.antt =====
-- Methods that read and write an object's state and may raise: what was written before the error
-- stays written.
use mathlib.Core.Path.{◌≡◌, refl}
use mathlib.Core.Bool.{Bool, true, false}
use mathlib.Core.Option.{Option, none, some}
use master_all_strings.Prelude.Tests.{if◌then◌else◌}
use master_all_strings.Prelude.Results.{Result, ok, err}

abbrev pub Action {ℓ κ μ} : Type ℓ → Type κ → Type μ → Type (ℓ ⊔ κ ⊔ μ)
Action S E A = S → Result E A × S

module _ {ℓ κ} {S : Type ℓ} {E : Type κ} where
  infixl 5 ◌>>=◌ ◌>>◌
  abbrev pub after {μ ν} :
      {A : Type μ} {B : Type ν} → Result E A → S → (A → Action S E B) → Result E B × S
  after (ok a) s f = f a s
  after (err e) s f = (err e, s)

  abbrev pub ◌>>=◌ {μ ν} :
      {A : Type μ} {B : Type ν} → Action S E A → (A → Action S E B) → Action S E B
  (m >>= f) s = after (m s).0 (m s).1 f

  abbrev pub ◌>>◌ {ν} : {B : Type ν} → Action S E (Unit {0}) → Action S E B → Action S E B
  m >> k = m >>= λ _. k

  abbrev pub return {μ} : {A : Type μ} → A → Action S E A
  return a s = (ok a, s)

  abbrev pub raise {μ} : {A : Type μ} → E → Action S E A
  raise e s = (err e, s)

  abbrev pub self : Action S E S
  self s = (ok s, s)

  abbrev pub modify : (S → S) → Action S E (Unit {0})
  modify f s = (ok tt, f s)

  abbrev pub lift {μ} : {A : Type μ} → Result E A → Action S E A
  lift r s = (r, s)

  -- A property of the state that a method keeps, whether it returns or raises.
  abbrev pub Keeps {μ ν} : {A : Type μ} → (S → Type ν) → Action S E A → Type (ℓ ⊔ ν)
  Keeps I m = (s : S) → I s → I (m s).1

  Keeps-after {μ ν ρ} :
      {A : Type μ} {B : Type ν} (I : S → Type ρ) (f : A → Action S E B)
      → ((a : A) → Keeps I (f a))
      → (r : Result E A) (t : S) → I t
      → I (after r t f).1
  Keeps-after I f hf (ok a) t i = hf a t i
  Keeps-after I f hf (err e) t i = i

  pub Keeps->>= {μ ν ρ} :
      {A : Type μ} {B : Type ν} (I : S → Type ρ) (m : Action S E A) (f : A → Action S E B)
      → Keeps I m
      → ((a : A) → Keeps I (f a))
      → Keeps I (m >>= f)
  Keeps->>= I m f hm hf s h = Keeps-after I f hf (m s).0 (m s).1 (hm s h)

  -- From a property that the first part keeps to one that the second part reaches.
  pub after-leads {μ ν ρ σ} :
      {A : Type μ} {B : Type ν} (I : S → Type ρ) (J : S → Type σ) (f : A → Action S E B)
      → ((s : S) → I s → J s)
      → ((a : A) (s : S) → I s → J (f a s).1)
      → (r : Result E A) (t : S) → I t
      → J (after r t f).1
  after-leads I J f he hf (ok a) t i = hf a t i
  after-leads I J f he hf (err e) t i = he t i

  pub leads->>= {μ ν ρ σ} :
      {A : Type μ} {B : Type ν} (I : S → Type ρ) (J : S → Type σ) (m : Action S E A)
      (f : A → Action S E B)
      → Keeps I m
      → ((s : S) → I s → J s)
      → ((a : A) (s : S) → I s → J (f a s).1)
      → (s : S) → I s
      → J ((m >>= f) s).1
  leads->>= I J m f hm he hf s h = after-leads I J f he hf (m s).0 (m s).1 (hm s h)

  pub leads-lift {μ ν σ} :
      {A : Type μ} {B : Type ν} (J : S → Type σ) (r : Result E A) (f : A → Action S E B) (s : S)
      → J s
      → ((a : A) → r ≡ ok a → J (f a s).1)
      → J ((lift r >>= f) s).1
  leads-lift J (ok a) f s j h = h a refl
  leads-lift J (err e) f s j h = j

  pub Keeps-option {μ ν ρ} :
      {A : Type μ} {B : Type ν} (I : S → Type ρ) (o : Option B) (m : Action S E A)
      (f : B → Action S E A)
      → Keeps I m
      → ((b : B) → Keeps I (f b))
      → (s : S) → I s
      → I ((elim o as (λ _. Action S E A) [ none ↦ m | some b ↦ f b ]) s).1
  Keeps-option I none m f hm hf s h = hm s h
  Keeps-option I (some b) m f hm hf s h = hf b s h

  pub Keeps-if {μ ρ} :
      {A : Type μ} (I : S → Type ρ) (b : Bool) (m n : Action S E A)
      → Keeps I m
      → Keeps I n
      → Keeps I (if b then m else n)
  Keeps-if I true m n hm hn = hm
  Keeps-if I false m n hm hn = hn

  pub Keeps-bool {μ ρ} :
      {A : Type μ} (I : S → Type ρ) (b : Bool) (m n : Action S E A)
      → Keeps I m
      → Keeps I n
      → (s : S) → I s
      → I ((elim b as (λ _. Action S E A) [ true ↦ m | false ↦ n ]) s).1
  Keeps-bool I true m n hm hn = hm
  Keeps-bool I false m n hm hn = hn

  -- What holds of the result and the state when a method returns.
  abbrev pub Returns {μ ρ} : {A : Type μ} → (A → S → Type ρ) → Action S E A → S → Type (κ ⊔ μ ⊔ ρ)
  Returns J m s = (a : _) → (m s).0 ≡ ok a → J a (m s).1

  Returns-after {μ ν ρ} :
      {A : Type μ} {B : Type ν} (J : B → S → Type ρ) (f : A → Action S E B) (r : Result E A) (t : S)
      → ((a : A) → r ≡ ok a → Returns J (f a) t)
      → (b : B) → (after r t f).0 ≡ ok b
      → J b (after r t f).1
  Returns-after J f (ok a) t h b e = h a refl b e
  Returns-after J f (err x) t h b e = cc

  pub Returns->>= {μ ν ρ} :
      {A : Type μ} {B : Type ν} (J : B → S → Type ρ) (m : Action S E A) (f : A → Action S E B)
      (s : S)
      → ((a : A) → (m s).0 ≡ ok a → Returns J (f a) (m s).1)
      → Returns J (m >>= f) s
  Returns->>= J m f s h = Returns-after J f (m s).0 (m s).1 h

  -- A property of what `m` and then `f` answer, and of the state that they leave.
  pub after-Post {μ ν ρ} :
      {A : Type μ} {B : Type ν} (P : Result E B → S → Type ρ) (r : Result E A) (t : S)
      (f : A → Action S E B)
      → ((a : A) → r ≡ ok a → P (f a t).0 (f a t).1)
      → ((e : E) → r ≡ err e → P (err e) t)
      → P (after r t f).0 (after r t f).1
  after-Post P (ok a) t f hf he = hf a refl
  after-Post P (err e) t f hf he = he e refl
