-- ===== src/Prelude/Order.antt =====
-- Total orders given by a Boolean test, as the key functions of `sorted` induce them.
use mathlib.Core.Path.{◌≡◌}
use mathlib.Core.Bool.{Bool, true, false, ◌&&◌, ◌||◌}
use mathlib.Core.List.{[], ◌∷◌}
use Prim.Native.Nat.{ℕ}
use native.Mathlib.Omega.{arith}
use master_all_strings.Prelude.Tests.{ltb, leb, nat_eq, if◌then◌else◌}
use master_all_strings.Prelude.Text.{Str}

pub record Order {ℓ} (A : Type ℓ) : Type ℓ where
  pub le? : A → A → Bool
  pub total : (a b : A) → (le? a b || le? b a) ≡ true
  pub trans : (a b c : A) → le? a b ≡ true → le? b c ≡ true → le? a c ≡ true

-- Neither of the two comes strictly first.
abbrev pub tied {ℓ} : {A : Type ℓ} → Order A → A → A → Bool
tied o a b = o.le? a b && o.le? b a

pub nat_total : (a b : ℕ) → (leb a b || leb b a) ≡ true
nat_total a b = ground arith

pub nat_trans : (a b c : ℕ) → leb a b ≡ true → leb b c ≡ true → leb a c ≡ true
nat_trans a b c p q = ground arith

abbrev pub by_number : Order ℕ
by_number = record { le? = leb; total = nat_total; trans = nat_trans }

unfoldable pub str_leb : Str → Str → Bool
str_leb [] t = true
str_leb (a ∷ s) [] = false
str_leb (a ∷ s) (b ∷ t) = if ltb a b then true else nat_eq a b && str_leb s t

pub str_total : (s t : Str) → (str_leb s t || str_leb t s) ≡ true
unfolding str_leb
str_total [] [] = ground arith
str_total [] (b ∷ t) = ground arith
str_total (a ∷ s) [] = ground arith
str_total (a ∷ s) (b ∷ t) = ground (arith, str_total s t)

pub str_trans : (s t u : Str) → str_leb s t ≡ true → str_leb t u ≡ true → str_leb s u ≡ true
unfolding str_leb
str_trans [] t u p q = ground arith
str_trans (a ∷ s) [] u p q = ground arith
str_trans (a ∷ s) (b ∷ t) [] p q = ground arith
str_trans (a ∷ s) (b ∷ t) (c ∷ u) p q = ground (arith, str_trans s t u)

pub str_leb_antisymm : (s t : Str) → str_leb s t ≡ true → str_leb t s ≡ true → s ≡ t
unfolding str_leb
str_leb_antisymm [] [] p q = ground arith
str_leb_antisymm [] (b ∷ t) p q = ground arith
str_leb_antisymm (a ∷ s) [] p q = ground arith
str_leb_antisymm (a ∷ s) (b ∷ t) p q = ground (arith, str_leb_antisymm s t)

abbrev pub by_text : Order Str
by_text = record { le? = str_leb; total = str_total; trans = str_trans }

-- `key=f`
module _ {ℓ κ} {A : Type ℓ} {B : Type κ} where
  abbrev pub on : (A → B) → Order B → Order A
  on f o = record {
    le? = λ a b. o.le? (f a) (f b);
    total = λ a b. o.total (f a) (f b);
    trans = λ a b c. o.trans (f a) (f b) (f c);
  }

-- A tuple as the key: the first component decides, and the second where the first is tied.
module _ {ℓ} {A : Type ℓ} (o p : Order A) where
  abbrev pub then_le? : A → A → Bool
  then_le? a b = if o.le? b a then o.le? a b && p.le? a b else o.le? a b

  pub then_total : (a b : A) → (then_le? a b || then_le? b a) ≡ true
  then_total a b = ground (arith, o.total a b, p.total a b)

  pub then_trans : (a b c : A) → then_le? a b ≡ true → then_le? b c ≡ true → then_le? a c ≡ true
  then_trans a b c h k = ground (arith, o.trans a b c, o.trans c a b, o.trans b c a, p.trans a b c)

  abbrev pub then_by : Order A
  then_by = record { le? = then_le?; total = then_total; trans = then_trans }

  pub tied-then_by : (a b : A) → tied then_by a b ≡ (tied o a b && tied p a b)
  tied-then_by a b = ground arith
