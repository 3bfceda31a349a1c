-- ===== src/Prelude/Json.antt =====
-- `json.dumps(value, separators=(",", ":"), ensure_ascii=True)` of lists, texts, numbers and `None`:
-- the text determines the value.
pub mod Escapes
use Prim.Native.Nat.{ℕ, suc, ◌≤◌, ◌<◌}
use mathlib.Core.Path.{◌≡◌, refl, sym, ap, ◌∙◌}
use mathlib.Core.Logic.{inl, inr, ◌⊎◌}
use mathlib.Core.Bool.{Bool, true, false}
use mathlib.Core.Option.{Option, none, some}
use mathlib.Core.List.{List, [], ◌∷◌, ◌++◌, append_assoc, append-nil}
use native.Mathlib.Omega.{arith}
use master_all_strings.Prelude.Lists.{All}
use master_all_strings.Prelude.Text.{Str, codes}
use master_all_strings.Prelude.Decimal.{
  digits, digits-prefix, digits-Starts, IsDigit, Starts, IsStop,
}
use master_all_strings.Prelude.Json.Escapes.{escape, escape-prefix}
pub use master_all_strings.Prelude.Json.Escapes.{IsScalar}

mutual
  pub data Json : Type 0 where
    null : Json
    number : ℕ → Json
    text : Str → Json
    array : Items → Json

  pub data Items : Type 0 where
    end : Items
    item : Json → Items → Items

unfoldable mutual
  -- What follows is appended by the callee: `dumps v r` is the text of `v` and then `r`.
  pub dumps_before : Json → Str → Str
  dumps_before null r = codes "null" ++ r
  dumps_before (number n) r = digits n ++ r
  dumps_before (text s) r = 34 ∷ escape s ++ 34 ∷ r
  dumps_before (array vs) r = 91 ∷ first_before vs r

  -- The items after an opening bracket.
  pub first_before : Items → Str → Str
  first_before end r = 93 ∷ r
  first_before (item v vs) r = dumps_before v (rest_before vs r)

  -- The items after an item.
  pub rest_before : Items → Str → Str
  rest_before end r = 93 ∷ r
  rest_before (item v vs) r = 44 ∷ dumps_before v (rest_before vs r)

unfoldable pub dumps : Json → Str
unfolding dumps_before
dumps v = dumps_before v []

-- All texts inside consist of characters that are no surrogates.
abbrev mutual
  pub AllScalar : Json → Type 0
  AllScalar null = Unit
  AllScalar (number n) = Unit
  AllScalar (text s) = All IsScalar s
  AllScalar (array vs) = AllScalarItems vs

  pub AllScalarItems : Items → Type 0
  AllScalarItems end = Unit
  AllScalarItems (item v vs) = AllScalar v × AllScalarItems vs

rest_before-Starts : (vs : Items) (r : Str) → Starts IsStop (rest_before vs r)
unfolding rest_before
rest_before-Starts end r = inr refl
rest_before-Starts (item v vs) r = inl refl

-- A number's first character is a digit.
digits-opens : (n : ℕ) (r s : Str) (c : ℕ) → digits n ++ r ≡ c ∷ s → IsDigit c
digits-opens n r s c e = opened (digits n) r s c (digits-Starts n) e
  where
    opened : (d r s : Str) (c : ℕ) → Starts IsDigit d → d ++ r ≡ c ∷ s → IsDigit c
    opened [] r s c h e = absurd h
    opened (x ∷ d) r s c h e = ground (arith, h, e)

-- No value begins with a closing bracket.
dumps_before-opens : (v : Json) (r s : Str) → dumps_before v r ≡ 93 ∷ s → ⊥
unfolding dumps_before
dumps_before-opens null r s e = ground (arith, e)
dumps_before-opens (number n) r s e = omega (arith, digits-opens n r s 93 e)
dumps_before-opens (text t) r s e = ground (arith, e)
dumps_before-opens (array vs) r s e = ground (arith, e)

mutual
  unfolding dumps_before

  prefix :
      (v w : Json) (r s : Str)
      → AllScalar v
      → AllScalar w
      → Starts IsStop r
      → Starts IsStop s
      → dumps_before v r ≡ dumps_before w s
      → (v ≡ w) × (r ≡ s)
  prefix null null r s hv hw hr hs e = (refl, cc)
  prefix null (number n) r s hv hw hr hs e = absurd (omega (arith, digits-opens n s _ 110 (sym e)))
  prefix null (text t) r s hv hw hr hs e = absurd (ground (arith, e))
  prefix null (array ws) r s hv hw hr hs e = absurd (ground (arith, e))
  prefix (number m) null r s hv hw hr hs e = absurd (omega (arith, digits-opens m r _ 110 e))
  prefix (number m) (number n) r s hv hw hr hs e =
      let (same, rest) = digits-prefix m n r s hr hs e in (ap number same, rest)
  prefix (number m) (text t) r s hv hw hr hs e = absurd (omega (arith, digits-opens m r _ 34 e))
  prefix (number m) (array ws) r s hv hw hr hs e = absurd (omega (arith, digits-opens m r _ 91 e))
  prefix (text t) null r s hv hw hr hs e = absurd (ground (arith, e))
  prefix (text t) (number n) r s hv hw hr hs e =
      absurd (omega (arith, digits-opens n s _ 34 (sym e)))
  prefix (text t) (text u) r s hv hw hr hs e =
      let (same, rest) = escape-prefix t u r s hv hw (cc) in (ap text same, rest)
  prefix (text t) (array ws) r s hv hw hr hs e = absurd (ground (arith, e))
  prefix (array vs) null r s hv hw hr hs e = absurd (ground (arith, e))
  prefix (array vs) (number n) r s hv hw hr hs e =
      absurd (omega (arith, digits-opens n s _ 91 (sym e)))
  prefix (array vs) (text t) r s hv hw hr hs e = absurd (ground (arith, e))
  prefix (array vs) (array ws) r s hv hw hr hs e =
      let (same, rest) = first-prefix vs ws r s hv hw (cc) in (ap array same, rest)

  first-prefix :
      (vs ws : Items) (r s : Str)
      → AllScalarItems vs
      → AllScalarItems ws
      → first_before vs r ≡ first_before ws s
      → (vs ≡ ws) × (r ≡ s)
  first-prefix end end r s hv hw e = (refl, cc)
  first-prefix end (item w ws) r s hv hw e = absurd (dumps_before-opens w _ r (sym e))
  first-prefix (item v vs) end r s hv hw e = absurd (dumps_before-opens v _ s e)
  first-prefix (item v vs) (item w ws) r s hv hw e =
      let (head, tail) =
        prefix v w (rest_before vs r) (rest_before ws s) hv.0 hw.0 (rest_before-Starts vs r)
          (rest_before-Starts ws s) e in
      let (rest, after) = rest-prefix vs ws r s hv.1 hw.1 tail in (cc, after)

  rest-prefix :
      (vs ws : Items) (r s : Str)
      → AllScalarItems vs
      → AllScalarItems ws
      → rest_before vs r ≡ rest_before ws s
      → (vs ≡ ws) × (r ≡ s)
  rest-prefix end end r s hv hw e = (refl, cc)
  rest-prefix end (item w ws) r s hv hw e = absurd (ground (arith, e))
  rest-prefix (item v vs) end r s hv hw e = absurd (ground (arith, e))
  rest-prefix (item v vs) (item w ws) r s hv hw e =
      let (head, tail) =
        prefix v w (rest_before vs r) (rest_before ws s) hv.0 hw.0 (rest_before-Starts vs r)
          (rest_before-Starts ws s) (cc) in
      let (rest, after) = rest-prefix vs ws r s hv.1 hw.1 tail in (cc, after)

-- Lists of values with one text are the same.
pub dumps-injective :
    (vs ws : Items)
    → AllScalarItems vs
    → AllScalarItems ws
    → dumps (array vs) ≡ dumps (array ws)
    → vs ≡ ws
unfolding dumps dumps_before
dumps-injective vs ws hv hw e = (first-prefix vs ws [] [] hv hw (cc)).0

heads :
    (v w : Json) (vs ws : Items) (r s : Str)
    → AllScalar v
    → AllScalar w
    → dumps_before v (rest_before vs r) ≡ dumps_before w (rest_before ws s)
    → (v ≡ w) × (rest_before vs r ≡ rest_before ws s)
heads v w vs ws r s hv hw e =
    prefix v w _ _ hv hw (rest_before-Starts vs r) (rest_before-Starts ws s) e

-- Lists that begin with the same item and have one text agree on the next two, whatever follows.
pub dumps-heads :
    (a b b' c c' : Json) (vs ws : Items)
    → AllScalar a
    → AllScalar b
    → AllScalar b'
    → AllScalar c
    → AllScalar c'
    → dumps (array (item a (item b (item c vs)))) ≡ dumps (array (item a (item b' (item c' ws))))
    → (b ≡ b') × (c ≡ c')
unfolding dumps dumps_before
dumps-heads a b b' c c' vs ws ha hb hb' hc hc' e =
    let (_, e1) = heads a a (item b (item c vs)) (item b' (item c' ws)) [] [] ha ha (cc) in
    let (same, e2) = heads b b' (item c vs) (item c' ws) [] [] hb hb' (cc) in
    let (next, _) = heads c c' vs ws [] [] hc hc' (cc) in (same, next)
