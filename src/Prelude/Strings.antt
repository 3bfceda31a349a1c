-- ===== src/Prelude/Strings.antt =====
-- Methods of Python's `str` that the validators call, and the parser of timestamps as a parameter.
use mathlib.Core.Bool.{Bool, true, false, ◌&&◌, not}
use mathlib.Core.List.{[], ◌∷◌, ◌++◌}
use master_all_strings.Prelude.Tests.{nat_eq}
use master_all_strings.Prelude.Text.{Str, codes, is_space}

-- `datetime.fromisoformat` accepts the text.
pub record Iso8601 : Type 0 where
  pub accepts : Str → Bool

-- The last character is not white space.
unfoldable pub ends_plainly : Str → Bool
ends_plainly [] = true
ends_plainly (c ∷ []) = not (is_space c)
ends_plainly (c ∷ d ∷ s) = ends_plainly (d ∷ s)

-- `value == value.strip()`
unfoldable pub is_stripped : Str → Bool
unfolding ends_plainly
is_stripped [] = true
is_stripped (c ∷ s) = not (is_space c) && ends_plainly (c ∷ s)

-- `value.endswith("Z")`
unfoldable pub ends_in_z : Str → Bool
ends_in_z [] = false
ends_in_z (c ∷ []) = nat_eq c 90
ends_in_z (c ∷ d ∷ s) = ends_in_z (d ∷ s)

-- `value.replace("Z", "+00:00")`
unfoldable pub replace_z : Str → Str
replace_z [] = []
replace_z (c ∷ s) = elim (nat_eq c 90) [
  | true ↦ codes "+00:00" ++ replace_z s
  | false ↦ c ∷ replace_z s
]
