-- ===== src/Education/Encoding.antt =====
-- education/serialization.py: `to_dict` of a contract, and `json.dumps` of it with sorted keys.
use master_all_strings.Prelude.{ℕ, List, [], ◌∷◌, ◌++◌, Option, none, some}
use master_all_strings.Prelude.Float.{Float}
use master_all_strings.Prelude.Text.{Str, codes}
use master_all_strings.Prelude.Decimal.{digits}
use master_all_strings.Prelude.Json.Escapes.{escape}
use master_all_strings.Score.Digest.{Hashing}

-- A dict is its fields; the definitions below give the fields of a contract in the order of their
-- names, in which they are printed.
mutual
  pub data Value : Type 0 where
    null : Value
    number : ℕ → Value
    float : Float → Value
    text : Str → Value
    array : Values → Value
    dict : Fields → Value

  pub data Values : Type 0 where
    end : Values
    item : Value → Values → Values

  pub data Fields : Type 0 where
    none_left : Fields
    field : Str → Value → Fields → Fields

unfoldable mutual
  pub print : ⦃h : Hashing⦄ → Value → Str
  print null = codes "null"
  print (number n) = digits n
  print ⦃h⦄ (float x) = h.repr_float x
  print (text s) = 34 ∷ escape s ++ 34 ∷ []
  print (array end) = codes "[]"
  print (array (item v vs)) = 91 ∷ print v ++ print_items vs
  print (dict none_left) = codes "{}"
  print (dict (field name v fs)) = 123 ∷ 34 ∷ escape name ++ 34 ∷ 58 ∷ print v ++ print_fields fs

  pub print_items : ⦃h : Hashing⦄ → Values → Str
  print_items end = 93 ∷ []
  print_items (item v vs) = 44 ∷ print v ++ print_items vs

  pub print_fields : ⦃h : Hashing⦄ → Fields → Str
  print_fields none_left = 125 ∷ []
  print_fields (field name v fs) = 44 ∷ 34 ∷ escape name ++ 34 ∷ 58 ∷ print v ++ print_fields fs

unfoldable pub values {ℓ} : {A : Type ℓ} → (A → Value) → List A → Values
values encode [] = end
values encode (x ∷ xs) = item (encode x) (values encode xs)

abbrev pub optional {ℓ} : {A : Type ℓ} → (A → Value) → Option A → Value
optional encode none = null
optional encode (some x) = encode x
