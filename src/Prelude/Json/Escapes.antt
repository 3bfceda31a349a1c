-- ===== src/Prelude/Json/Escapes.antt =====
-- The escapes of `json.dumps` with `ensure_ascii`, and reading one back.
use Prim.Native.Nat.{ℕ, ◌+◌, ◌-◌, ◌*◌, ◌/◌, ◌%◌, ◌≤◌, ◌<◌}
use mathlib.Core.Path.{◌≡◌, refl, sym, ap, ◌∙◌}
use mathlib.Core.Logic.{◌⊎◌, ◌≢◌}
use mathlib.Core.Bool.{false, ◌&&◌}
use mathlib.Core.Option.{Option, none, some}
use mathlib.Core.List.{[], ◌∷◌, ◌++◌, append_assoc}
use native.Mathlib.Omega.{arith}
use master_all_strings.Prelude.Tests.{ltb, leb, nat_eq, if◌then◌else◌}
use master_all_strings.Prelude.Lists.{All}
use master_all_strings.Prelude.Text.{Str}

hex_digit : ℕ → ℕ
hex_digit n = if ltb n 10 then 48 + n else 87 + n

-- `"\\u{0:04x}".format(n)`
unfoldable pub unit : ℕ → Str
unfolding hex_digit
unit n =
    92
    ∷ 117
    ∷ hex_digit (n / 4096 % 16)
    ∷ hex_digit (n / 256 % 16)
    ∷ hex_digit (n / 16 % 16)
    ∷ hex_digit (n % 16)
    ∷ []

-- A character beyond the sixteen bits becomes a pair of surrogates.
unfoldable pub escape_char : ℕ → Str
escape_char c =
    if nat_eq c 34
    then 92 ∷ 34 ∷ []
    else if nat_eq c 92
    then 92 ∷ 92 ∷ []
    else if leb 32 c && leb c 126
    then c ∷ []
    else if nat_eq c 10
    then 92 ∷ 110 ∷ []
    else if nat_eq c 13
    then 92 ∷ 114 ∷ []
    else if nat_eq c 9
    then 92 ∷ 116 ∷ []
    else if nat_eq c 12
    then 92 ∷ 102 ∷ []
    else if nat_eq c 8
    then 92 ∷ 98 ∷ []
    else if ltb c 65536
    then unit c
    else unit (55296 + (c - 65536) / 1024) ++ unit (56320 + (c - 65536) % 1024)

unfoldable pub escape : Str → Str
escape [] = []
escape (c ∷ s) = escape_char c ++ escape s

-- A code point that is no surrogate.
abbrev pub IsScalar : ℕ → Type 0
IsScalar c = (c < 55296) ⊎ ((57344 ≤ c) × (c < 1_114_112))

unhex : ℕ → ℕ
unhex h = if leb 97 h then h - 87 else h - 48

unhex4 : ℕ → ℕ → ℕ → ℕ → ℕ
unhex4 a b c d = unhex a * 4096 + unhex b * 256 + unhex c * 16 + unhex d

unhex-hex_digit : (n : ℕ) → n < 16 → unhex (hex_digit n) ≡ n
unfolding unhex hex_digit
unhex-hex_digit n h = ground arith

unhex4-hex_digit :
    (n : ℕ)
    → n < 65536
    → unhex4
        (hex_digit (n / 4096 % 16))
        (hex_digit (n / 256 % 16))
        (hex_digit (n / 16 % 16))
        (hex_digit (n % 16))
      ≡ n
unfolding unhex4
unhex4-hex_digit n h = omega (
  arith,
  unhex-hex_digit (n / 4096 % 16) (omega arith),
  unhex-hex_digit (n / 256 % 16) (omega arith),
  unhex-hex_digit (n / 16 % 16) (omega arith),
  unhex-hex_digit (n % 16) (omega arith),
)

unescaped : ℕ → ℕ
unescaped e =
    if nat_eq e 110
    then 10
    else if nat_eq e 114
    then 13
    else if nat_eq e 116
    then 9
    else if nat_eq e 102
    then 12
    else if nat_eq e 98
    then 8
    else e

-- The second half of a pair whose first half is `u`.
read_low : ℕ → Str → Option (ℕ × Str)
read_low u (x ∷ y ∷ a ∷ b ∷ c ∷ d ∷ s) =
    some (65536 + (u - 55296) * 1024 + (unhex4 a b c d - 56320), s)
read_low u s = none

read_unit : Str → Option (ℕ × Str)
read_unit (a ∷ b ∷ c ∷ d ∷ s) =
    if leb 55296 (unhex4 a b c d) && ltb (unhex4 a b c d) 56320
    then read_low (unhex4 a b c d) s
    else some (unhex4 a b c d, s)
read_unit s = none

read_escape : Str → Option (ℕ × Str)
read_escape [] = none
read_escape (e ∷ s) = if nat_eq e 117 then read_unit s else some (unescaped e, s)

-- The first character that an escaped text stands for, and the rest.
read_char : Str → Option (ℕ × Str)
read_char [] = none
read_char (c ∷ s) = if nat_eq c 92 then read_escape s else some (c, s)

read_char-unit :
    (n : ℕ) (r : Str)
    → n < 65536
    → (leb 55296 n && ltb n 56320) ≡ false
    → read_char (unit n ++ r) ≡ some (n, r)
unfolding read_char read_escape read_unit unit
read_char-unit n r h plain = rw (unhex4-hex_digit n h, plain) refl

read_char-pair :
    (m n : ℕ) (r : Str)
    → m < 1024
    → n < 1024
    → read_char (unit (55296 + m) ++ unit (56320 + n) ++ r) ≡ some (65536 + m * 1024 + n, r)
unfolding read_char read_escape read_unit read_low unit
read_char-pair m n r hm hn =
    ground (
      arith,
      unhex4-hex_digit (55296 + m) (omega arith),
      unhex4-hex_digit (56320 + n) (omega arith),
    )

read_char-escape_char :
    (c : ℕ) (r : Str) → IsScalar c → read_char (escape_char c ++ r) ≡ some (c, r)
unfolding escape_char read_char read_escape unescaped
read_char-escape_char c r h = ground (
  arith,
  read_char-unit c r,
  read_char-pair ((c - 65536) / 1024) ((c - 65536) % 1024) r (omega arith) (omega arith),
  append_assoc (unit (55296 + (c - 65536) / 1024)) (unit (56320 + (c - 65536) % 1024)) r,
)

pub escape_char-prefix :
    (c d : ℕ) (r s : Str)
    → IsScalar c
    → IsScalar d
    → escape_char c ++ r ≡ escape_char d ++ s
    → (c ≡ d) × (r ≡ s)
escape_char-prefix c d r s hc hd e =
    let both = sym (read_char-escape_char c r hc) ∙ ap read_char e ∙ read_char-escape_char d s hd in
    (cc, cc)

-- No escape begins with a quotation mark.
escape_char-opens : (c : ℕ) (r s : Str) → escape_char c ++ r ≢ 34 ∷ s
unfolding escape_char unit
escape_char-opens c r s e = ground (arith, e)

-- A text that its quotation mark ends is read back, with what follows it.
pub escape-prefix :
    (s t q r : Str)
    → All IsScalar s
    → All IsScalar t
    → escape s ++ 34 ∷ q ≡ escape t ++ 34 ∷ r
    → (s ≡ t) × (q ≡ r)
unfolding escape
escape-prefix [] [] q r hs ht e = (refl, cc)
escape-prefix [] (d ∷ t) q r hs ht e =
    absurd (escape_char-opens d _ q (sym (e ∙ append_assoc (escape_char d) (escape t) (34 ∷ r))))
escape-prefix (c ∷ s) [] q r hs ht e =
    absurd (escape_char-opens c _ r (sym (append_assoc (escape_char c) (escape s) (34 ∷ q)) ∙ e))
escape-prefix (c ∷ s) (d ∷ t) q r hs ht e =
    let (head, tail) = escape_char-prefix c d _ _ hs.0 ht.0 (
      sym (append_assoc (escape_char c) (escape s) (34 ∷ q))
      ∙ e
      ∙ append_assoc (escape_char d) (escape t) (34 ∷ r)) in
    let (rest, after) = escape-prefix s t q r hs.1 ht.1 tail in (cc, after)
