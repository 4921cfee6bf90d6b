-- ===== src/Text/Defs.antt =====
-- The byte strings, and what the program uses of package strings.
use Prim.Native.Char.{code}
use Prim.Native.String.{String}
use mathlib.Core.List.{reverse}
use hapudding.Base.{
  ℕ, ◌+◌, ◌-◌, List, [], ◌∷◌, ◌++◌, map, Bool, true, false, ◌&&◌, ◌||◌, Option, none, some, ltb,
  leb, ◌==◌, if◌then◌else◌,
}

abbrev pub Bytes : Type 0
Bytes = List ℕ

-- The code points of a literal; its bytes, when the text is ASCII.
abbrev pub codes : String → Bytes
codes String.[] = []
codes (String.◌∷◌ c s) = code c ∷ codes s

abbrev pub is_empty : Bytes → Bool
is_empty [] = true
is_empty (c ∷ s) = false

-- `a == b` on strings.
unfoldable pub str_eq : Bytes → Bytes → Bool
str_eq [] [] = true
str_eq [] (d ∷ t) = false
str_eq (c ∷ s) [] = false
str_eq (c ∷ s) (d ∷ t) = (c == d) && str_eq s t

-- `a < b` on strings: the order of the bytes.
unfoldable pub str_lt : Bytes → Bytes → Bool
str_lt [] [] = false
str_lt [] (d ∷ t) = true
str_lt (c ∷ s) [] = false
str_lt (c ∷ s) (d ∷ t) = ltb c d || (c == d && str_lt s t)

unfoldable pub lower_byte : ℕ → ℕ
lower_byte c = if leb b'A' c && leb c b'Z' then c + 32 else c

unfoldable pub upper_byte : ℕ → ℕ
upper_byte c = if leb b'a' c && leb c b'z' then c - 32 else c

-- strings.ToLower and strings.ToUpper
unfoldable pub to_lower : Bytes → Bytes
unfolding lower_byte
to_lower = map lower_byte

unfoldable pub to_upper : Bytes → Bytes
unfolding upper_byte
to_upper = map upper_byte

-- strings.EqualFold
unfoldable pub equal_fold : Bytes → Bytes → Bool
unfolding to_lower str_eq
equal_fold s t = str_eq (to_lower s) (to_lower t)

-- strings.HasPrefix(s, p) and strings.HasSuffix(s, p)
unfoldable pub has_prefix : Bytes → Bytes → Bool
has_prefix s [] = true
has_prefix [] (d ∷ p) = false
has_prefix (c ∷ s) (d ∷ p) = (c == d) && has_prefix s p

unfoldable pub has_suffix : Bytes → Bytes → Bool
unfolding has_prefix
has_suffix s p = has_prefix (reverse s) (reverse p)

-- strings.Contains(s, sub)
unfoldable pub contains : Bytes → Bytes → Bool
unfolding has_prefix
contains [] sub = has_prefix [] sub
contains (c ∷ s) sub = has_prefix (c ∷ s) sub || contains s sub

-- s[strings.Index(s, sub):], and `none` where the index is -1
unfoldable pub from_index : Bytes → Bytes → Option Bytes
unfolding has_prefix
from_index [] sub = if has_prefix [] sub then some [] else none
from_index (c ∷ s) sub = if has_prefix (c ∷ s) sub then some (c ∷ s) else from_index s sub

-- the ASCII part of unicode.IsSpace
unfoldable pub is_space : ℕ → Bool
is_space c = (leb 9 c && leb c 13) || c == b' '

unfoldable pub trim_left : Bytes → Bytes
unfolding is_space
trim_left [] = []
trim_left (c ∷ s) = if is_space c then trim_left s else c ∷ s

-- strings.TrimSpace
unfoldable pub trim_space : Bytes → Bytes
unfolding trim_left
trim_space s = reverse (trim_left (reverse (trim_left s)))

drop_byte : Bytes → ℕ → Bytes
drop_byte [] b = []
drop_byte (c ∷ s) b = if c == b then drop_byte s b else c ∷ s

-- strings.TrimRight(s, b) at a one-byte cutset
unfoldable pub trim_right_byte : Bytes → ℕ → Bytes
unfolding drop_byte
trim_right_byte s b = reverse (drop_byte (reverse s) b)

cut_from : Bytes → Bytes → ℕ → Bytes × Bytes × Bool
cut_from acc [] b = (acc, [], false)
cut_from acc (c ∷ s) b =
    let rest = cut_from (acc ++ c ∷ []) s b in if c == b then (acc, s, true) else rest

-- strings.Cut(s, b) at a one-byte separator
unfoldable pub cut : Bytes → ℕ → Bytes × Bytes × Bool
unfolding cut_from
cut s b = cut_from [] s b

unfoldable pub split_from : Bytes → Bytes → ℕ → List Bytes
split_from acc [] b = acc ∷ []
split_from acc (c ∷ s) b = elim (c == b) [
  | true ↦ acc ∷ split_from [] s b
  | false ↦ split_from (acc ++ c ∷ []) s b
]

-- strings.Split(s, b) at a one-byte separator
unfoldable pub split : Bytes → ℕ → List Bytes
unfolding split_from
split s b = split_from [] s b
