-- ===== src/Strings.antt =====
-- What the code uses of Go's package strings, on byte sequences. Letters and white space are
-- those of ASCII.
pub mod Laws
pub mod Trim
use sprintframework.Common.{ℕ, suc, ◌+◌, ◌-◌, Bool, true, false, ◌&&◌, ◌||◌}
use sprintframework.Common.{Option, none, some, List, [], ◌∷◌, ◌++◌, Bytes, ◌==◌}
use sprintframework.Common.{nat_eq, contains, if◌then◌else◌, leb, length, drop}
use mathlib.Core.List.{reverse}
use mathlib.Core.Option

-- HasPrefix
unfoldable pub has_prefix : Bytes → Bytes → Bool
unfolding nat_eq
has_prefix s [] = true
has_prefix [] (b ∷ p) = false
has_prefix (a ∷ s) (b ∷ p) = a == b && has_prefix s p

-- HasSuffix
unfoldable pub has_suffix : Bytes → Bytes → Bool
unfolding has_prefix
has_suffix s suffix = has_prefix (reverse s) (reverse suffix)

-- TrimPrefix
unfoldable pub trim_prefix : Bytes → Bytes → Bytes
unfolding has_prefix
trim_prefix s prefix = if has_prefix s prefix then drop (length prefix) s else s

-- IndexByte, with `none` for -1.
unfoldable pub index_byte : Bytes → ℕ → Option ℕ
unfolding nat_eq
index_byte [] c = none
index_byte (b ∷ s) c = if b == c then some 0 else Option.map suc (index_byte s c)

-- LastIndex of a text of one byte.
unfoldable pub last_index_byte : Bytes → ℕ → Option ℕ
unfolding nat_eq
last_index_byte [] c = none
last_index_byte (b ∷ s) c = elim (last_index_byte s c) [
  | some i ↦ some (suc i)
  | none ↦ if b == c then some 0 else none
]

-- Contains
unfoldable pub contains_text : Bytes → Bytes → Bool
unfolding has_prefix
contains_text [] w = has_prefix [] w
contains_text (c ∷ s) w = has_prefix (c ∷ s) w || contains_text s w

-- ContainsAny, on the bytes of `chars`.
unfoldable pub contains_any : Bytes → Bytes → Bool
unfolding nat_eq
contains_any [] chars = false
contains_any (c ∷ s) chars = contains chars c || contains_any s chars

abbrev pub is_space : ℕ → Bool
is_space c = c == b' ' || (leb 9 c && leb c 13)

unfoldable pub trim_left : Bytes → Bytes
unfolding nat_eq
trim_left [] = []
trim_left (c ∷ s) = let rest = trim_left s in if is_space c then rest else c ∷ s

-- TrimSpace
unfoldable pub trim_space : Bytes → Bytes
unfolding trim_left
trim_space s = reverse (trim_left (reverse (trim_left s)))

push_byte : ℕ → List Bytes → List Bytes
push_byte c [] = (c ∷ []) ∷ []
push_byte c (p ∷ ps) = (c ∷ p) ∷ ps

-- Split at each byte `sep`: one part more than there are separators.
unfoldable pub split : Bytes → ℕ → List Bytes
unfolding nat_eq push_byte
split [] sep = [] ∷ []
split (c ∷ s) sep = let rest = split s sep in if c == sep then [] ∷ rest else push_byte c rest

-- Join
unfoldable pub join : List Bytes → Bytes → Bytes
join [] sep = []
join (p ∷ []) sep = p
join (p ∷ q ∷ ps) sep = p ++ (sep ++ join (q ∷ ps) sep)

-- ReplaceAll of one byte by another.
unfoldable pub replace_byte : Bytes → ℕ → ℕ → Bytes
unfolding nat_eq
replace_byte [] from to = []
replace_byte (c ∷ s) from to = (if c == from then to else c) ∷ replace_byte s from to

-- ToUpper, ToLower
unfoldable pub to_upper : Bytes → Bytes
to_upper [] = []
to_upper (c ∷ s) = (if leb b'a' c && leb c b'z' then c - 32 else c) ∷ to_upper s

unfoldable pub to_lower : Bytes → Bytes
to_lower [] = []
to_lower (c ∷ s) = (if leb b'A' c && leb c b'Z' then c + 32 else c) ∷ to_lower s
