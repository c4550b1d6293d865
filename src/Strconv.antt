-- ===== src/Strconv.antt =====
-- What the code uses of Go's packages strconv and fmt for numbers: Itoa (the verb %d) and Atoi
-- on 64-bit integers.
pub mod Digits
use sprintframework.Common.{ℕ, zero, suc, ◌+◌, ◌-◌, ◌*◌, ◌/◌, ◌%◌, ◌^◌, ◌≤◌, ◌≡◌, refl}
use sprintframework.Common.{Bool, true, false, ◌&&◌, Option, none, some, [], ◌∷◌, Bytes, ◌==◌}
use sprintframework.Common.{nat_eq, if◌then◌else◌, leb, arith, ap, ◌∙◌, codes}
use mathlib.Core.Option

-- A Go int. `negsuc n` is -(n + 1).
pub data ℤ : Type 0 where
  pos : ℕ → ℤ
  negsuc : ℕ → ℤ

-- z > 0
abbrev pub is_positive : ℤ → Bool
is_positive (pos zero) = false
is_positive (pos (suc n)) = true
is_positive (negsuc n) = false

abbrev pub is_zero : ℤ → Bool
is_zero (pos n) = n == 0
is_zero (negsuc n) = false

-- The digits of `n` in front of `out`; `n` rounds are enough, since each divides by ten.
digits : ℕ → ℕ → Bytes → Bytes
digits zero n out = out
digits (suc fuel) n out = elim (n == 0) [
  | true ↦ out
  | false ↦ digits fuel (n / 10) ((b'0' + n % 10) ∷ out)
]

unfoldable pub format_nat : ℕ → Bytes
unfolding digits nat_eq
format_nat n = if n == 0 then b'0' ∷ [] else digits n n []

-- Itoa
unfoldable pub itoa : ℤ → Bytes
unfolding format_nat
itoa (pos n) = format_nat n
itoa (negsuc n) = b'-' ∷ format_nat (n + 1)

scan : Bytes → ℕ → Option ℕ
scan [] n = some n
scan (c ∷ s) n = if leb b'0' c && leb c b'9' then scan s (n * 10 + (c - b'0')) else none

abbrev pub max_int : ℕ
max_int = 2 ^ 63 - 1

unsigned : Bytes → ℕ → Option ℕ
unsigned [] limit = none
unsigned (c ∷ s) limit = elim (scan (c ∷ s) 0) [
  | none ↦ none
  | some n ↦ if leb n limit then some n else none
]

abbrev negate : ℕ → ℤ
negate zero = pos 0
negate (suc n) = negsuc n

signed : Bytes → Option ℤ
unfolding nat_eq
signed [] = none
signed (c ∷ s) =
    if c == b'-'
    then Option.map negate (unsigned s (max_int + 1))
    else if c == b'+'
    then Option.map pos (unsigned s max_int)
    else Option.map pos (unsigned (c ∷ s) max_int)

-- Atoi, with `none` for its errors.
unfoldable pub atoi : Bytes → Option ℤ
unfolding signed unsigned scan
atoi s = signed s

-- ParseUint in base 10 with 64 bits, with `none` for its errors.
unfoldable pub parse_uint : Bytes → Option ℕ
unfolding unsigned scan
parse_uint s = unsigned s (2 ^ 64 - 1)

scan-digits : (fuel n : ℕ) (out : Bytes) → n ≤ fuel → scan (digits fuel n out) 0 ≡ scan out n
unfolding scan digits
scan-digits zero n out h = ground arith
scan-digits (suc fuel) n out h = ground (arith, scan-digits fuel (n / 10) ((b'0' + n % 10) ∷ out))

abbrev pub IsDigits : Bytes → Type 0
IsDigits [] = ⊥
IsDigits (c ∷ s) = (b'0' ≤ c) × (c ≤ b'9')

digits-IsDigits :
    (fuel n : ℕ) (c : ℕ) (out : Bytes) → IsDigits (c ∷ out) → IsDigits (digits fuel n (c ∷ out))
unfolding digits
digits-IsDigits zero n c out h = h
digits-IsDigits (suc fuel) n c out h =
    ground (arith, digits-IsDigits fuel (n / 10) (b'0' + n % 10) (c ∷ out))

format_nat-IsDigits : (n : ℕ) → IsDigits (format_nat n)
unfolding format_nat
format_nat-IsDigits zero = omega arith
format_nat-IsDigits (suc n) = ground (arith, digits-IsDigits n (suc n / 10) (b'0' + suc n % 10) [])

scan-format_nat : (n : ℕ) → scan (format_nat n) 0 ≡ some n
unfolding format_nat scan
scan-format_nat n = ground (arith, scan-digits n n [])

unsigned-digits :
    (s : Bytes) (n limit : ℕ)
    → IsDigits s
    → scan s 0 ≡ some n
    → n ≤ limit
    → unsigned s limit ≡ some n
unfolding unsigned
unsigned-digits [] n limit d h le = absurd d
unsigned-digits (c ∷ s) n limit d h le = ground arith

atoi-eq : (s : Bytes) → atoi s ≡ signed s
unfolding atoi
atoi-eq s = refl

signed-digits : (s : Bytes) → IsDigits s → signed s ≡ Option.map pos (unsigned s max_int)
unfolding signed
signed-digits [] d = absurd d
signed-digits (c ∷ s) (lo, hi) = ground arith

signed-minus : (s : Bytes) → signed (b'-' ∷ s) ≡ Option.map negate (unsigned s (max_int + 1))
unfolding signed
signed-minus s = ground arith

-- The ints that fit 64 bits.
abbrev pub IsInt : ℤ → Type 0
IsInt (pos n) = n ≤ max_int
IsInt (negsuc n) = n ≤ max_int

atoi_of_digits :
    (s : Bytes) (n : ℕ) → IsDigits s → scan s 0 ≡ some n → n ≤ max_int → atoi s ≡ some (pos n)
atoi_of_digits s n d h le =
    atoi-eq s ∙ signed-digits s d ∙ ap (Option.map pos) (unsigned-digits s n max_int d h le)

atoi_of_minus :
    (s : Bytes) (n : ℕ)
    → IsDigits s
    → scan s 0 ≡ some (n + 1)
    → n + 1 ≤ max_int + 1
    → atoi (b'-' ∷ s) ≡ some (negsuc n)
atoi_of_minus s n d h le =
    atoi-eq _
    ∙ signed-minus s
    ∙ ap (Option.map negate) (unsigned-digits s (n + 1) _ d h le)
    ∙ ground arith

-- Every 64-bit int is read back from its print.
pub atoi-itoa : (z : ℤ) → IsInt z → atoi (itoa z) ≡ some z
unfolding itoa
atoi-itoa (pos n) h = atoi_of_digits _ n (format_nat-IsDigits n) (scan-format_nat n) h
atoi-itoa (negsuc n) h =
    atoi_of_minus _ n (format_nat-IsDigits (n + 1)) (scan-format_nat (n + 1)) (omega arith)

itoa-runs : (itoa (pos 8080) ≡ codes "8080") × (atoi (codes "-12") ≡ some (negsuc 11))
unfolding itoa atoi
itoa-runs = (refl, refl)
