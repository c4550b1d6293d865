-- ===== src/Strconv/Digits.antt =====
-- The print of an int has no white space.
use sprintframework.Common.{ℕ, zero, suc, ◌+◌, ◌/◌, ◌%◌, arith}
use sprintframework.Common.{[], ◌∷◌}
use sprintframework.Common.{Bytes, nat_eq, bytes_eq}
use sprintframework.Strings.Trim.{Dense}
use sprintframework.Strconv.{ℤ, pos, negsuc, digits, format_nat, itoa}

digits-Dense : (fuel n : ℕ) (out : Bytes) → Dense out → Dense (digits fuel n out)
unfolding digits
digits-Dense zero n out h = h
digits-Dense (suc fuel) n out h = ground (arith, digits-Dense fuel (n / 10) ((b'0' + n % 10) ∷ out))

format_nat-Dense : (n : ℕ) → Dense (format_nat n)
unfolding format_nat
format_nat-Dense n = ground (arith, digits-Dense n n [])

pub itoa-Dense : (z : ℤ) → Dense (itoa z)
unfolding itoa
itoa-Dense (pos n) = format_nat-Dense n
itoa-Dense (negsuc n) = (ground arith, format_nat-Dense (n + 1))
