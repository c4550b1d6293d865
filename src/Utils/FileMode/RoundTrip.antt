-- ===== src/Utils/FileMode/RoundTrip.antt =====
-- Every permission is read back from its usual text.
use sprintframework.Common.{
  ℕ, zero, suc, ◌+◌, ◌-◌, ◌/◌, ◌%◌, ◌^◌, ◌<◌, ◌≡◌, refl, ap, ◌∙◌, arith, Bool, true, [], ◌∷◌, ◌++◌,
}
use sprintframework.Common.{
  Bytes, ◌==◌, nat_eq, eq_of_==, if◌then◌else◌, length, length-append, drop-append,
}
use sprintframework.Utils.FileMode.{rwx, parse_file_mode, last_nine, mode_loop}
use sprintframework.Common.{Bool-cases, inl, inr, false, ◌≤◌}

-- The letters of `rwx` where the bit of the mode is set, and dashes elsewhere, from the bit
-- `2 ^ k` down.
unfoldable pub letters : ℕ → Bytes → ℕ → Bytes
letters k [] m = []
letters zero (c ∷ cs) m = (if m % 2 == 0 then b'-' else c) ∷ []
letters (suc k) (c ∷ cs) m = (if m / 2 ^ suc k % 2 == 0 then b'-' else c) ∷ letters k cs m

-- The nine letters of a permission.
unfoldable pub format_file_mode : ℕ → Bytes
unfolding letters
format_file_mode m = letters 8 rwx m

reads_back : ℕ → Bool
reads_back m = mode_loop rwx (format_file_mode m) 0 0 == m

-- Whether each of the `count` modes from `first` on is read back.
run_reads_back : ℕ → ℕ → Bool
run_reads_back first zero = true
run_reads_back first (suc count) =
    let later = run_reads_back (first + 1) count in if reads_back first then later else false

reads_back_within :
    (first count m : ℕ)
    → run_reads_back first count ≡ true
    → first ≤ m
    → m < first + count
    → reads_back m ≡ true
unfolding run_reads_back
reads_back_within first zero m h low high = absurd (omega arith)
reads_back_within first (suc count) m h low high = elim (Bool-cases (first == m)) [
  | inl e ↦ ground arith
  | inr e ↦ ground (arith, reads_back_within (first + 1) count m)
]

-- The permissions are few enough to run through.
mode_table : run_reads_back 0 512 ≡ true
unfolding run_reads_back reads_back mode_loop format_file_mode nat_eq
mode_table = refl

length-format_file_mode : (m : ℕ) → length (format_file_mode m) ≡ 9
unfolding format_file_mode
length-format_file_mode m = refl

last_nine-append : (p s : Bytes) → length s ≡ 9 → last_nine (p ++ s) ≡ s
unfolding last_nine
last_nine-append p s h =
    let len : length (p ++ s) ≡ length p + 9 = rw (length-append p s) (ap (λ n. length p + n) h) in
    let gone : length p + 9 - 9 ≡ length p = omega arith in
    rw (len, last_nine) (rw gone (ground (arith, drop-append p s)))

mode_read_back : (m : ℕ) → m < 512 → (mode_loop rwx (format_file_mode m) 0 0 == m) ≡ true
unfolding reads_back
mode_read_back m h = reads_back_within 0 512 m mode_table (omega arith) (omega arith)

-- Whatever stands before the nine letters of a permission, `ParseFileMode` gives the permission.
pub parse-format_file_mode :
    (p : Bytes) (m : ℕ) → m < 512 → parse_file_mode (p ++ format_file_mode m) ≡ m
unfolding parse_file_mode
parse-format_file_mode p m h =
    ap (λ s. mode_loop rwx s 0 0) (last_nine-append p _ (length-format_file_mode m))
    ∙ eq_of_== _ m (mode_read_back m h)
