-- ===== src/Utils/FileMode.antt =====
-- sprintutils/files.go: file modes from text, and the modes that the text spells.
pub mod RoundTrip
use Prim.Native.Nat.{bit_or}
use sprintframework.Common.{ℕ, ◌+◌, ◌-◌, ◌^◌, [], ◌∷◌, ◌++◌}
use sprintframework.Common.{Bytes, codes, ◌==◌, nat_eq, if◌then◌else◌, ltb, length, drop}

abbrev pub rwx : Bytes
rwx = codes "rwxrwxrwx"

-- The last nine bytes, or the text behind as many dashes as are missing: `copy(buf[-off:], s)`.
unfoldable pub last_nine : Bytes → Bytes
last_nine s =
    if ltb (length s) (length rwx)
    then drop (length s) (codes "---------") ++ s
    else drop (length s - length rwx) s

-- The loop over `rwx` from index `i` on, beside the text from there on.
unfoldable pub mode_loop : Bytes → Bytes → ℕ → ℕ → ℕ
mode_loop [] s i m = m
mode_loop (c ∷ cs) [] i m = m
mode_loop (c ∷ cs) (b ∷ s) i m =
    mode_loop cs s (i + 1) (if c == b then bit_or m (2 ^ (9 - 1 - i)) else m)

-- `ParseFileMode`
unfoldable pub parse_file_mode : Bytes → ℕ
unfolding last_nine mode_loop
parse_file_mode s = mode_loop rwx (last_nine s) 0 0
