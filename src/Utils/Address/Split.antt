-- ===== src/Utils/Address/Split.antt =====
-- What is split into a host and a port.
use sprintframework.Common.{ℕ, ◌≡◌, ◌≢◌, inl, inr, refl, arith}
use sprintframework.Common.{true, false, none, some, [], ◌∷◌, ◌++◌, append_assoc}
use sprintframework.Common.{Bytes, nat_eq, bytes_eq, length, take}
use sprintframework.Common.{Option-cases, ==_of_ne}
use sprintframework.Common.{take-append, length-append, drop-append_cons}
use sprintframework.Strings.{index_byte, last_index_byte}
use sprintframework.Strings.Laws.{Lacks, index_byte-append, index_byte-eq-none, Lacks-of_index_byte}
use sprintframework.Utils.Address.{holds, split_bracketed, split_plain, split_host_port}

last_index_byte-eq-none : (s : Bytes) (c : ℕ) → Lacks c s → last_index_byte s c ≡ none
unfolding last_index_byte
last_index_byte-eq-none [] c h = refl
last_index_byte-eq-none (b ∷ s) c (n, h) = rw (last_index_byte-eq-none s c h) (ground (arith, n))

last_index_byte-append :
    (s t : Bytes) (c : ℕ) → Lacks c t → last_index_byte (s ++ c ∷ t) c ≡ some (length s)
unfolding last_index_byte
last_index_byte-append [] t c h = rw (last_index_byte-eq-none t c h) (ground arith)
last_index_byte-append (b ∷ s) t c h = rw (last_index_byte-append s t c h) refl

-- Reading a text finds nothing where the code is missing.
holds_lem : (c : ℕ) (s : Bytes) → ¬ Lacks c s → holds c s ≡ true
holds_lem c s h = elim (Option-cases (index_byte s c)) [
  | inl e ↦ absurd (h (Lacks-of_index_byte s c e))
  | inr (i, e) ↦ rw (e, holds) refl
]

pub holds_none : (c : ℕ) (s : Bytes) → Lacks c s → holds c s ≡ false
holds_none c s h = rw (index_byte-eq-none s c h, holds) refl

pub first_byte :
    (host s t : Bytes)
    → ¬ Lacks b':' host
    → Lacks b'[' (host ++ s)
    → take 1 (host ++ t) ≢ (b'[' ∷ [])
first_byte [] s t h l = absurd (h tt)
first_byte (c ∷ host) s t h (n, l) = λ e. n (ground (arith, e))

pub split-colons :
    (host port : Bytes)
    → take 1 (host ++ b':' ∷ port) ≢ (b'[' ∷ [])
    → ¬ Lacks b':' host
    → Lacks b':' port
    → split_host_port (host ++ b':' ∷ port) ≡ none
unfolding split_host_port split_plain
split-colons host port b h p = ground (
  arith,
  last_index_byte-append host port b':' p,
  ==_of_ne (take 1 (host ++ b':' ∷ port)) (b'[' ∷ []) b,
  take-append host (b':' ∷ port),
  holds_lem b':' host h,
)

pub split-bracketed :
    (host port : Bytes)
    → Lacks b']' host
    → Lacks b':' port
    → holds b'[' (host ++ b']' ∷ b':' ∷ port) ≡ false
    → holds b']' (b':' ∷ port) ≡ false
    → split_host_port (b'[' ∷ (host ++ b']' ∷ b':' ∷ port)) ≡ some (host, port)
unfolding split_host_port split_bracketed
split-bracketed host port hr p l r = ground (
  arith,
  last_index_byte-append (b'[' ∷ (host ++ b']' ∷ [])) port b':' p,
  append_assoc host (b']' ∷ []) (b':' ∷ port),
  index_byte-append (b'[' ∷ host) (b':' ∷ port) b']' ((λ e. absurd (omega (arith, e))), hr),
  length-append host (b']' ∷ []),
  take-append host (b']' ∷ b':' ∷ port),
  drop-append_cons host b']' (b':' ∷ port),
  drop-append_cons (b'[' ∷ (host ++ b']' ∷ [])) b':' port,
  l,
  r,
)
