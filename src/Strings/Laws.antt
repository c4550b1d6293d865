-- ===== src/Strings/Laws.antt =====
-- Laws of the functions on texts, for the proofs about the code that calls them.
use sprintframework.Common.{ℕ, zero, suc, ◌≡◌, ◌≢◌, refl, true}
use sprintframework.Common.{none, some, List, [], ◌∷◌, ◌++◌, Bytes}
use sprintframework.Common.{nat_eq, ==_of_eq, ==_of_ne, length, take, drop, All, arith, drop-append}
use sprintframework.Strings.{has_prefix, trim_prefix, index_byte, split, push_byte}

-- No byte of the text is `c`.
abbrev pub Lacks : ℕ → Bytes → Type 0
Lacks c = All (λ b. b ≢ c)

pub has_prefix-append : (p s : Bytes) → has_prefix (p ++ s) p ≡ true
unfolding has_prefix
has_prefix-append [] [] = refl
has_prefix-append [] (a ∷ s) = refl
has_prefix-append (a ∷ p) s = ground (arith, has_prefix-append p s)

-- A text with the prefix is the prefix and what stands behind it.
pub has_prefix_split : (s p : Bytes) → has_prefix s p ≡ true → s ≡ p ++ drop (length p) s
unfolding has_prefix
has_prefix_split [] [] h = refl
has_prefix_split (a ∷ s) [] h = refl
has_prefix_split [] (b ∷ p) h = cc
has_prefix_split (a ∷ s) (b ∷ p) h = ground (arith, has_prefix_split s p)

pub trim_prefix-append : (p s : Bytes) → trim_prefix (p ++ s) p ≡ s
unfolding trim_prefix
trim_prefix-append p s = ground (arith, has_prefix-append p s, drop-append p s)

-- The first `c` behind a text without `c` stands at the length of that text.
pub index_byte-append :
    (s t : Bytes) (c : ℕ) → Lacks c s → index_byte (s ++ c ∷ t) c ≡ some (length s)
unfolding index_byte
index_byte-append [] t c h = ground arith
index_byte-append (b ∷ s) t c (hb, hs) = ground (arith, index_byte-append s t c hs)

pub index_byte-eq-none : (s : Bytes) (c : ℕ) → Lacks c s → index_byte s c ≡ none
unfolding index_byte
index_byte-eq-none [] c h = refl
index_byte-eq-none (b ∷ s) c (hb, hs) = ground (arith, index_byte-eq-none s c hs)

pub Lacks-of_index_byte : (s : Bytes) (c : ℕ) → index_byte s c ≡ none → Lacks c s
unfolding index_byte
Lacks-of_index_byte [] c h = tt
Lacks-of_index_byte (b ∷ s) c h = ground (arith, Lacks-of_index_byte s c)

pub Lacks-take-index_byte :
    (s : Bytes) (c : ℕ) {i : ℕ} → index_byte s c ≡ some i → Lacks c (take i s)
unfolding index_byte
Lacks-take-index_byte [] c h = cc
Lacks-take-index_byte (b ∷ s) c {i = zero} h = tt
Lacks-take-index_byte (b ∷ s) c {i = suc j} h = ground (arith, Lacks-take-index_byte s c {i = j})

pub split_line :
    (line rest : Bytes) (sep : ℕ)
    → Lacks sep line
    → split (line ++ (sep ∷ rest)) sep ≡ line ∷ split rest sep
unfolding split
split_line [] rest sep h = ground arith
split_line (c ∷ line) rest sep (hc, hl) = ground (arith, split_line line rest sep hl)

push_byte-Lacks :
    (c sep : ℕ) (ps : List Bytes) → c ≢ sep → All (Lacks sep) ps → All (Lacks sep) (push_byte c ps)
unfolding push_byte
push_byte-Lacks c sep [] h _ = ((h, tt), tt)
push_byte-Lacks c sep (p ∷ ps) h (hp, hps) = ((h, hp), hps)

pub split-Lacks : (s : Bytes) (sep : ℕ) → All (Lacks sep) (split s sep)
unfolding split
split-Lacks [] sep = (tt, tt)
split-Lacks (c ∷ s) sep = elim (nat_eq.dec c sep) [
  | yes e ↦ rw (==_of_eq c sep e) (tt, split-Lacks s sep)
  | no n ↦ rw (==_of_ne c sep n) (push_byte-Lacks c sep (split s sep) n (split-Lacks s sep))
]
