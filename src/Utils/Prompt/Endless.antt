-- ===== src/Utils/Prompt/Endless.antt =====
-- A prompt of several lines ends at its mark, and never at the end of the input.
use sprintframework.Common.{ℕ, zero, suc, ◌-◌, ◌≡◌, refl}
use sprintframework.Common.{true, false, none, some, List, [], ◌∷◌, ◌++◌}
use sprintframework.Common.{Bytes, codes, nat_eq, bytes_eq, length, take, All}
use sprintframework.Common.{==_self}
use sprintframework.Strings.{has_prefix, has_suffix, trim_space}
use sprintframework.Utils.Prompt.{
  separated, read_until, quotes, prompt, prompt_query, read_pem, prompt_pem,
}

-- No line of the input ends in the mark.
abbrev pub Unmarked : Bytes → List Bytes → Type 0
Unmarked mark = All (λ line. has_suffix (trim_space line) mark ≡ false)

read_until-Unmarked :
    (mark : Bytes) (fuel : ℕ) (out : Bytes) (input : List Bytes)
    → has_suffix (trim_space []) mark ≡ false
    → Unmarked mark input
    → read_until mark fuel out input ≡ none
unfolding read_until
read_until-Unmarked mark zero out input e h = refl
read_until-Unmarked mark (suc fuel) out [] e h = rw (e) (read_until-Unmarked mark fuel _ [] e tt)
read_until-Unmarked mark (suc fuel) out (line ∷ input) e (n, h) =
    rw (n) (read_until-Unmarked mark fuel _ input e h)

-- No line of the input ends a PEM block.
abbrev pub Endless : List Bytes → Type 0
Endless = All (λ line. has_prefix line (codes "-----END ") ≡ false)

read_pem-Endless :
    (fuel : ℕ) (out : Bytes) (input : List Bytes) → Endless input → read_pem fuel out input ≡ none
unfolding read_pem has_prefix
read_pem-Endless zero out input h = refl
read_pem-Endless (suc fuel) out [] h = read_pem-Endless fuel _ [] tt
read_pem-Endless (suc fuel) out (line ∷ input) (n, h) = rw (n) (read_pem-Endless fuel _ input h)

-- Where the input ends before the mark does, the prompts never return, however long they read:
-- `Prompt` behind opening quotes, `PromptQuery`, and `PromptPEM` behind the first line of a block.
pub prompts_never_return :
    (fuel : ℕ) (first : Bytes) (input : List Bytes)
    → (trim_space first ≡ quotes → Unmarked quotes input → prompt fuel (first ∷ input) ≡ none)
      × (Unmarked (codes ";") input → prompt_query fuel input ≡ none)
      × (has_prefix first (codes "-----BEGIN ") ≡ true
          → Endless input
          → prompt_pem fuel (first ∷ input) ≡ none)
unfolding prompt prompt_query prompt_pem has_suffix trim_space
prompts_never_return fuel first input = (
  (λ q h. rw (q, ==_self quotes) (read_until-Unmarked quotes fuel [] input refl h)),
  (λ h. read_until-Unmarked (codes ";") fuel [] input refl h),
  (λ b h. rw (b, read_pem-Endless fuel first input h) refl),
)

-- The lines behind what is there already, each with a newline in front of it unless it is the first.
abbrev pub gathered : Bytes → List Bytes → Bytes
gathered out [] = out
gathered out (line ∷ lines) = gathered (separated out ++ trim_space line) lines

-- With one round for each line, a prompt of several lines returns at the first line that ends in
-- the mark: the lines in front of it and that line without the mark, and the input behind it.
pub read_until_lem :
    (mark out : Bytes) (lines : List Bytes) (last : Bytes) (rest : List Bytes)
    → Unmarked mark lines
    → has_suffix (trim_space last) mark ≡ true
    → read_until mark (suc (length lines)) out (lines ++ last ∷ rest)
      ≡ some (
        separated (gathered out lines)
            ++ take (length (trim_space last) - length mark) (trim_space last),
        rest,
      )
unfolding read_until
read_until_lem mark out [] last rest h e = rw (e) refl
read_until_lem mark out (line ∷ lines) last rest (n, h) e =
    rw (n) (read_until_lem mark (separated out ++ trim_space line) lines last rest h e)
