-- ===== src/Utils/Prompt.antt =====
-- sprintutils/prompt.go: what is read at a prompt. The input is the list of the texts that
-- `ReadString` returns, each with its newline; at the end of the input it returns empty texts.
pub mod Endless
use sprintframework.Common.{ℕ, zero, suc, ◌+◌, ◌-◌, arith}
use sprintframework.Common.{not, Option, none, some, List, [], ◌∷◌, ◌++◌}
use sprintframework.Common.{
  Bytes, codes, ◌==◌, nat_eq, bytes_eq, if◌then◌else◌, length, take, Result, ok, err,
}
use sprintframework.Common.Dict
use sprintframework.Strings.{has_prefix, has_suffix, trim_space}

abbrev pub next_line : List Bytes → Bytes × List Bytes
next_line [] = ([], [])
next_line (text ∷ input) = (text, input)

-- `out.WriteByte` behind what is there already.
abbrev pub separated : Bytes → Bytes
separated [] = []
separated (c ∷ out) = (c ∷ out) ++ codes "\n"

-- The loop of `Prompt` behind the opening quotes, and that of `PromptQuery`: the lines up to the
-- one that ends in the mark, without the mark. Without fuel there is no result.
unfoldable pub read_until : Bytes → ℕ → Bytes → List Bytes → Option (Bytes × List Bytes)
read_until mark zero out input = none
read_until mark (suc fuel) out input =
    let (line, rest) = next_line input in
    let text = trim_space line in
    let more = read_until mark fuel (separated out ++ text) rest in
    if has_suffix text mark
    then some (separated out ++ take (length text - length mark) text, rest)
    else more

abbrev pub quotes : Bytes
quotes = b'"' ∷ b'"' ∷ b'"' ∷ []

-- `Prompt`
unfoldable pub prompt : ℕ → List Bytes → Option (Bytes × List Bytes)
prompt fuel input =
    let (line, rest) = next_line input in
    let more = read_until quotes fuel [] rest in
    if trim_space line == quotes then more else some (trim_space line, rest)

-- `PromptQuery`
unfoldable pub prompt_query : ℕ → List Bytes → Option (Bytes × List Bytes)
prompt_query fuel input = read_until (codes ";") fuel [] input

-- The rounds of `PromptPEM` behind the first line.
unfoldable pub read_pem : ℕ → Bytes → List Bytes → Option (Bytes × List Bytes)
read_pem zero out input = none
read_pem (suc fuel) out input =
    let (text, rest) = next_line input in
    let grown = (out ++ codes "\n") ++ text in
    let more = read_pem fuel grown rest in
    if has_prefix text (codes "-----END ") then some (grown, rest) else more

-- `PromptPEM`: the error is the text that does not begin a PEM block.
unfoldable pub prompt_pem : ℕ → List Bytes → Option (Result Bytes Bytes × List Bytes)
prompt_pem fuel input =
    let (text, rest) = next_line input in
    let more = read_pem fuel text rest in
    if not (has_prefix text (codes "-----BEGIN "))
    then some (err text, rest)
    else elim more [ none ↦ none | some (pem, left) ↦ some (ok pem, left) ]
