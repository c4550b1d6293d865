-- ===== src/App/Resources/Lines.antt =====
-- The lines that `filterLines` keeps.
use sprintframework.Common.{List, [], ◌∷◌, ◌++◌, ◌≡◌, refl, arith, All}
use sprintframework.Common.{Bytes, bytes_eq, nat_eq, if◌then◌else◌}
use sprintframework.Strings.{split}
use sprintframework.Strings.Laws.{Lacks, split_line, split-Lacks}
use sprintframework.App.Resources.{included, kept_lines, filter_lines}

-- The lines with none of the words, in their order.
pub lines_without : List Bytes → List Bytes → List Bytes
lines_without words [] = []
lines_without words (line ∷ lines) =
    let rest = lines_without words lines in if included line words then line ∷ rest else rest

split-kept_lines :
    (lines words : List Bytes)
    → All (Lacks b'\n') lines
    → split (kept_lines lines words) b'\n' ≡ lines_without words lines ++ ([] ∷ [])
unfolding kept_lines lines_without
split-kept_lines [] words h = unfold split in refl
split-kept_lines (line ∷ lines) words (hl, h) =
    ground
      (arith, split_line line (kept_lines lines words) b'\n' hl, split-kept_lines lines words h)

-- The lines of the result are those of the content that hold none of the words, in their order,
-- and an empty one behind the last line feed.
pub split-filter_lines :
    (content : Bytes) (words : List Bytes)
    → split (filter_lines content words) b'\n'
      ≡ lines_without words (split content b'\n') ++ ([] ∷ [])
unfolding filter_lines
split-filter_lines content words = split-kept_lines _ words (split-Lacks content b'\n')
