-- ===== src/Utils/Names.antt =====
-- sprintutils/node.go and sprintutils/convert.go: the names of nodes, and Booleans in text.
use sprintframework.Common.{
  Bool, true, false, Option, none, some, [], ◌∷◌, ◌++◌, Bytes, codes, bytes_eq, contains, List,
  if◌then◌else◌, nat_eq,
}
use sprintframework.Strconv.{ℤ, is_zero, itoa}

-- `AppendNodeSequence`
unfoldable pub append_node_sequence : Bytes → ℤ → Bytes
append_node_sequence name seq = if is_zero seq then name else name ++ (b'-' ∷ itoa seq)

-- `AppendNodeName`
unfoldable pub append_node_name : Bytes → Bytes → Bytes
append_node_name name next = name ++ (b'-' ∷ next)

abbrev true_words : List Bytes
true_words =
    codes "1"
    ∷ codes "t"
    ∷ codes "T"
    ∷ codes "true"
    ∷ codes "TRUE"
    ∷ codes "True"
    ∷ codes "on"
    ∷ codes "ON"
    ∷ codes "On"
    ∷ []

abbrev false_words : List Bytes
false_words =
    codes "0"
    ∷ codes "f"
    ∷ codes "F"
    ∷ codes "false"
    ∷ codes "FALSE"
    ∷ codes "False"
    ∷ codes "off"
    ∷ codes "OFF"
    ∷ codes "Off"
    ∷ []

-- `ParseBool`, with `none` for its error.
unfoldable pub parse_bool : Bytes → Option Bool
parse_bool s =
    if contains true_words s then some true else if contains false_words s then some false else none
