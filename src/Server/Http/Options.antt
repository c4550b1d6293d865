-- ===== src/Server/Http/Options.antt =====
-- Which options are on.
use sprintframework.Common.{◌≡◌, inl, inr, ap, ◌∙◌, arith}
use sprintframework.Common.{Bool, true, false, not, ◌&&◌, ◌||◌, List, [], ◌∷◌, map}
use sprintframework.Common.{Bytes, ◌==◌, nat_eq, bytes_eq, contains, if◌then◌else◌}
use sprintframework.Common.{Bool-cases, eq_of_==}
use sprintframework.Common.Dict
use sprintframework.Common.Dict.{Dict}
use sprintframework.Strings.{split, trim_space}
use sprintframework.Server.Http.{add_options, parse_options, enabled}

-- The parts of a text without the blanks around them.
abbrev pub trimmed : List Bytes → List Bytes
trimmed parts = map trim_space parts

-- A key that is a blank part is empty.
blank_key : (key part : Bytes) → part ≡ [] → (key == part) ≡ (key == [])
blank_key key part e = ap (λ p. key == p) e

filled_key : (key part : Bytes) → (part == []) ≡ false → (key == part) ≡ true → (key == []) ≡ false
filled_key key part f e = ap (λ k. k == []) (eq_of_== key part e) ∙ f

add_options-enabled :
    (parts : List Bytes) (cache : Dict Bytes Bool) (key : Bytes)
    → enabled (add_options parts cache) key
      ≡ (not (key == []) && contains (trimmed parts) key) || enabled cache key
unfolding add_options
add_options-enabled [] cache key = ground arith
add_options-enabled (part ∷ parts) cache key = elim (Bool-cases (trim_space part == [])) [
  | inl e ↦
      rw (e, if◌then◌else◌)
        (ground (
          arith,
          add_options-enabled parts cache key,
          blank_key key (trim_space part) (eq_of_== (trim_space part) [] e),
        ))
  | inr e ↦
      rw (e, if◌then◌else◌)
        (ground (
          arith,
          add_options-enabled parts (Dict.insert (trim_space part) true cache) key,
          Dict.lookup-insert key (trim_space part) true cache,
          filled_key key (trim_space part) e,
        ))
]

-- An option is on exactly when it is not empty and is one of the parts between the semicolons,
-- without the blanks around it; how often or in which order the options stand does not matter.
pub parse_options_lem :
    (text key : Bytes)
    → enabled (parse_options text) key
      ≡ (not (key == []) && contains (trimmed (split text b';')) key)
unfolding parse_options
parse_options_lem text key =
    ground (arith, add_options-enabled (split text b';') [] key, Dict.lookup-nil {V = Bool} key)
