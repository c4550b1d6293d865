-- ===== src/Tests/Process.antt =====
-- The application: its command line, its shutdown, its environment and its resources.
use sprintframework.Common.{
  ◌≢◌, ℕ, true, false, none, some, List, [], ◌∷◌, ◌≡◌, arith, Bytes, codes, Result, ok, nat_eq,
  bytes_eq,
}
use sprintframework.Common.Dict
use sprintframework.Common.Dict.{Dict}
use sprintframework.Strconv.{pos}
use sprintframework.App.Flags.{ApplicationFlags, get_property, node}
use sprintframework.App.Flags.Parse.{parse_flags}
use sprintframework.App.Flags.WellFormed.{IsWellFormed}
use sprintframework.App.Flags.RoundTrip.{
  parse-child_args, child_args, fresh_flags, child_flags, get_property-parse,
}
use sprintframework.App.Application.{new_application, with_version}
use sprintframework.App.Application.Shutdown.{shutdown_first_wins, shutdown_all, shut_down}
use sprintframework.App.Environment.{Resolver}
use sprintframework.App.Resources.Templates.{IsCoherent}

abbrev flags : ApplicationFlags
flags = record {
  daemon = some false;
  verbose = some true;
  node = some (pos 2);
  priority = pos 0;
  properties = some ((codes "a", codes "x=y") ∷ []);
}

flags-IsWellFormed : IsWellFormed flags.properties
flags-IsWellFormed = record {
  nodup = (Dict.lookup-nil (codes "a"), tt);
  lack = ((λ e. absurd (ground arith), tt), tt);
}

parse-child_args_example :
    parse_flags (child_args flags) none (fresh_flags (pos 1))
    ≡ ok (child_flags flags (pos 1), codes "node" ∷ codes "run" ∷ [])
unfolding node
parse-child_args_example = parse-child_args flags (pos 1) (omega arith) flags-IsWellFormed

get_property-parse_example :
    (child : ApplicationFlags) × (parse_flags (child_args flags) none (fresh_flags (pos 1))
      ≡ ok (child, codes "node" ∷ codes "run" ∷ []))
    × ((key : Bytes) → key ≢ [] → get_property child key ≡ get_property flags key)
unfolding node
get_property-parse_example = get_property-parse flags (pos 1) (omega arith) flags-IsWellFormed

shutdown_first_wins_example :
    shutdown_all
      (true ∷ false ∷ [])
      (new_application {B = ℕ} (codes "app") (with_version (codes "1") ∷ []))
    ≡ ok (shut_down true (new_application (codes "app") (with_version (codes "1") ∷ [])))
shutdown_first_wins_example =
    shutdown_first_wins {B = ℕ} (codes "app") (with_version (codes "1") ∷ []) true (false ∷ [])

-- Flags that are all words.
abbrev all_words : List Bytes → Result ℕ (List Bytes)
all_words args = ok args

abbrev commands : Dict Bytes ℕ
commands = (codes "help", 1) ∷ (codes "default", 2) ∷ []

abbrev resolver : Resolver
resolver = record { application_name = codes "app"; cache = [] }

-- A resource whose content is its name, and a parser that counts nothing.
abbrev own_name : Bytes → Result ℕ Bytes
own_name name = ok name

abbrev as_text : Bytes → Bytes → Result ℕ Bytes
as_text name content = ok content

cached-IsCoherent : IsCoherent own_name as_text ((codes "a", codes "a") ∷ [])
cached-IsCoherent = record {
  fresh = λ name tpl h. ground (
    arith,
    Dict.lookup-cons {V = Bytes} name (codes "a") (codes "a") [],
    Dict.lookup-nil {V = Bytes} name,
  );
}
