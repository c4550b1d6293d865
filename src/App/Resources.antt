-- ===== src/App/Resources.antt =====
-- sprintapp/resource_service.go: resources, the caches of parsed templates, and the text that is
-- made of resources. The context's resources are a function of the name.
pub mod Templates
pub mod Lines
use sprintframework.Common.{Bool, true, false, Option, none, some, List, [], ◌∷◌, ◌++◌}
use sprintframework.Common.{Bytes, codes, ◌==◌, bytes_eq, if◌then◌else◌, Result, ok, err}
use sprintframework.Common.Dict
use sprintframework.Common.Dict.{Dict}
use sprintframework.Strings.{contains_text, has_suffix, split}

-- `GetResource`, over the context's lookup and the reading of what it finds.
module _ {E R : Type 0} (not_found : Bytes → E) (resource : Bytes → Option R)
    (read : R → Result E Bytes) where
  unfoldable pub get_resource : Bytes → Result E Bytes
  get_resource name = elim (resource name) [ none ↦ err (not_found name) | some r ↦ read r ]

-- `TextTemplate` and `HtmlTemplate`, each over its own cache and its own parser.
module _ {E T : Type 0} (get : Bytes → Result E Bytes) (parse : Bytes → Bytes → Result E T) where
  parse_into : Dict Bytes T → Bytes → Result E Bytes → Result E T × Dict Bytes T
  parse_into templates name (err e) = (err e, templates)
  parse_into templates name (ok content) = elim (parse name content) [
    | err e ↦ (err e, templates)
    | ok tpl ↦ (ok tpl, Dict.insert name tpl templates)
  ]

  unfoldable pub template : Dict Bytes T → Bytes → Result E T × Dict Bytes T
  unfolding parse_into
  template templates name = elim (Dict.lookup name templates) [
    | some tpl ↦ (ok tpl, templates)
    | none ↦ parse_into templates name (get name)
  ]

-- The inner loop of `filterLines`: no word stands in the line.
unfoldable pub included : Bytes → List Bytes → Bool
included line [] = true
included line (word ∷ words) = if contains_text line word then false else included line words

kept_lines : List Bytes → List Bytes → Bytes
kept_lines [] words = []
kept_lines (line ∷ lines) words =
    let rest = kept_lines lines words in
    if included line words then line ++ (b'\n' ∷ rest) else rest

-- `filterLines`
unfoldable pub filter_lines : Bytes → List Bytes → Bytes
unfolding kept_lines
filter_lines content words = kept_lines (split content b'\n') words

-- `GetLicenses`, over the property `application.package`.
unfoldable pub get_licenses :
    {E : Type 0} → (Bytes → Result E Bytes) → Bytes → Bytes → Result E Bytes
unfolding filter_lines
get_licenses get package_name name = elim (get name) [
  | err e ↦ err e
  | ok content ↦
      if package_name == [] then ok content else ok (filter_lines content (package_name ∷ []))
]

pub record ResourceSource : Type 0 where
  pub name : Bytes
  pub asset_names : List Bytes

module _ {E : Type 0} (get : Bytes → Result E Bytes) where
  abbrev swagger_part : Result E Bytes → Bytes
  swagger_part (ok content) = content
  swagger_part (err e) = []

  swagger_assets : List Bytes → Bytes
  swagger_assets [] = []
  swagger_assets (name ∷ names) =
      (if has_suffix name (codes ".swagger.json") then swagger_part (get name) else [])
      ++ swagger_assets names

  -- `GetOpenAPI`
  unfoldable pub get_open_api : Bytes → List ResourceSource → Bytes
  unfolding swagger_assets
  get_open_api source [] = []
  get_open_api source (r ∷ rs) =
      (if r.name == source then swagger_assets r.asset_names else []) ++ get_open_api source rs
