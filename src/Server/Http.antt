-- ===== src/Server/Http.antt =====
-- sprintserver/http_server_factory.go and sprintserver/utils.go: what an HTTP server is made of. A
-- handler of another package is a value of the type `H`; the patterns of a mux and the panics of
-- registering them are those of net/http.
pub mod Options
pub mod Assets
pub mod Requests
pub mod Mux
use sprintframework.Common.{ℕ, ◌+◌, arith}
use sprintframework.Common.{Bool, true, false, Option, none, some, List, [], ◌∷◌, ◌++◌}
use sprintframework.Common.{Bytes, codes, ◌==◌, nat_eq, bytes_eq, contains, if◌then◌else◌}
use sprintframework.Common.Dict
use sprintframework.Common.Dict.{Dict}
use sprintframework.Strings.{has_prefix, has_suffix, split, trim_space}

-- The loop of `parseOptions`.
unfoldable pub add_options : List Bytes → Dict Bytes Bool → Dict Bytes Bool
add_options [] cache = cache
add_options (part ∷ parts) cache =
    add_options parts
      (if trim_space part == [] then cache else Dict.insert (trim_space part) true cache)

-- `parseOptions`
unfoldable pub parse_options : Bytes → Dict Bytes Bool
parse_options str = add_options (split str b';') []

-- An index expression on a map of Booleans.
abbrev pub enabled : Dict Bytes Bool → Bytes → Bool
enabled m key = elim (Dict.lookup key m) [ none ↦ false | some b ↦ b ]

-- `AppendH2ToNextProtos`, and the function of the same text in sprintclient/utils.go.
unfoldable pub append_h2_to_next_protos : List Bytes → List Bytes
append_h2_to_next_protos ps = if contains ps (codes "h2") then ps else ps ++ (codes "h2" ∷ [])

-- The path that `rewriteHandler` passes on.
unfoldable pub rewritten_path : Bytes → Bytes → Bytes → Bytes
rewritten_path from to path =
    let p = if has_prefix path (codes "/") then path else b'/' ∷ path in
    if p == from then to else path

-- The loop of `acceptGzip` over the parts of the header.
unfoldable pub any_gzip : List Bytes → Bool
any_gzip [] = false
any_gzip (enc ∷ list) = if codes "gzip" == trim_space enc then true else any_gzip list

-- `acceptGzip`, over the header Accept-Encoding.
unfoldable pub accept_gzip : Bytes → Bool
accept_gzip header = any_gzip (split header b',')

-- What a handler does to a response: with a status of 200 `gzipWriter` sets the content encoding.
unfoldable pub write_header : Option Bytes → ℕ → Option Bytes
write_header encoding status_code = if status_code == 200 then some (codes "gzip") else encoding

-- A file server over the assets `F`, or one with `gzipHeaderHandler` around it.
pub data Handler (F : Type 0) : Type 0 where
  files : F → Handler F
  gzip_header : F → Handler F

pub record ServingAsset (F : Type 0) : Type 0 where
  pub pattern : Bytes
  pub plain_h : Option (Handler F)
  pub gzip_h : Option (Handler F)

-- What `servingAsset.ServeHTTP` does with a request.
pub data Served (F : Type 0) : Type 0 where
  by : Handler F → Served F
  not_found : Served F

-- A resource source of the context.
pub record Resource (F : Type 0) : Type 0 where
  pub name : Bytes
  pub asset_names : List Bytes
  pub asset_files : F

module _ {F : Type 0} where
  serve_plain : ServingAsset F → Served F
  serve_plain t = elim t.plain_h [ none ↦ not_found | some h ↦ by h ]

  -- `ServeHTTP` of an asset, over the header Accept-Encoding.
  unfoldable pub serve_asset : ServingAsset F → Bytes → Served F
  unfolding serve_plain
  serve_asset t header = elim t.gzip_h [
    | none ↦ serve_plain t
    | some h ↦ if accept_gzip header then by h else serve_plain t
  ]

  -- The entry of a pattern, or a new one.
  asset_at : Bytes → Dict Bytes (ServingAsset F) → ServingAsset F
  asset_at pattern cache = elim (Dict.lookup pattern cache) [
    | none ↦ record { pattern = pattern; plain_h = none; gzip_h = none }
    | some s ↦ s
  ]

  -- One round of the loop of `groupAssets` from its label on.
  unfoldable pub put_asset :
      Bool → Handler F → Bytes → Dict Bytes (ServingAsset F) → Dict Bytes (ServingAsset F)
  unfolding asset_at
  put_asset gzip h pattern cache =
      let s = asset_at pattern cache in
      Dict.insert pattern
        (if gzip then record s { gzip_h = some h } else record s { plain_h = some h }) cache

  -- The round for a name, and the one more that the jump makes for the index.
  unfoldable pub add_asset :
      Bool → Handler F → Bytes → Dict Bytes (ServingAsset F) → Dict Bytes (ServingAsset F)
  add_asset gzip h name cache =
      let c = put_asset gzip h (b'/' ∷ name) cache in
      if name == codes "index.html" then put_asset gzip h (b'/' ∷ []) c else c

  unfoldable pub add_assets :
      Bool → Handler F → List Bytes → Dict Bytes (ServingAsset F) → Dict Bytes (ServingAsset F)
  add_assets gzip h [] cache = cache
  add_assets gzip h (name ∷ names) cache = add_assets gzip h names (add_asset gzip h name cache)

  abbrev pub is_gzip : Resource F → Bool
  is_gzip res = has_suffix res.name (codes "gzip")

  abbrev pub is_assets : Resource F → Bool
  is_assets res = has_prefix res.name (codes "assets")

  abbrev pub handler_of : Resource F → Handler F
  handler_of res = if is_gzip res then gzip_header res.asset_files else files res.asset_files

  unfoldable pub add_resources :
      List (Resource F) → Dict Bytes (ServingAsset F) → Dict Bytes (ServingAsset F)
  add_resources [] cache = cache
  add_resources (res ∷ rest) cache = add_resources rest (
      if is_assets res
      then add_assets (is_gzip res) (handler_of res) res.asset_names cache
      else cache)

  -- `groupAssets`
  unfoldable pub group_assets : List (Resource F) → Dict Bytes (ServingAsset F)
  group_assets resources = add_resources resources []
