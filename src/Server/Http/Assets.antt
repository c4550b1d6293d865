-- ===== src/Server/Http/Assets.antt =====
-- Which handler an asset's pattern gets.
use sprintframework.Common.{◌≡◌, inl, inr, refl, ap, ◌∙◌, arith}
use sprintframework.Common.{Bool, true, false, not, ◌&&◌, ◌||◌, Option, none, some, List, [], ◌∷◌}
use sprintframework.Common.{Bytes, codes, ◌==◌, nat_eq, bytes_eq, if◌then◌else◌}
use sprintframework.Common.{Option-cases, map, contains}
use sprintframework.Strings.{split, trim_space}
use sprintframework.Common.Dict
use sprintframework.Common.Dict.{Dict}
use sprintframework.Server.Http.{
  Handler, ServingAsset, Served, by, not_found, Resource, serve_asset, serve_plain, asset_at,
  put_asset, add_asset, add_assets, is_gzip, is_assets, handler_of, add_resources, group_assets,
  accept_gzip, any_gzip,
}

-- Whether an asset of the name is served at the pattern: at its own path, and the index at the
-- root too.
abbrev pub serves : Bytes → Bytes → Bool
serves pattern name =
    pattern == (b'/' ∷ name) || (name == codes "index.html" && pattern == (b'/' ∷ []))

abbrev pub any_serves : Bytes → List Bytes → Bool
any_serves pattern [] = false
any_serves pattern (name ∷ names) = serves pattern name || any_serves pattern names

abbrev agrees : Bool → Bool → Bool
agrees q gzip = if q then gzip else not gzip

-- Whether gzip is one of the parts of the header Accept-Encoding, without the blanks around it.
abbrev pub accepts : Bytes → Bool
accepts header = contains (map trim_space (split header b',')) (codes "gzip")

any_gzip-contains :
    (parts : List Bytes) → any_gzip parts ≡ contains (map trim_space parts) (codes "gzip")
unfolding any_gzip
any_gzip-contains [] = refl
any_gzip-contains (part ∷ parts) = ground (arith, any_gzip-contains parts)

module _ {F : Type 0} where
  -- The resources for a pattern, packed or plain.
  abbrev pub offers : Bytes → Bool → Resource F → Bool
  offers pattern gzip res =
      is_assets res
      && (any_serves pattern res.asset_names && (if gzip then is_gzip res else not (is_gzip res)))

  -- The handler of the last resource for a pattern, or the one from before.
  abbrev pub last_of : Bytes → Bool → List (Resource F) → Option (Handler F) → Option (Handler F)
  last_of pattern gzip [] h = h
  last_of pattern gzip (res ∷ rest) h =
      last_of pattern gzip rest (if offers pattern gzip res then some (handler_of res) else h)

  abbrev packed : Option (ServingAsset F) → Option (Handler F)
  packed none = none
  packed (some s) = s.gzip_h

  abbrev plain : Option (ServingAsset F) → Option (Handler F)
  plain none = none
  plain (some s) = s.plain_h

  abbrev side : Bool → Option (ServingAsset F) → Option (Handler F)
  side true o = packed o
  side false o = plain o

  put_asset-side :
      (q gzip : Bool) (h : Handler F) (pattern p : Bytes) (cache : Dict Bytes (ServingAsset F))
      → side q (Dict.lookup p (put_asset gzip h pattern cache))
        ≡ (if p == pattern && agrees q gzip then some h else side q (Dict.lookup p cache))
  unfolding put_asset asset_at
  put_asset-side true true h pattern p cache = ground (
    arith,
    Dict.lookup-insert p pattern (record (asset_at pattern cache) { gzip_h = some h }) cache,
  )
  put_asset-side true false h pattern p cache = ground (
    arith,
    Dict.lookup-insert p pattern (record (asset_at pattern cache) { plain_h = some h }) cache,
  )
  put_asset-side false true h pattern p cache = ground (
    arith,
    Dict.lookup-insert p pattern (record (asset_at pattern cache) { gzip_h = some h }) cache,
  )
  put_asset-side false false h pattern p cache = ground (
    arith,
    Dict.lookup-insert p pattern (record (asset_at pattern cache) { plain_h = some h }) cache,
  )

  add_asset-side :
      (q gzip : Bool) (h : Handler F) (name p : Bytes) (cache : Dict Bytes (ServingAsset F))
      → side q (Dict.lookup p (add_asset gzip h name cache))
        ≡ (if serves p name && agrees q gzip then some h else side q (Dict.lookup p cache))
  unfolding add_asset
  add_asset-side q gzip h name p cache = ground (
    arith,
    put_asset-side q gzip h (b'/' ∷ name) p cache,
    put_asset-side q gzip h (b'/' ∷ []) p (put_asset gzip h (b'/' ∷ name) cache),
  )

  add_assets-side :
      (q gzip : Bool) (h : Handler F) (names : List Bytes) (p : Bytes)
      (cache : Dict Bytes (ServingAsset F))
      → side q (Dict.lookup p (add_assets gzip h names cache))
        ≡ (if any_serves p names && agrees q gzip then some h else side q (Dict.lookup p cache))
  unfolding add_assets
  add_assets-side q gzip h [] p cache = refl
  add_assets-side q gzip h (name ∷ names) p cache = ground (
    arith,
    add_assets-side q gzip h names p (add_asset gzip h name cache),
    add_asset-side q gzip h name p cache,
  )

  round_side :
      (q : Bool) (res : Resource F) (p : Bytes) (cache : Dict Bytes (ServingAsset F))
      → side q (
          Dict.lookup p (
            if is_assets res
            then add_assets (is_gzip res) (handler_of res) res.asset_names cache
            else cache))
        ≡ (if offers p q res then some (handler_of res) else side q (Dict.lookup p cache))
  round_side q res p cache =
      ground (arith, add_assets-side q (is_gzip res) (handler_of res) res.asset_names p cache)

  add_resources-side :
      (q : Bool) (resources : List (Resource F)) (p : Bytes) (cache : Dict Bytes (ServingAsset F))
      → side q (Dict.lookup p (add_resources resources cache))
        ≡ last_of p q resources (side q (Dict.lookup p cache))
  unfolding add_resources
  add_resources-side q [] p cache = refl
  add_resources-side q (res ∷ rest) p cache =
      add_resources-side q rest p (
        if is_assets res
        then add_assets (is_gzip res) (handler_of res) res.asset_names cache
        else cache)
      ∙ ap (last_of p q rest) (round_side q res p cache)

  -- What the entry of a pattern makes of a request.
  abbrev pub served_at : Bytes → Bytes → List (Resource F) → Served F
  served_at pattern header resources = elim (Dict.lookup pattern (group_assets resources)) [
    | none ↦ not_found
    | some s ↦ serve_asset s header
  ]

  -- The packed handler if the client accepts it, or else the plain one.
  unfoldable pub chosen : Option (Handler F) → Option (Handler F) → Bool → Served F
  chosen none none accepted = not_found
  chosen none (some h) accepted = by h
  chosen (some g) none accepted = if accepted then by g else not_found
  chosen (some g) (some h) accepted = if accepted then by g else by h

  serve_side :
      (o : Option (ServingAsset F)) (header : Bytes)
      → (elim o as (λ _. Served F) [ none ↦ not_found | some s ↦ serve_asset s header ])
        ≡ chosen (packed o) (plain o) (accepts header)
  unfolding serve_asset serve_plain chosen accept_gzip
  serve_side none header = refl
  serve_side (some s) header = elim (Option-cases s.gzip_h) [
    | inl e ↦ ground arith
    | inr e ↦ ground (arith, any_gzip-contains (split header b','))
  ]

  -- The entry of a pattern serves by the last resource of packed assets with an asset for it, if
  -- the client accepts gzip and there is one, or else by the last such one of plain assets.
  pub served_at_lem :
      (pattern header : Bytes) (resources : List (Resource F))
      → served_at pattern header resources
        ≡ chosen
            (last_of pattern true resources none)
            (last_of pattern false resources none)
            (accepts header)
  unfolding group_assets
  served_at_lem pattern header resources =
      serve_side (Dict.lookup pattern (add_resources resources [])) header
      ∙ cc (
        add_resources-side true resources pattern [],
        add_resources-side false resources pattern [],
        Dict.lookup-nil {V = ServingAsset F} pattern,
      )
