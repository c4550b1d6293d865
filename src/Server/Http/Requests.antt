-- ===== src/Server/Http/Requests.antt =====
-- A request on a server that serves the assets alone. The choice of a pattern by the mux of net/http
-- is a parameter.
use sprintframework.Common.{ℕ, ◌≡◌, ◌≢◌, inl, inr, refl, sym, ap, ◌∙◌, arith}
use sprintframework.Common.{Bool, true, false, ◌&&◌, ◌||◌, Option, none, some, List, [], ◌∷◌}
use sprintframework.Common.{Bytes, codes, ◌==◌, nat_eq, bytes_eq, if◌then◌else◌, contains, All}
use sprintframework.Common.{Option-cases, Bool-cases}
use sprintframework.Common.Dict
use sprintframework.Common.Dict.{Dict}
use sprintframework.Server.Http.{
  Handler, ServingAsset, Served, not_found, Resource, asset_at, put_asset, add_asset, add_assets,
  is_gzip, is_assets, handler_of, add_resources, group_assets,
}
use sprintframework.Server.Http.Assets.{
  serves, any_serves, last_of, accepts, chosen, served_at, served_at_lem,
}

abbrev pub ends_in_slash : Bytes → Bool
ends_in_slash [] = false
ends_in_slash (c ∷ []) = c == b'/'
ends_in_slash (c ∷ d ∷ s) = ends_in_slash (d ∷ s)

abbrev pub is_rooted : Bytes → Bool
is_rooted [] = false
is_rooted (c ∷ s) = c == b'/'

-- The choice of the mux among the patterns that are registered, for a rooted path without dots and
-- double slashes.
abbrev pub Route : Type 0
Route = List Bytes → Bytes → Option Bytes

-- What net/http documents of it, as far as patterns go of which only the root stands for a subtree:
-- a path that is registered is chosen, and the root has all other paths.
pub record IsMux (route : Route) : Type 0 where
  pub exact :
      (patterns : List Bytes) (path : Bytes)
      → is_rooted path ≡ true
      → contains patterns path ≡ true
      → route patterns path ≡ some path
  pub elsewhere :
      (patterns : List Bytes) (path : Bytes)
      → is_rooted path ≡ true
      → contains patterns path ≡ false
      → ((p : Bytes) → contains patterns p ≡ true → ends_in_slash p ≡ true → p ≡ codes "/")
      → route patterns path ≡ (if contains patterns (codes "/") then some (codes "/") else none)

-- No asset is named like a directory.
abbrev pub NoDirectory : List Bytes → Type 0
NoDirectory names = All (λ n. ends_in_slash n ≡ false) names

ends_in_slash-cons : (c : ℕ) (s : Bytes) → s ≢ [] → ends_in_slash (c ∷ s) ≡ ends_in_slash s
ends_in_slash-cons c [] h = absurd (h refl)
ends_in_slash-cons c (d ∷ s) h = refl

serves-root :
    (p name : Bytes)
    → ends_in_slash name ≡ false
    → serves p name ≡ true
    → ends_in_slash p ≡ true
    → p ≡ codes "/"
serves-root p [] n h e = ground (arith, h)
serves-root p (c ∷ s) n h e = ground (arith, h, e, n)

any_serves-root :
    (p : Bytes) (names : List Bytes)
    → NoDirectory names
    → any_serves p names ≡ true
    → ends_in_slash p ≡ true
    → p ≡ codes "/"
any_serves-root p [] d h e = absurd (ground (arith, h))
any_serves-root p (name ∷ names) (n, d) h e = elim (Bool-cases (serves p name)) [
  | inl y ↦ serves-root p name n y e
  | inr y ↦ any_serves-root p names d (ground (arith, h, y)) e
]

contains-keys :
    {V : Type 0} (m : Dict Bytes V) (p : Bytes)
    → contains (Dict.keys m) p
      ≡ elim (Dict.lookup p m) as (λ _. Bool) [ none ↦ false | some v ↦ true ]
unfolding Dict.keys Dict.lookup
contains-keys [] p = refl
contains-keys ((k, v) ∷ m) p = ground (arith, contains-keys m p)

module _ {F : Type 0} where
  -- Whether an asset is served at the pattern.
  abbrev pub offered : Bytes → List (Resource F) → Bool
  offered pattern [] = false
  offered pattern (res ∷ rest) =
      (is_assets res && any_serves pattern res.asset_names) || offered pattern rest

  abbrev pub present : Option (ServingAsset F) → Bool
  present none = false
  present (some s) = true

  put_asset-present :
      (gzip : Bool) (h : Handler F) (pattern p : Bytes) (cache : Dict Bytes (ServingAsset F))
      → present (Dict.lookup p (put_asset gzip h pattern cache))
        ≡ (p == pattern || present (Dict.lookup p cache))
  unfolding put_asset
  put_asset-present true h pattern p cache = ground (
    arith,
    Dict.lookup-insert p pattern (record (asset_at pattern cache) { gzip_h = some h }) cache,
  )
  put_asset-present false h pattern p cache = ground (
    arith,
    Dict.lookup-insert p pattern (record (asset_at pattern cache) { plain_h = some h }) cache,
  )

  add_assets-present :
      (gzip : Bool) (h : Handler F) (names : List Bytes) (p : Bytes)
      (cache : Dict Bytes (ServingAsset F))
      → present (Dict.lookup p (add_assets gzip h names cache))
        ≡ (any_serves p names || present (Dict.lookup p cache))
  unfolding add_assets add_asset
  add_assets-present gzip h [] p cache = refl
  add_assets-present gzip h (name ∷ names) p cache = ground (
    arith,
    add_assets-present gzip h names p (add_asset gzip h name cache),
    put_asset-present gzip h (b'/' ∷ name) p cache,
    put_asset-present gzip h (b'/' ∷ []) p (put_asset gzip h (b'/' ∷ name) cache),
  )

  add_resources-present :
      (resources : List (Resource F)) (p : Bytes) (cache : Dict Bytes (ServingAsset F))
      → present (Dict.lookup p (add_resources resources cache))
        ≡ (offered p resources || present (Dict.lookup p cache))
  unfolding add_resources
  add_resources-present [] p cache = refl
  add_resources-present (res ∷ rest) p cache = ground (
    arith,
    add_resources-present rest p (
        if is_assets res
        then add_assets (is_gzip res) (handler_of res) res.asset_names cache
        else cache),
    add_assets-present (is_gzip res) (handler_of res) res.asset_names p cache,
  )

  -- A pattern is registered for the assets that are served at it.
  pub group_assets-present :
      (resources : List (Resource F)) (p : Bytes)
      → present (Dict.lookup p (group_assets resources)) ≡ offered p resources
  unfolding group_assets
  group_assets-present resources p =
      ground (arith, add_resources-present resources p [], Dict.lookup-nil {V = ServingAsset F} p)

  keys-offered :
      (resources : List (Resource F)) (p : Bytes)
      → contains (Dict.keys (group_assets resources)) p ≡ offered p resources
  keys-offered resources p =
      contains-keys (group_assets resources) p
      ∙ present-eq (Dict.lookup p (group_assets resources))
      ∙ group_assets-present resources p
    where
      present-eq :
          (o : Option (ServingAsset F))
          → (elim o as (λ _. Bool) [ none ↦ false | some v ↦ true ]) ≡ present o
      present-eq none = refl
      present-eq (some s) = refl

  offered-root :
      (resources : List (Resource F)) (p : Bytes)
      → All (λ (res : Resource F). NoDirectory res.asset_names) resources
      → offered p resources ≡ true
      → ends_in_slash p ≡ true
      → p ≡ codes "/"
  offered-root [] p d h e = absurd (ground (arith, h))
  offered-root (res ∷ rest) p (n, d) h e = elim (Bool-cases (any_serves p res.asset_names)) [
    | inl y ↦ any_serves-root p res.asset_names n y e
    | inr y ↦ offered-root rest p d (ground (arith, h, y)) e
  ]

  -- What a request for a path gets of the mux that has the entries of `groupAssets`.
  abbrev pub requested : Route → Bytes → Bytes → List (Resource F) → Served F
  requested route path header resources = elim (route (Dict.keys (group_assets resources)) path) [
    | none ↦ not_found
    | some p ↦ served_at p header resources
  ]

  served_at-absent :
      (p header : Bytes) (resources : List (Resource F))
      → offered p resources ≡ false
      → served_at p header resources ≡ not_found
  served_at-absent p header resources h =
      elim (Option-cases (Dict.lookup p (group_assets resources))) [
        | inl e ↦ ground (arith, e)
        | inr (s, e) ↦ absurd (ground (arith, group_assets-present resources p, h, e))
      ]

  requested-route :
      (route : Route) (path header p : Bytes) (resources : List (Resource F))
      → route (Dict.keys (group_assets resources)) path ≡ some p
      → requested route path header resources ≡ served_at p header resources
  requested-route route path header p resources e =
      ap
        (λ o. elim o as (λ _. Served F) [
          | none ↦ not_found
          | some q ↦ served_at q header resources
        ])
        e

  requested-elsewhere :
      (route : Route) (path header : Bytes) (resources : List (Resource F))
      → IsMux route
      → All (λ (res : Resource F). NoDirectory res.asset_names) resources
      → is_rooted path ≡ true
      → offered path resources ≡ false
      → requested route path header resources ≡ served_at (codes "/") header resources
  requested-elsewhere route path header resources M d i h =
      let keys = Dict.keys (group_assets resources) in
      let root =
        M.elsewhere keys path i (keys-offered resources path ∙ h)
          (λ p c. offered-root resources p d (sym (keys-offered resources p) ∙ c)) in
      elim (Bool-cases (offered (codes "/") resources)) [
        | inl y ↦ requested-route route path header (codes "/") resources (
            root
            ∙ ap (λ b. if b then some (codes "/") else none)
                (keys-offered resources (codes "/") ∙ y))
        | inr y ↦
            ap
              (λ o. elim o as (λ _. Served F) [
                | none ↦ not_found
                | some q ↦ served_at q header resources
              ])
              (root
                ∙ ap (λ b. if b then some (codes "/") else none)
                    (keys-offered resources (codes "/") ∙ y))
            ∙ sym (served_at-absent (codes "/") header resources y)
      ]

  pub requested_lem :
      (route : Route) (path header : Bytes) (resources : List (Resource F))
      → IsMux route
      → All (λ (res : Resource F). NoDirectory res.asset_names) resources
      → is_rooted path ≡ true
      → requested route path header resources ≡ (
          let p = if offered path resources then path else codes "/" in
          chosen (last_of p true resources none) (last_of p false resources none) (accepts header))
  requested_lem route path header resources M d i = elim (Bool-cases (offered path resources)) [
    | inl h ↦
        rw (h, if◌then◌else◌)
          (requested-route route path header path resources (
              M.exact (Dict.keys (group_assets resources)) path i (keys-offered resources path ∙ h))
            ∙ served_at_lem path header resources)
    | inr h ↦
        rw (h, if◌then◌else◌)
          (requested-elsewhere route path header resources M d i h
            ∙ served_at_lem (codes "/") header resources)
  ]
