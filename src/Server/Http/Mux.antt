-- ===== src/Server/Http/Mux.antt =====
-- `Object` of sprintserver/http_server_factory.go: the mux of an HTTP server. The pages, the API and
-- the handler of the certificates are of other packages; the groups stand for the entries of
-- `groupAssets` in the order in which the iteration over the map takes them.
pub mod Laws
use sprintframework.Common.{◌+◌, arith}
use sprintframework.Common.{Bool, ◌||◌, List, [], ◌∷◌, ◌++◌}
use sprintframework.Common.{
  Bytes, codes, ◌==◌, nat_eq, bytes_eq, contains, if◌then◌else◌, Result, ok, err, ◌>>=◌,
}
use sprintframework.Common.Dict
use sprintframework.Common.Dict.{Dict}
use sprintframework.Server.Http.{ServingAsset, parse_options, enabled}

-- What is registered: the gateway's mux, the handler of the challenges, a page or an asset.
pub data Entry (P F : Type 0) : Type 0 where
  api : Entry P F
  challenge : Entry P F
  page : P → Entry P F
  asset : ServingAsset F → Entry P F

-- Why there is no server.
pub data Failure : Type 0 where
  no_bind_address : Failure
  panicked : Bytes → Failure

pub record Page (P : Type 0) : Type 0 where
  pub pattern : Bytes
  pub router : P

-- What the factory reads of its context.
pub record Setup (P F : Type 0) : Type 0 where
  pub bind_address : Bytes
  pub options : Bytes
  pub autocert : Bool
  pub pages : List (Page P)
  pub groups : List (Bytes × ServingAsset F)

module _ {P F : Type 0} where
  -- `Handle` of net/http panics on an empty pattern and on one that is registered.
  unfoldable pub handle :
      Bytes → Entry P F → Dict Bytes (Entry P F) → Result Failure (Dict Bytes (Entry P F))
  handle pattern h mux =
      if pattern == [] || contains (Dict.keys mux) pattern
      then err (panicked pattern)
      else ok (mux ++ ((pattern, h) ∷ []))

  -- The loop over the pages: a pattern that was visited is skipped.
  unfoldable pub add_pages :
      List (Page P) → List Bytes → Dict Bytes (Entry P F) → Result Failure (Dict Bytes (Entry P F))
  add_pages [] visited mux = ok mux
  add_pages (p ∷ pages) visited mux =
      if contains visited p.pattern
      then add_pages pages visited mux
      else handle p.pattern (page p.router) mux >>= add_pages pages (p.pattern ∷ visited)

  -- The loop over the assets: a pattern that was visited is reported, and registered as well.
  unfoldable pub add_groups :
      List (Bytes × ServingAsset F)
      → Dict Bytes (Entry P F)
      → Result Failure (Dict Bytes (Entry P F))
  add_groups [] mux = ok mux
  add_groups ((pattern, s) ∷ groups) mux = handle pattern (asset s) mux >>= add_groups groups

  -- The patterns that the options reserve.
  unfoldable pub reserve :
      Bool → Bool → Dict Bytes (Entry P F) → Result Failure (Dict Bytes (Entry P F))
  reserve gateway autocert mux =
      (if gateway then handle (codes "/api/") api mux else ok mux) >>= (λ m.
        if autocert then handle (codes "/.well-known/acme-challenge/") challenge m else ok m)

  -- `Object`, as far as the handlers of the server.
  unfoldable pub object : Setup P F → Result Failure (Dict Bytes (Entry P F))
  object t =
      if t.bind_address == []
      then err no_bind_address
      else (let options = parse_options t.options in
          reserve (enabled options (codes "gateway")) t.autocert []
          >>= (λ m. if enabled options (codes "pages") then add_pages t.pages [] m else ok m)
          >>= (λ m. if enabled options (codes "assets") then add_groups t.groups m else ok m))
