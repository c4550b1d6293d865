-- ===== src/Server/Http/Mux/Laws.antt =====
-- Which patterns a server has in the end, and when there is no server.
use sprintframework.Common.{◌≡◌, inl, inr, refl, sym, ap, ◌∙◌, arith}
use sprintframework.Common.{
  Bool, true, false, not, ◌&&◌, ◌||◌, List, [], ◌∷◌, ◌++◌, append_assoc, append-nil,
}
use sprintframework.Common.{
  Bytes, codes, ◌==◌, nat_eq, bytes_eq, contains, if◌then◌else◌, Result, ok, err, ◌>>=◌, IsErr,
}
use sprintframework.Common.{Bool-cases, Result-cases, ==_of_eq, ==_of_ne}
use sprintframework.Common.Dict
use sprintframework.Common.Dict.{Dict}
use sprintframework.Server.Http.{ServingAsset, parse_options, enabled}
use sprintframework.Server.Http.Mux.{
  Entry, api, challenge, page, asset, Failure, no_bind_address, Page, Setup, handle, add_pages,
  add_groups, reserve, object,
}

module _ {P F : Type 0} where
  unfoldable register :
      List (Bytes × Entry P F) → Dict Bytes (Entry P F) → Result Failure (Dict Bytes (Entry P F))
  register [] mux = ok mux
  register ((p, h) ∷ es) mux = handle p h mux >>= register es

  -- The first page of each pattern.
  abbrev pub first_pages : List Bytes → List (Page P) → List (Bytes × Entry P F)
  first_pages visited [] = []
  first_pages visited (p ∷ pages) =
      if contains visited p.pattern
      then first_pages visited pages
      else (p.pattern, page p.router) ∷ first_pages (p.pattern ∷ visited) pages

  abbrev pub group_entries : List (Bytes × ServingAsset F) → List (Bytes × Entry P F)
  group_entries [] = []
  group_entries ((p, s) ∷ groups) = (p, asset s) ∷ group_entries groups

  abbrev pub api_entries : Setup P F → List (Bytes × Entry P F)
  api_entries t =
      if enabled (parse_options t.options) (codes "gateway") then (codes "/api/", api) ∷ [] else []

  abbrev pub challenge_entries : Setup P F → List (Bytes × Entry P F)
  challenge_entries t =
      if t.autocert then (codes "/.well-known/acme-challenge/", challenge) ∷ [] else []

  abbrev pub page_entries : Setup P F → List (Bytes × Entry P F)
  page_entries t =
      if enabled (parse_options t.options) (codes "pages") then first_pages [] t.pages else []

  abbrev pub asset_entries : Setup P F → List (Bytes × Entry P F)
  asset_entries t =
      if enabled (parse_options t.options) (codes "assets") then group_entries t.groups else []

  -- The entries that the options ask for.
  abbrev pub entries : Setup P F → List (Bytes × Entry P F)
  entries t = ((api_entries t ++ challenge_entries t) ++ page_entries t) ++ asset_entries t

  -- No pattern is empty, and none stands twice.
  abbrev pub fit : List Bytes → List (Bytes × Entry P F) → Bool
  fit seen [] = true
  fit seen ((p, h) ∷ es) = not (p == [] || contains seen p) && fit (seen ++ (p ∷ [])) es

  keys-append_one :
      (mux : Dict Bytes (Entry P F)) (p : Bytes) (h : Entry P F)
      → Dict.keys (mux ++ ((p, h) ∷ [])) ≡ Dict.keys mux ++ (p ∷ [])
  unfolding Dict.keys
  keys-append_one [] p h = refl
  keys-append_one ((q, g) ∷ mux) p h = ap (λ ks. q ∷ ks) (keys-append_one mux p h)

  register-append :
      (xs ys : List (Bytes × Entry P F)) (mux : Dict Bytes (Entry P F))
      → register (xs ++ ys) mux ≡ (register xs mux >>= register ys)
  unfolding register
  register-append [] ys mux = refl
  register-append ((p, h) ∷ xs) ys mux = elim (Result-cases (handle p h mux)) [
    | inl (m, e) ↦ rw (e) (register-append xs ys m)
    | inr (x, e) ↦ rw (e) refl
  ]

  register-fit :
      (es : List (Bytes × Entry P F)) (mux : Dict Bytes (Entry P F))
      → fit (Dict.keys mux) es ≡ true
      → register es mux ≡ ok (mux ++ es)
  unfolding register handle
  register-fit [] mux f = ap ok (sym (append-nil mux))
  register-fit ((p, h) ∷ es) mux f = elim (Bool-cases (p == [] || contains (Dict.keys mux) p)) [
    | inl e ↦ ground (arith, f, e)
    | inr e ↦ ground (
      arith,
      register-fit es (mux ++ ((p, h) ∷ [])),
      keys-append_one mux p h,
      append_assoc mux ((p, h) ∷ []) es,
      f,
      e,
    )
  ]

  register-unfit :
      (es : List (Bytes × Entry P F)) (mux : Dict Bytes (Entry P F))
      → fit (Dict.keys mux) es ≡ false
      → IsErr (register es mux)
  unfolding register handle
  register-unfit [] mux f = ground arith
  register-unfit ((p, h) ∷ es) mux f = elim (Bool-cases (p == [] || contains (Dict.keys mux) p)) [
    | inl e ↦ ground (arith, e)
    | inr e ↦
        ground (arith, register-unfit es (mux ++ ((p, h) ∷ [])), keys-append_one mux p h, f, e)
  ]

  add_pages-register :
      (pages : List (Page P)) (visited : List Bytes) (mux : Dict Bytes (Entry P F))
      → add_pages pages visited mux ≡ register (first_pages visited pages) mux
  unfolding add_pages register
  add_pages-register [] visited mux = refl
  add_pages-register (p ∷ pages) visited mux = elim (Bool-cases (contains visited p.pattern)) [
    | inl e ↦ rw (e, if◌then◌else◌) (add_pages-register pages visited mux)
    | inr e ↦
        rw (e, if◌then◌else◌)
          (elim (Result-cases (handle {P = P} {F = F} p.pattern (page p.router) mux)) [
            | inl (m, q) ↦ rw (q) (add_pages-register pages (p.pattern ∷ visited) m)
            | inr (x, q) ↦ rw (q) refl
          ])
  ]

  add_groups-register :
      (groups : List (Bytes × ServingAsset F)) (mux : Dict Bytes (Entry P F))
      → add_groups groups mux ≡ register (group_entries groups) mux
  unfolding add_groups register
  add_groups-register [] mux = refl
  add_groups-register ((p, s) ∷ groups) mux =
      elim (Result-cases (handle {P = P} {F = F} p (asset s) mux)) [
        | inl (m, q) ↦ rw (q) (add_groups-register groups m)
        | inr (x, q) ↦ rw (q) refl
      ]

  handle_one :
      (p : Bytes) (h : Entry P F) (mux : Dict Bytes (Entry P F))
      → handle p h mux ≡ register ((p, h) ∷ []) mux
  unfolding register
  handle_one p h mux = elim (Result-cases (handle p h mux)) [
    | inl (m, e) ↦ rw (e) refl
    | inr (x, e) ↦ rw (e) refl
  ]

  -- A step that an option switches on, after the entries before it.
  step-register :
      (xs ys : List (Bytes × Entry P F)) (b : Bool)
      (f : Dict Bytes (Entry P F) → Result Failure (Dict Bytes (Entry P F)))
      (mux : Dict Bytes (Entry P F))
      → ((m : Dict Bytes (Entry P F)) → f m ≡ register ys m)
      → (register xs mux >>= (λ m. if b then f m else ok m))
        ≡ register (xs ++ (if b then ys else [])) mux
  unfolding register
  step-register xs ys b f mux e =
      rw (register-append xs (if b then ys else []) mux) (elim (Result-cases (register xs mux)) [
        | inl (m, q) ↦ elim (Bool-cases b) [ inl y ↦ rw (q, y) (e m) | inr n ↦ rw (q, n) refl ]
        | inr (x, q) ↦ rw (q) refl
      ])

  object-register : (t : Setup P F) → ¬ (t.bind_address ≡ []) → object t ≡ register (entries t) []
  unfolding object reserve register
  object-register t b =
      let o = parse_options t.options in
      let c = λ (m : Dict Bytes (Entry P F)).
        if t.autocert then handle (codes "/.well-known/acme-challenge/") challenge m else ok m in
      let g = λ (m : Dict Bytes (Entry P F)).
        if enabled o (codes "pages") then add_pages t.pages [] m else ok m in
      let h = λ (m : Dict Bytes (Entry P F)).
        if enabled o (codes "assets") then add_groups t.groups m else ok m in
      rw (==_of_ne t.bind_address [] b, if◌then◌else◌)
        (ap (λ (r : Result Failure (Dict Bytes (Entry P F))). r >>= c >>= g >>= h)
            (step-register [] ((codes "/api/", api) ∷ []) (enabled o (codes "gateway"))
              (handle (codes "/api/") api) [] (handle_one (codes "/api/") api))
          ∙ ap (λ (r : Result Failure (Dict Bytes (Entry P F))). r >>= g >>= h)
              (step-register (api_entries t)
                ((codes "/.well-known/acme-challenge/", challenge) ∷ []) t.autocert
                (handle (codes "/.well-known/acme-challenge/") challenge) []
                (handle_one (codes "/.well-known/acme-challenge/") challenge))
          ∙ ap (λ (r : Result Failure (Dict Bytes (Entry P F))). r >>= h)
              (step-register (api_entries t ++ challenge_entries t) (first_pages [] t.pages)
                (enabled o (codes "pages")) (add_pages t.pages []) []
                (add_pages-register t.pages []))
          ∙ step-register ((api_entries t ++ challenge_entries t) ++ page_entries t)
              (group_entries t.groups) (enabled o (codes "assets")) (add_groups t.groups) []
              (add_groups-register t.groups))

  -- With a bind address, the server is created exactly when no pattern of the wanted entries is
  -- empty or stands twice: the API and the challenges where they are enabled, then the first page
  -- of each pattern and every asset. The mux then holds these entries; otherwise, and without a
  -- bind address, there is an error.
  pub object_lem :
      (t : Setup P F)
      → (t.bind_address ≡ [] → object t ≡ err no_bind_address)
        × (¬ (t.bind_address ≡ []) → fit [] (entries t) ≡ true → object t ≡ ok (entries t))
        × (¬ (t.bind_address ≡ []) → fit [] (entries t) ≡ false → IsErr (object t))
  unfolding object Dict.keys
  object_lem t = (
    (λ e. rw (==_of_eq t.bind_address [] e, if◌then◌else◌) refl),
    (λ b f. object-register t b ∙ register-fit (entries t) [] f),
    (λ b f. rw (object-register t b) (register-unfit (entries t) [] f)),
  )
