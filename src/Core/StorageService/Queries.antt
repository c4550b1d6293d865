-- ===== src/Core/StorageService/Queries.antt =====
-- What queries do to a store and to what they write to.
use sprintframework.Common.{
  Bool, true, false, Option, none, some, List, [], ◌∷◌, ◌++◌, ◌≡◌, refl, sym, ap, ◌∙◌,
}
use sprintframework.Common.{
  Bytes, codes, ◌==◌, bytes_eq, if◌then◌else◌, ok, Result-cases, ==_self, inl, inr, Bool-cases,
  Option-cases,
}
use sprintframework.Common.Dict
use sprintframework.Common.Dict.{Dict}
use sprintframework.Core.Store.{Store, Visitor, IsLawful, walk}
use sprintframework.Core.StorageService.{
  interrupted, Codec, set_args, Failure, told, tell, get_query, updated, set_query, listed,
  dump_entry, scan_entry, search_entry, query_store, Storage, execute_query,
}
use mathlib.Core.Path.{subst}

lookup-insert_other :
    {V : Type 0} (other name : Bytes) (v : V) (d : Dict Bytes V)
    → (other == name) ≡ false
    → Dict.lookup other (Dict.insert name v d) ≡ Dict.lookup other d
lookup-insert_other other name v d ne = rw (Dict.lookup-insert other name v d, ne) refl

module _ (S : Store) (L : IsLawful S) (K : Codec) {W : Type 0} (cb : W → Bytes → W × Bool) where
  updated_state : (w : W) (r : Option S.Error × S.State) → r.0 ≡ none → (updated S K cb w r).1 ≡ r.1
  unfolding updated told
  updated_state w (none, s) h = refl
  updated_state w (some e, s) h = refl

  set_query_lem :
      (w : W) (args key text value : Bytes) (s : S.State)
      → set_args args ≡ some (key, text)
      → K.decode text ≡ some value
      → (S.set s key value).0 ≡ none
      → (set_query S K cb w args s).1 ≡ (S.set s key value).1
  unfolding set_query
  set_query_lem w args key text value s parsed decoded done =
      rw (parsed, set_query) (rw decoded (updated_state w (S.set s key value) done))

  get_query_lem :
      (w : W) (key value : Bytes) (s : S.State)
      → S.get s key ≡ ok value
      → get_query S K cb w key s ≡ (
        (if (cb w (K.encode value)).1 then none else some interrupted),
        s,
        (cb w (K.encode value)).0,
      )
  unfolding get_query told tell
  get_query_lem w key value s e = rw (e, get_query) refl

  query_store_set :
      (w : W) (available : List Bytes) (args : Bytes) (s : S.State)
      → query_store S K cb w available (codes "set") args s ≡ set_query S K cb w args s
  unfolding query_store bytes_eq
  query_store_set w available args s = refl

  query_store_get :
      (w : W) (available : List Bytes) (args : Bytes) (s : S.State)
      → query_store S K cb w available (codes "get") args s ≡ get_query S K cb w args s
  unfolding query_store bytes_eq
  query_store_get w available args s = refl

  -- A value that a `set` query has stored is what a `get` query with its key tells: the base64 of
  -- the bytes that the text of the value stands for, as one content, and the store stays.
  pub query_get-set :
      (v w : W) (available : List Bytes) (args key text value : Bytes) (s : S.State)
      → set_args args ≡ some (key, text)
      → K.decode text ≡ some value
      → (S.set s key value).0 ≡ none
      → let u = (query_store S K cb v available (codes "set") args s).1 in
        query_store S K cb w available (codes "get") key u ≡ (
          (if (cb w (K.encode value)).1 then none else some interrupted),
          u,
          (cb w (K.encode value)).0,
        )
  query_get-set v w available args key text value s parsed decoded done =
      let written = (S.set s key value).1 in
      let same = query_store_set v available args s in
      let u = (query_store S K cb v available (codes "set") args s).1 in
      let reached : u ≡ written =
        ap (λ r. r.1) same ∙ set_query_lem v args key text value s parsed decoded done in
      let value_kept : (if key == key then ok value else S.get s key) ≡ ok value =
        rw (==_self key) refl in
      let kept : S.get u key ≡ ok value =
        ap (λ x. S.get x key) reached ∙ (L.get-set s key value key done ∙ value_kept) in
      query_store_get w available key u ∙ get_query_lem w key value u kept

  -- Every query leaves the stores of other names as they are.
  pub execute_query_others :
      (w : W) (name other query : Bytes) (t : Storage S K)
      → (other == name) ≡ false
      → Dict.lookup other (execute_query S K cb w name query t).1.store_map
        ≡ Dict.lookup other t.store_map
  unfolding execute_query
  execute_query_others w name other query t ne =
      elim (Option-cases (Dict.lookup name t.store_map)) [
        | inl e ↦ rw (e, execute_query) refl
        | inr (s, e) ↦ rw (e, execute_query) (lookup-insert_other other name _ t.store_map ne)
      ]

  -- What the calls of the callback keep, a whole query keeps.
  module _ (P : W → Type 0) (keep : (w : W) (b : Bytes) → P w → P (cb w b).0) where
    told_keeps : (w : W) (content : Bytes) (s : S.State) → P w → P (told S K cb w content s).2
    unfolding told tell
    told_keeps w content s p = keep w content p

    get_query_keeps : (w : W) (key : Bytes) (s : S.State) → P w → P (get_query S K cb w key s).2
    unfolding get_query
    get_query_keeps w key s p = elim (Result-cases (S.get s key)) [
      | inl (value, e) ↦ rw (e, get_query) (told_keeps w (K.encode value) s p)
      | inr (x, e) ↦ rw (e, get_query) p
    ]

    updated_keeps : (w : W) (r : Option S.Error × S.State) → P w → P (updated S K cb w r).2
    unfolding updated
    updated_keeps w (none, s) p = told_keeps w (codes "OK") s p
    updated_keeps w (some e, s) p = p

    set_query_keeps : (w : W) (args : Bytes) (s : S.State) → P w → P (set_query S K cb w args s).2
    unfolding set_query
    set_query_keeps w args s p = elim (Option-cases (set_args args)) [
      | inl e ↦ rw (e, set_query) p
      | inr ((key, text), e) ↦
          rw (e, set_query)
            (elim (Option-cases (K.decode text)) [
              | inl d ↦ rw d p
              | inr (value, d) ↦ rw d (updated_keeps w (S.set s key value) p)
            ])
    ]

    walk_keeps :
        (visit : Visitor W)
        → ((w : W) (e : Bytes × Bytes) → P w → P (visit w e).0)
        → (w : W) (es : List (Bytes × Bytes)) → P w
        → P (walk W visit w es)
    walk_keeps visit kept w [] p = p
    walk_keeps visit kept w (e ∷ es) p = elim (Bool-cases (visit w e).1) [
      | inl h ↦ rw h (walk_keeps visit kept (visit w e).0 es (kept w e p))
      | inr h ↦ rw h (kept w e p)
    ]

    enumerate_keeps :
        (visit : Visitor W)
        → ((w : W) (e : Bytes × Bytes) → P w → P (visit w e).0)
        → (w : W) (prefix : Bytes) (s : S.State) → P w
        → P (S.enumerate s prefix W visit w).0
    enumerate_keeps visit kept w prefix s p =
        subst P (sym (L.enumerate-walk s prefix W visit w))
          (walk_keeps visit kept w (L.entries s prefix) p)

    listed_keeps :
        (visit : Visitor W)
        → ((w : W) (e : Bytes × Bytes) → P w → P (visit w e).0)
        → (w : W) (prefix : Bytes) (s : S.State) → P w
        → P (listed S K (S.enumerate s prefix W visit w) s).2
    unfolding listed
    listed_keeps visit kept w prefix s p = enumerate_keeps visit kept w prefix s p

    search_keeps :
        (pattern : Bytes) (w : W) (e : Bytes × Bytes) → P w → P (search_entry S K cb pattern w e).0
    search_keeps pattern w (key, value) p = elim (Bool-cases (K.matches pattern key)) [
      | inl h ↦ rw h (keep w key p)
      | inr h ↦ rw h p
    ]

    branch_keeps :
        (b : Bool) (x y : Failure S K × S.State × W) → P x.2 → P y.2 → P (if b then x else y).2
    branch_keeps true x y px py = px
    branch_keeps false x y px py = py

    pub query_store_keeps :
        (w : W) (available : List Bytes) (cmd args : Bytes) (s : S.State)
        → P w
        → P (query_store S K cb w available cmd args s).2
    unfolding query_store
    query_store_keeps w available cmd args s p =
        (branch_keeps (cmd == codes "help") _ _ (told_keeps w _ s p) (
          branch_keeps (cmd == codes "list") _ _ (told_keeps w _ s p) (
            branch_keeps (cmd == codes "get") _ _ (get_query_keeps w args s p) (
              branch_keeps (cmd == codes "set") _ _ (set_query_keeps w args s p) (
                branch_keeps (cmd == codes "rm") _ _ (updated_keeps w (S.remove s args) p) (
                  branch_keeps (cmd == codes "dump") _ _
                    (listed_keeps (dump_entry S K cb)
                      (λ v (key, value). keep v (key ++ (codes ", " ++ K.encode value))) w args s p)
                    (branch_keeps (cmd == codes "scan") _ _
                      (listed_keeps (scan_entry S K cb) (λ v (key, value). keep v key) w args s p)
                      (branch_keeps (cmd == codes "search") _ _
                        (listed_keeps (search_entry S K cb args) (search_keeps args) w [] s p)
                        p))))))))
