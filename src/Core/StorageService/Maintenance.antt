-- ===== src/Core/StorageService/Maintenance.antt =====
-- What the commands that maintain a store leave as it was.
use sprintframework.Common.{
  ℕ, Bool, true, false, Option, none, some, List, [], ◌∷◌, ◌≡◌, refl, sym, ap, ◌∙◌, arith,
}
use sprintframework.Common.{
  Bytes, codes, ◌==◌, bytes_eq, if◌then◌else◌, Result, ok, err, inl, inr, Bool-cases, Option-cases,
  Result-cases, ==_self, eq_of_==,
}
use sprintframework.Common.Dict
use sprintframework.Common.Dict.{Dict}
use sprintframework.Strings.{has_prefix, has_suffix, to_lower}
use sprintframework.Strconv.{parse_uint}
use sprintframework.Core.Store.{Store, IsLawful}
use sprintframework.Core.StorageService.{Codec, Storage}
use sprintframework.Core.StorageService.Commands.{
  Managed, Files, CommandError, missing_storage_name, no_such_storage, missing_args, bad_ratio,
  bad_prefix, bad_since, unknown_command, failed, Reply, done, compact_command, drop_command,
  last_reply, dump_into, dump_command, restore_command, store_command, store_back, on_store,
  execute_command,
}

-- An error of the command itself, and none of the store or the files.
abbrev pub IsRejection : {E : Type 0} → Result (CommandError E) Bytes → Type 0
IsRejection (ok content) = ⊥
IsRejection (err (failed e)) = ⊥
IsRejection (err missing_storage_name) = Unit
IsRejection (err no_such_storage) = Unit
IsRejection (err missing_args) = Unit
IsRejection (err bad_ratio) = Unit
IsRejection (err bad_prefix) = Unit
IsRejection (err bad_since) = Unit
IsRejection (err unknown_command) = Unit

lookup-insert_same :
    {V : Type 0} (other name : Bytes) (v : V) (d : Dict Bytes V)
    → Dict.lookup name d ≡ some v
    → Dict.lookup other (Dict.insert name v d) ≡ Dict.lookup other d
lookup-insert_same other name v d h = elim (Bool-cases (other == name)) [
  | inl e ↦
      rw (Dict.lookup-insert other name v d, e)
        (sym h ∙ ap (λ k. Dict.lookup k d) (sym (eq_of_== other name e)))
  | inr e ↦ rw (Dict.lookup-insert other name v d, e) refl
]

lookup-insert_self :
    {V : Type 0} (name : Bytes) (v : V) (d : Dict Bytes V)
    → Dict.lookup name (Dict.insert name v d) ≡ some v
lookup-insert_self name v d = rw (Dict.lookup-insert name name v d, ==_self name) refl

module _ (S : Store) (K : Codec) (M : Managed S) (F : Files S.Error) where
  -- A rejected command has left the store and the files.
  abbrev IsAtomic : S.State → F.State → Reply S K M F × S.State × F.State → Type 0
  IsAtomic s f (r, u, g) = IsRejection r → (u ≡ s) × (g ≡ f)

  done-IsAtomic :
      (s : S.State) (f : F.State) (r : Option S.Error × S.State) → IsAtomic s f (done S K M F f r)
  unfolding done
  done-IsAtomic s f (none, u) h = absurd h
  done-IsAtomic s f (some e, u) h = absurd h

  compact-IsAtomic :
      (args : List Bytes) (s : S.State) (f : F.State)
      → IsAtomic s f (compact_command S K M F args s f)
  unfolding compact_command
  compact-IsAtomic [] s f = λ h. (refl, refl)
  compact-IsAtomic (ratio ∷ rest) s f = elim (Option-cases (M.parse_ratio ratio)) [
    | inl e ↦ rw (e, compact_command) (λ h. (refl, refl))
    | inr (r, e) ↦ rw (e, compact_command) (done-IsAtomic s f (M.compact s r))
  ]

  drop-IsAtomic :
      (args : List Bytes) (s : S.State) (f : F.State) → IsAtomic s f (drop_command S K M F args s f)
  unfolding drop_command
  drop-IsAtomic [] s f = λ h. (refl, refl)
  drop-IsAtomic (prefix ∷ rest) s f = elim (Bool-cases (has_suffix prefix (codes ":"))) [
    | inl e ↦ rw e (done-IsAtomic s f (M.drop_with_prefix s prefix))
    | inr e ↦ rw e (λ h. (refl, refl))
  ]

  last_reply-accepts : (r : Result S.Error ℕ) → IsRejection (last_reply S K M F r) → ⊥
  unfolding last_reply
  last_reply-accepts (ok since) h = h
  last_reply-accepts (err e) h = h

  dump_into-IsAtomic :
      (path : Bytes) (since : ℕ) (s : S.State) (f : F.State) (r : Option S.Error × F.State)
      → IsAtomic s f (dump_into S K M F path since s r)
  unfolding dump_into
  dump_into-IsAtomic path since s f (some e, g) h = absurd h
  dump_into-IsAtomic path since s f (none, g) h = absurd (last_reply-accepts (M.backup s since).1 h)

  dump-IsAtomic :
      (args : List Bytes) (s : S.State) (f : F.State) → IsAtomic s f (dump_command S K M F args s f)
  unfolding dump_command
  dump-IsAtomic [] s f = λ h. (refl, refl)
  dump-IsAtomic (path ∷ []) s f = λ h. (refl, refl)
  dump-IsAtomic (path ∷ since ∷ rest) s f = elim (Option-cases (parse_uint since)) [
    | inl e ↦ rw (e, dump_command) (λ h. (refl, refl))
    | inr (n, e) ↦ rw (e, dump_command) (dump_into-IsAtomic path n s f (F.create f path))
  ]

  restore-IsAtomic :
      (args : List Bytes) (s : S.State) (f : F.State)
      → IsAtomic s f (restore_command S K M F args s f)
  unfolding restore_command
  restore-IsAtomic [] s f = λ h. (refl, refl)
  restore-IsAtomic (path ∷ rest) s f = elim (Result-cases (F.read f path)) [
    | inl (content, e) ↦ rw (e, restore_command) (done-IsAtomic s f (M.restore s content))
    | inr (x, e) ↦ rw (e, restore_command) (λ h. absurd h)
  ]

  branch-IsAtomic :
      (s : S.State) (f : F.State) (b : Bool) (x y : Reply S K M F × S.State × F.State)
      → IsAtomic s f x
      → IsAtomic s f y
      → IsAtomic s f (if b then x else y)
  branch-IsAtomic s f true x y hx hy = hx
  branch-IsAtomic s f false x y hx hy = hy

  store_command-IsAtomic :
      (cmd : Bytes) (args : List Bytes) (s : S.State) (f : F.State)
      → IsAtomic s f (store_command S K M F cmd args s f)
  unfolding store_command
  store_command-IsAtomic cmd args s f =
      branch-IsAtomic s f (cmd == codes "compact") _ _ (compact-IsAtomic args s f) (
        branch-IsAtomic s f (cmd == codes "drop") _ _ (drop-IsAtomic args s f) (
          branch-IsAtomic s f (cmd == codes "clean") _ _ (done-IsAtomic s f (M.drop_all s)) (
            branch-IsAtomic s f (cmd == codes "dump") _ _ (dump-IsAtomic args s f) (
              branch-IsAtomic s f (cmd == codes "restore") _ _ (restore-IsAtomic args s f)
                (λ h. (refl, refl))))))

  IsUnchanged : Storage S K → F.State → Reply S K M F × Storage S K × F.State → Type 0
  IsUnchanged t f (r, u, g) =
      IsRejection r
      → ((name : Bytes) → Dict.lookup name u.store_map ≡ Dict.lookup name t.store_map) × (g ≡ f)

  store_back-IsUnchanged :
      (name : Bytes) (s : S.State) (t : Storage S K) (f : F.State)
      (x : Reply S K M F × S.State × F.State)
      → Dict.lookup name t.store_map ≡ some s
      → IsAtomic s f x
      → IsUnchanged t f (store_back S K M F name t x)
  unfolding IsUnchanged
  store_back-IsUnchanged name s t f (r, u, g) e a h =
      let (same, kept) = a h in
      (λ other. rw same (lookup-insert_same other name s t.store_map e), kept)

  on_store-IsUnchanged :
      (cmd : Bytes) (args : List Bytes) (t : Storage S K) (f : F.State)
      → IsUnchanged t f (on_store S K M F cmd args t f)
  unfolding IsUnchanged on_store
  on_store-IsUnchanged cmd [] t f = λ h. (λ name. refl, refl)
  on_store-IsUnchanged cmd (name ∷ args) t f = elim (Option-cases (Dict.lookup name t.store_map)) [
    | inl e ↦ rw (e, on_store) (λ h. (λ other. refl, refl))
    | inr (s, e) ↦
        rw (e, on_store)
          (store_back-IsUnchanged name s t f (store_command S K M F (to_lower cmd) args s f) e
            (store_command-IsAtomic (to_lower cmd) args s f))
  ]

  -- A command that `ExecuteCommand` rejects, for its name, its arguments or the storage, has
  -- changed nothing: every store and every file is as it was.
  pub rejected_unchanged :
      (cmd : Bytes) (args : List Bytes) (t : Storage S K) (f : F.State)
      → IsRejection (execute_command S K M F cmd args t f).0
      → ((name : Bytes)
          → Dict.lookup name (execute_command S K M F cmd args t f).1.store_map
            ≡ Dict.lookup name t.store_map)
        × ((execute_command S K M F cmd args t f).2 ≡ f)
  unfolding execute_command IsUnchanged
  rejected_unchanged cmd args t f = elim (Bool-cases (cmd == codes "list")) [
    | inl e ↦ rw e (λ h. absurd h)
    | inr e ↦ rw e (on_store-IsUnchanged cmd args t f)
  ]

-- What dropping promises: the keys under the prefix are gone, the others stay.
pub record IsDropping (S : Store) (L : IsLawful S) (M : Managed S) : Type 0 where
  pub get-drop_with_prefix :
      (s : S.State) (prefix k : Bytes)
      → (M.drop_with_prefix s prefix).0 ≡ none
      → S.get (M.drop_with_prefix s prefix).1 k
        ≡ (if has_prefix k prefix then L.missing else S.get s k)

module _ (S : Store) (L : IsLawful S) (K : Codec) (M : Managed S) (D : IsDropping S L M)
    (F : Files S.Error) where
  rejected : ◌≡◌ {A = Reply S K M F} (err bad_prefix) (ok (codes "OK")) → ⊥
  rejected h = absurd (ground arith)

  done-ok :
      (f : F.State) (r : Option S.Error × S.State)
      → (done S K M F f r).0 ≡ ok (codes "OK")
      → (r.0 ≡ none) × ((done S K M F f r).1 ≡ r.1)
  unfolding done
  done-ok f (none, s) h = (refl, refl)
  done-ok f (some e, s) h = absurd (ground arith)

  drop_command-ok :
      (prefix : Bytes) (s : S.State) (f : F.State)
      → (drop_command S K M F (prefix ∷ []) s f).0 ≡ ok (codes "OK")
      → (has_suffix prefix (codes ":") ≡ true)
        × ((M.drop_with_prefix s prefix).0 ≡ none)
        × ((drop_command S K M F (prefix ∷ []) s f).1 ≡ (M.drop_with_prefix s prefix).1)
  unfolding drop_command
  drop_command-ok prefix s f h = elim (Bool-cases (has_suffix prefix (codes ":"))) [
    | inl e ↦
        let (accepted, left) = done-ok f (M.drop_with_prefix s prefix) (rw e at h) in
        rw e (refl, accepted, left)
    | inr e ↦ absurd (rejected (rw e at h))
  ]

  execute_command-drop :
      (name prefix : Bytes) (s : S.State) (t : Storage S K) (f : F.State)
      → Dict.lookup name t.store_map ≡ some s
      → execute_command S K M F (codes "drop") (name ∷ prefix ∷ []) t f
        ≡ store_back S K M F name t (drop_command S K M F (prefix ∷ []) s f)
  unfolding execute_command on_store store_command bytes_eq to_lower
  execute_command-drop name prefix s t f e = rw (e, on_store) refl

  pub drop_exact :
      (name prefix k : Bytes) (s : S.State) (t : Storage S K) (f : F.State)
      → Dict.lookup name t.store_map ≡ some s
      → (execute_command S K M F (codes "drop") (name ∷ prefix ∷ []) t f).0 ≡ ok (codes "OK")
      → (has_suffix prefix (codes ":") ≡ true)
        × ((u : S.State) × (Dict.lookup name
                (execute_command S K M F (codes "drop") (name ∷ prefix ∷ []) t f).1.store_map
              ≡ some u)
            × (S.get u k ≡ (if has_prefix k prefix then L.missing else S.get s k)))
  drop_exact name prefix k s t f e h =
      let whole = execute_command-drop name prefix s t f e in
      let (colon, accepted, left) = drop_command-ok prefix s f (rw whole at h) in
      rw whole (
        colon,
        (
          (M.drop_with_prefix s prefix).1,
          lookup-insert_self name (drop_command S K M F (prefix ∷ []) s f).1 t.store_map
              ∙ ap some left,
          D.get-drop_with_prefix s prefix k accepted,
        ),
      )
