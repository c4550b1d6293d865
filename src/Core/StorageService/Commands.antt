-- ===== src/Core/StorageService/Commands.antt =====
-- sprintcore/storage_service.go: the commands that maintain a store. The operations of a managed
-- store, the reading of ratios and the files are parameters.
use sprintframework.Common.{ℕ, Option, none, some, List, [], ◌∷◌, ◌++◌}
use sprintframework.Common.{Bytes, codes, ◌==◌, bytes_eq, if◌then◌else◌, Result, ok, err}
use sprintframework.Common.Dict
use sprintframework.Strings.{has_suffix, join, to_lower}
use sprintframework.Strconv.{format_nat, parse_uint}
use sprintframework.Core.Store.{Store}
use sprintframework.Core.StorageService.{Codec, Storage}

-- The operations of `store.ManagedDataStore` beyond those of a store.
pub record Managed (S : Store) : Type 1 where
  pub Ratio : Type 0
  -- `strconv.ParseFloat`
  pub parse_ratio : Bytes → Option Ratio
  pub compact : S.State → Ratio → Option S.Error × S.State
  pub drop_with_prefix : S.State → Bytes → Option S.Error × S.State
  pub drop_all : S.State → Option S.Error × S.State
  -- `Backup`: what it writes, with the error or the next `since`
  pub backup : S.State → ℕ → Bytes × Result S.Error ℕ
  pub restore : S.State → Bytes → Option S.Error × S.State

-- The files: one that is created or emptied for writing, what is written into it, and what
-- reading it gives.
pub record Files (E : Type 0) : Type 1 where
  pub State : Type 0
  pub create : State → Bytes → Option E × State
  pub write : State → Bytes → Bytes → State
  pub read : State → Bytes → Result E Bytes

pub data CommandError (E : Type 0) : Type 0 where
  missing_storage_name no_such_storage missing_args bad_ratio bad_prefix bad_since unknown_command :
      CommandError E
  failed : E → CommandError E

module _ (S : Store) (K : Codec) (M : Managed S) (F : Files S.Error) where
  abbrev pub Reply : Type 0
  Reply = Result (CommandError S.Error) Bytes

  -- The reply of a command with the store and the files behind it.
  unfoldable pub done : F.State → Option S.Error × S.State → Reply × S.State × F.State
  done f (none, s) = (ok (codes "OK"), s, f)
  done f (some e, s) = (err (failed e), s, f)

  unfoldable pub compact_command : List Bytes → S.State → F.State → Reply × S.State × F.State
  compact_command [] s f = (err missing_args, s, f)
  compact_command (ratio ∷ rest) s f = elim (M.parse_ratio ratio) [
    | none ↦ (err bad_ratio, s, f)
    | some r ↦ done f (M.compact s r)
  ]

  unfoldable pub drop_command : List Bytes → S.State → F.State → Reply × S.State × F.State
  drop_command [] s f = (err missing_args, s, f)
  drop_command (prefix ∷ rest) s f =
      if has_suffix prefix (codes ":")
      then done f (M.drop_with_prefix s prefix)
      else (err bad_prefix, s, f)

  unfoldable pub last_reply : Result S.Error ℕ → Reply
  last_reply (err e) = err (failed e)
  last_reply (ok since) = ok (codes "Last: " ++ format_nat since)

  unfoldable pub dump_into :
      Bytes → ℕ → S.State → Option S.Error × F.State → Reply × S.State × F.State
  dump_into path since s (some e, f) = (err (failed e), s, f)
  dump_into path since s (none, f) =
      let (content, r) = M.backup s since in (last_reply r, s, F.write f path content)

  unfoldable pub dump_command : List Bytes → S.State → F.State → Reply × S.State × F.State
  dump_command (path ∷ since ∷ rest) s f = elim (parse_uint since) [
    | none ↦ (err bad_since, s, f)
    | some n ↦ dump_into path n s (F.create f path)
  ]
  dump_command _ s f = (err missing_args, s, f)

  unfoldable pub restore_command : List Bytes → S.State → F.State → Reply × S.State × F.State
  restore_command [] s f = (err missing_args, s, f)
  restore_command (path ∷ rest) s f = elim (F.read f path) [
    | err e ↦ (err (failed e), s, f)
    | ok content ↦ done f (M.restore s content)
  ]

  -- The switch of `ExecuteCommand` on one store.
  unfoldable pub store_command : Bytes → List Bytes → S.State → F.State → Reply × S.State × F.State
  store_command cmd args s f =
      if cmd == codes "compact"
      then compact_command args s f
      else if cmd == codes "drop"
      then drop_command args s f
      else if cmd == codes "clean"
      then done f (M.drop_all s)
      else if cmd == codes "dump"
      then dump_command args s f
      else if cmd == codes "restore"
      then restore_command args s f
      else (err unknown_command, s, f)

  abbrev pub store_back :
      Bytes → Storage S K → Reply × S.State × F.State → Reply × Storage S K × F.State
  store_back name t (r, s, f) = (r, record t { store_map = Dict.insert name s t.store_map }, f)

  unfoldable pub on_store :
      Bytes → List Bytes → Storage S K → F.State → Reply × Storage S K × F.State
  on_store cmd [] t f = (err missing_storage_name, t, f)
  on_store cmd (name ∷ args) t f = elim (Dict.lookup name t.store_map) [
    | none ↦ (err no_such_storage, t, f)
    | some s ↦ store_back name t (store_command (to_lower cmd) args s f)
  ]

  -- `ExecuteCommand`
  unfoldable pub execute_command :
      Bytes → List Bytes → Storage S K → F.State → Reply × Storage S K × F.State
  execute_command cmd args t f =
      if cmd == codes "list"
      then (ok (join t.available_stores (codes ", ")), t, f)
      else on_store cmd args t f
