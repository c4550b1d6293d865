-- ===== src/Core/StorageService/LocalConsole.antt =====
-- `LocalConsole` of sprintcore/storage_service.go, over what is typed at its prompt.
use sprintframework.Common.{Bool, true, false, none, some, List, [], ◌∷◌, ◌++◌}
use sprintframework.Common.{Bytes, codes, ◌==◌, nat_eq, bytes_eq, if◌then◌else◌, drop}
use sprintframework.Common.Dict
use sprintframework.Common.Dict.{Dict}
use sprintframework.Strings.{has_prefix, trim_space}
use sprintframework.Core.Store.{Store}
use sprintframework.Core.StorageService.{Codec, Failure, Storage, QueryError, execute_query}

-- What is written: an answer, the list of the stores, a storage that is selected or not there, and
-- an error.
pub data Written (E : Type 0) : Type 0 where
  told : Bytes → Written E
  stores : List Bytes → Written E
  selected no_such_storage : Bytes → Written E
  failed : QueryError E → Written E

module _ (S : Store) (K : Codec) where
  abbrev write : List (Written S.Error) → Bytes → List (Written S.Error) × Bool
  write w text = (w ++ (told text ∷ []), true)

  complain : List (Written S.Error) → Failure S K → List (Written S.Error)
  complain w none = w
  complain w (some e) = w ++ (failed e ∷ [])

  -- A line other than exit: the storage that is selected then, the stores, and what is written.
  unfoldable pub local_line :
      Bytes
      → Bytes
      → Storage S K
      → List (Written S.Error)
      → Bytes × Storage S K × List (Written S.Error)
  unfolding complain
  local_line query current t w =
      if query == []
      then (current, t, w)
      else if query == codes "list"
      then (current, t, w ++ (stores t.available_stores ∷ []))
      else if has_prefix query (codes "use ")
      then (let name = trim_space (drop 4 query) in
          elim (Dict.lookup name t.store_map) [
            | none ↦ (current, t, w ++ (no_such_storage name ∷ []))
            | some s ↦ (name, t, w ++ (selected name ∷ []))
          ])
      else (let (e, u, v) = execute_query S K write w current query t in (current, u, complain v e))

  -- `LocalConsole`: whether it was left, the stores, and what was written.
  unfoldable pub local_console :
      List Bytes
      → Bytes
      → Storage S K
      → List (Written S.Error)
      → Bool × Storage S K × List (Written S.Error)
  local_console [] current t w = (false, t, w)
  local_console (query ∷ typed) current t w =
      let (name, u, v) = local_line query current t w in
      let rest = local_console typed name u v in
      if query == codes "exit" then (true, t, w) else rest
