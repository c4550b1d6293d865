-- ===== src/Core/StorageService.antt =====
-- sprintcore/storage_service.go: queries on the stores by name, and the console over a stream.
-- The stores, base64, the match of file names and the sending on the stream are parameters. Every
-- callback returns the state of what it has written to, and whether to go on.
pub mod Queries
pub mod Console
pub mod Commands
pub mod Maintenance
pub mod LocalConsole
use sprintframework.Common.{◌+◌, ◌-◌, Bool, true, false, Option, none, some, List, [], ◌∷◌, ◌++◌}
use sprintframework.Common.{
  Bytes, codes, ◌==◌, bytes_eq, if◌then◌else◌, ok, err, take, drop, length,
}
use sprintframework.Common.Dict
use sprintframework.Common.Dict.{Dict}
use sprintframework.Strings.{has_prefix, has_suffix, index_byte, trim_space, join}
use sprintframework.Core.Store.{Store, Visitor}

pub data QueryError (E : Type 0) : Type 0 where
  storage_not_found interrupted not_enough_args decode_failed unknown_command : QueryError E
  store_failed : E → QueryError E

-- The functions of other packages: base64 and `filepath.Match`, with false for its error.
pub record Codec : Type 0 where
  pub encode : Bytes → Bytes
  pub decode : Bytes → Option Bytes
  pub matches : Bytes → Bytes → Bool

-- The command and its arguments, behind one semicolon that is taken off the end.
unfoldable pub parse_query : Bytes → Bytes × Bytes
parse_query query =
    let q = if has_suffix query (codes ";") then take (length query - 1) query else query in
    elim (index_byte q b' ') [
      | none ↦ (q, trim_space [])
      | some i ↦ (take i q, trim_space (drop i q))
    ]

-- The key and the text of the value in the arguments of `set`.
unfoldable pub set_args : Bytes → Option (Bytes × Bytes)
set_args args = elim (index_byte args b' ') [
  | none ↦ none
  | some i ↦ some (trim_space (take i args), trim_space (drop i args))
]

module _ (S : Store) (K : Codec) where
  abbrev pub Failure : Type 0
  Failure = Option (QueryError S.Error)

  -- One call of `cb`, which fails as `ErrInterrupted`.
  unfoldable pub tell : {W : Type 0} → (W → Bytes → W × Bool) → W → Bytes → Failure × W
  tell cb w content = let (v, more) = cb w content in (if more then none else some interrupted, v)

  unfoldable pub told :
      {W : Type 0} → (W → Bytes → W × Bool) → W → Bytes → S.State → Failure × S.State × W
  told cb w content s = let (e, v) = tell cb w content in (e, s, v)

  unfoldable pub get_query :
      {W : Type 0} → (W → Bytes → W × Bool) → W → Bytes → S.State → Failure × S.State × W
  get_query cb w key s = elim (S.get s key) [
    | err e ↦ (some (store_failed e), s, w)
    | ok value ↦ told cb w (K.encode value) s
  ]

  -- The end of `set` and of `rm`.
  unfoldable pub updated :
      {W : Type 0} → (W → Bytes → W × Bool) → W → Option S.Error × S.State → Failure × S.State × W
  updated cb w (some e, s) = (some (store_failed e), s, w)
  updated cb w (none, s) = told cb w (codes "OK") s

  unfoldable pub set_query :
      {W : Type 0} → (W → Bytes → W × Bool) → W → Bytes → S.State → Failure × S.State × W
  set_query cb w args s = elim (set_args args) [
    | none ↦ (some not_enough_args, s, w)
    | some (key, text) ↦ elim (K.decode text) [
      | none ↦ (some decode_failed, s, w)
      | some value ↦ updated cb w (S.set s key value)
    ]
  ]

  unfoldable pub failure_of : Option S.Error → Failure
  failure_of none = none
  failure_of (some e) = some (store_failed e)

  unfoldable pub listed : {W : Type 0} → W × Option S.Error → S.State → Failure × S.State × W
  listed (w, e) s = (failure_of e, s, w)

  abbrev dump_entry : {W : Type 0} → (W → Bytes → W × Bool) → Visitor W
  dump_entry cb w (key, value) = cb w (key ++ (codes ", " ++ K.encode value))

  abbrev scan_entry : {W : Type 0} → (W → Bytes → W × Bool) → Visitor W
  scan_entry cb w (key, value) = cb w key

  abbrev search_entry : {W : Type 0} → (W → Bytes → W × Bool) → Bytes → Visitor W
  search_entry cb pattern w (key, value) = if K.matches pattern key then cb w key else (w, true)

  -- The switch of `ExecuteQuery` on one store.
  unfoldable pub query_store :
      {W : Type 0}
      → (W → Bytes → W × Bool)
      → W
      → List Bytes
      → Bytes
      → Bytes
      → S.State
      → Failure × S.State × W
  query_store {W = W} cb w available cmd args s =
      if cmd == codes "help"
      then told cb w (codes "available commands: help, list, get, set, rm, dump, scan, search") s
      else if cmd == codes "list"
      then told cb w (join available (codes ", ")) s
      else if cmd == codes "get"
      then get_query cb w args s
      else if cmd == codes "set"
      then set_query cb w args s
      else if cmd == codes "rm"
      then updated cb w (S.remove s args)
      else if cmd == codes "dump"
      then listed (S.enumerate s args W (dump_entry cb) w) s
      else if cmd == codes "scan"
      then listed (S.enumerate s args W (scan_entry cb) w) s
      else if cmd == codes "search"
      then listed (S.enumerate s [] W (search_entry cb args) w) s
      else (some unknown_command, s, w)

  pub record Storage : Type 0 where
    pub store_map : Dict Bytes S.State
    pub available_stores : List Bytes

  abbrev put_back : {W : Type 0} → Bytes → Storage → Failure × S.State × W → Failure × Storage × W
  put_back name t (e, s, w) = (e, record t { store_map = Dict.insert name s t.store_map }, w)

  -- `ExecuteQuery`
  unfoldable pub execute_query :
      {W : Type 0} → (W → Bytes → W × Bool) → W → Bytes → Bytes → Storage → Failure × Storage × W
  execute_query cb w name query t = elim (Dict.lookup name t.store_map) [
    | none ↦ (some storage_not_found, t, w)
    | some s ↦
        let (cmd, args) = parse_query query in
        put_back name t (query_store cb w t.available_stores cmd args s)
  ]

  -- What the console sends: content with the status 200, an error with 501, or the end of an
  -- answer with 100.
  pub data Response : Type 0 where
    content : Bytes → Response
    no_such_storage selected : Bytes → Response
    internal_error : QueryError S.Error → Response
    send_error finished : Response

  module _ {W : Type 0} (send : W → Response → W × Bool) where
    unfoldable pub send_content : W → Bytes → W × Bool
    send_content w text = send w (content text)

    -- What comes before the last response of an answer: the storage that is selected from then
    -- on, and the response that tells an error.
    unfoldable pub use_storage : Bytes → Bytes → Storage → W → Option Response × Bytes × W
    use_storage current name t w = elim (Dict.lookup name t.store_map) [
      | none ↦
          (let (v, sent) = send w (no_such_storage name) in
            (if sent then none else some send_error, current, v))
      | some s ↦
          (let (v, sent) = send w (selected name) in
            (if sent then none else some send_error, name, v))
    ]

    unfoldable pub error_response : Failure → Option Response
    error_response none = none
    error_response (some e) = some (internal_error e)

    unfoldable pub answer_query :
        Bytes → Bytes → Storage → W → Option Response × Bytes × Storage × W
    answer_query current query t w =
        if has_prefix query (codes "use ")
        then (let (r, name, v) = use_storage current (trim_space (drop 4 query)) t w in
            (r, name, t, v))
        else (let (e, u, v) = execute_query send_content w current query t in
            (error_response e, current, u, v))

    unfoldable pub send_failure : W → Option Response → W
    send_failure w none = w
    send_failure w (some r) = (send w r).0

    -- `Console` over the requests that it receives until there is an error: whether it returned
    -- none itself, the stores, and what it has sent.
    unfoldable pub console : Bytes → List Bytes → Storage → W → Bool × Storage × W
    console current [] t w = (true, t, w)
    console current (query ∷ more) t w =
        let (r, name, u, v) = answer_query current query t w in
        let (x, sent) = send (send_failure v r) finished in
        let rest = console name more u x in if sent then rest else (false, u, x)
