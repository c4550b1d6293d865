-- ===== src/Core/ConfigRepository.antt =====
-- sprintcore/config_repository.go: the properties kept in the config store, and those who watch
-- them. A mutex only guards the store's field, so each operation is a function on the repository.
pub mod Keys
pub mod Enumeration
pub mod Properties
pub mod Watching
pub mod Race
pub mod Refinement
use sprintframework.Common.{
  ℕ, ◌+◌, ◌%◌, ◌^◌, Bool, true, false, Option, none, some, List, [], ◌∷◌, ◌++◌,
}
use sprintframework.Common.{Bytes, codes, ◌==◌, bytes_eq, nat_eq, if◌then◌else◌, ltb, length, drop}
use sprintframework.Common.{Result, ok, err}
use sprintframework.Common.Dict
use sprintframework.Common.Dict.{Dict}
use sprintframework.Strings.{has_prefix}
use sprintframework.Core.Store.{Store, Visitor}

-- `configEntryChange`. An empty value tells that the entry was deleted.
pub record Change : Type 0 where
  pub key : Bytes
  pub value : Bytes

-- `configWatchContext`: the prefix, and whether its context was cancelled.
pub record Watch : Type 0 where
  pub prefix : Bytes
  pub cancelled : Bool

abbrev pub config_bucket : Bytes
config_bucket = codes "config"

-- The key in the store: `"%s:%s"` of the bucket and the key.
unfoldable pub raw_key : Bytes → Bytes
raw_key key = config_bucket ++ (b':' ∷ key)

-- An error of the store, or the panic of a call on the nil interface.
pub data Fault (E : Type 0) : Type 0 where
  store_error : E → Fault E
  nil_backend : Fault E

-- The watchers that `notifyAll` sends the change to.
unfoldable pub notify_all : Dict ℕ Watch → Change → List ℕ
notify_all [] e = []
notify_all ((handle, wc) ∷ m) e =
    let rest = notify_all m e in if has_prefix e.key wc.prefix then handle ∷ rest else rest

cancel_each : Dict ℕ Watch → Dict ℕ Watch
cancel_each [] = []
cancel_each ((handle, wc) ∷ m) = (handle, record wc { cancelled = true }) ∷ cancel_each m

module _ (S : Store) where
  pub record Repository : Type 0 where
    pub store : Option S.State
    pub watch_num : ℕ
    pub watch_map : Dict ℕ Watch
    pub shutting_down : Bool

  abbrev pub new_repository : Option S.State → Repository
  new_repository store = record {
    store = store;
    watch_num = 0;
    watch_map = [];
    shutting_down = false;
  }

  lift_error : Result S.Error Bytes → Result (Fault S.Error) Bytes
  lift_error (ok value) = ok value
  lift_error (err e) = err (store_error e)

  -- `Get`
  unfoldable pub get : Repository → Bytes → Result (Fault S.Error) Bytes
  unfolding lift_error
  get t key = elim t.store [ none ↦ err nil_backend | some s ↦ lift_error (S.get s (raw_key key)) ]

  found : Result (Fault S.Error) Bytes → Option Bytes
  found (err e) = none
  found (ok value) = if value == [] then none else some value

  -- `GetProperty`
  unfoldable pub get_property : Repository → Bytes → Option Bytes
  unfolding found
  get_property t key = elim t.store [
    | none ↦ none
    | some s ↦ if t.shutting_down then none else found (get t key)
  ]

  lift_option : Option S.Error → Option (Fault S.Error)
  lift_option none = none
  lift_option (some e) = some (store_error e)

  written : Repository → Option S.Error × S.State → Option (Fault S.Error) × Repository
  written t (e, s) = (lift_option e, record t { store = some s })

  -- `doSet`
  unfoldable pub do_set : Repository → Bytes → Bytes → Option (Fault S.Error) × Repository
  unfolding written lift_option
  do_set t key value = elim t.store [
    | none ↦ (some nil_backend, t)
    | some s ↦
        written t (if value == [] then S.remove s (raw_key key) else S.set s (raw_key key) value)
  ]

  -- `Set`: the error, the repository after it, and the handles that are notified.
  unfoldable pub set : Repository → Bytes → Bytes → Option (Fault S.Error) × Repository × List ℕ
  set t key value =
      let (e, u) = do_set t key value in
      elim e [
        | some x ↦ (some x, u, [])
        | none ↦ (
          none,
          u,
          if u.watch_num == 0
              then []
              else notify_all u.watch_map (record { key = key; value = value }),
        )
      ]

  -- `EnumerateAll`: the callback gets each key behind the bucket's name and its colon.
  unfoldable pub enumerate_all :
      Repository → Bytes → (A : Type 0) → Visitor A → A → A × Option (Fault S.Error)
  unfolding lift_option
  enumerate_all t prefix A visit a = elim t.store [
    | none ↦ (a, some nil_backend)
    | some s ↦
        let (b, e) =
          S.enumerate s (raw_key prefix) A
            (λ c (key, value). visit c (drop (length config_bucket + 1) key, value)) a in
        (b, lift_option e)
  ]

  -- `registerWatch`: an int64 counter makes the handles.
  unfoldable pub register_watch : Watch → Repository → ℕ × Repository
  register_watch wc t =
      let handle = (t.watch_num + 1) % 2 ^ 64 in
      (handle, record t { watch_num = handle; watch_map = Dict.insert handle wc t.watch_map })

  unfoldable pub unregister_watch : ℕ → Repository → Repository
  unregister_watch handle t = record t { watch_map = Dict.erase handle t.watch_map }

  -- `Watch` up to the start of its goroutine.
  unfoldable pub watch : Bytes → Repository → ℕ × Repository
  unfolding register_watch
  watch prefix t = register_watch (record { prefix = prefix; cancelled = false }) t

  -- `Destroy`
  unfoldable pub destroy : Repository → Repository
  unfolding cancel_each
  destroy t = record t {
    shutting_down = true;
    watch_map = if ltb 0 t.watch_num then cancel_each t.watch_map else t.watch_map;
  }

  unfoldable pub backend : Repository → Option S.State
  backend t = t.store

  unfoldable pub set_backend : Option S.State → Repository → Repository
  set_backend store t = record t { store = store }

-- What the goroutine of a watch selects: the end of its context, or a change from its channel.
pub data Signal : Type 0 where
  done : Signal
  changed : Change → Signal

-- The goroutine's loop over what it selects: the state that the callback leaves, and whether the
-- goroutine has returned.
unfoldable pub watch_loop : (A : Type 0) → (A → Change → A × Bool) → A → List Signal → A × Bool
watch_loop A cb a [] = (a, false)
watch_loop A cb a (done ∷ more) = (a, true)
watch_loop A cb a (changed e ∷ more) =
    let (b, go_on) = cb a e in
    let rest = watch_loop A cb b more in if go_on then rest else (b, true)
