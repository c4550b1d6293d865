-- ===== src/Core/ConfigRepository/Watching.antt =====
-- Which watchers a change of the configuration reaches.
use sprintframework.Common.{
  ℕ, ◌+◌, ◌%◌, ◌⊎◌, ◌^◌, ◌≤◌, ◌<◌, Bool, false, ◌≡◌, ◌≢◌, refl, arith, [], ◌∷◌, Option, none, some,
}
use sprintframework.Common.{
  Bytes, ◌==◌, bytes_eq, nat_eq, contains, if◌then◌else◌, inl, inr, Option-cases,
}
use sprintframework.Common.Dict
use sprintframework.Common.Dict.{Dict, NodupKeys}
use sprintframework.Strings.{has_prefix}
use sprintframework.Core.Store.{Store}
use sprintframework.Core.ConfigRepository.{
  Repository, Watch, Change, new_repository, set, do_set, notify_all, watch, unregister_watch,
}

-- Whether a watcher, if there is one, is told of a change at the key.
abbrev pub concerns : Bytes → Option Watch → Bool
concerns key none = false
concerns key (some wc) = has_prefix key wc.prefix

contains-notify_all_absent :
    (m : Dict ℕ Watch) (e : Change) (h : ℕ)
    → Dict.lookup h m ≡ none
    → contains (notify_all m e) h ≡ false
unfolding notify_all
contains-notify_all_absent [] e h absent = refl
contains-notify_all_absent ((i, wc) ∷ m) e h absent =
    ground (arith, Dict.lookup-cons h i wc m, contains-notify_all_absent m e h)

contains-notify_all :
    (m : Dict ℕ Watch) (e : Change) (h : ℕ)
    → NodupKeys m
    → contains (notify_all m e) h ≡ concerns e.key (Dict.lookup h m)
unfolding notify_all
contains-notify_all [] e h u = rw Dict.lookup-nil
contains-notify_all ((i, wc) ∷ m) e h (fresh, u) = ground (
  arith,
  Dict.lookup-cons h i wc m,
  contains-notify_all m e h u,
  contains-notify_all_absent m e i fresh,
)

module _ (S : Store) where
  -- No handle stands twice, each was given out, and none stands before the first watch.
  pub record IsConsistent (t : Repository S) : Type 0 where
    pub nodup : NodupKeys t.watch_map
    pub given :
        (h : ℕ) (wc : Watch) → Dict.lookup h t.watch_map ≡ some wc → (0 < h) × (h ≤ t.watch_num)

  pub new_repository-IsConsistent : (store : Option S.State) → IsConsistent (new_repository S store)
  new_repository-IsConsistent store = record {
    nodup = tt;
    given = λ h wc e. let e' : none ≡ some wc = rw Dict.lookup-nil at e in absurd (cc);
  }

  do_set_watches :
      (t : Repository S) (key value : Bytes)
      → ((do_set S t key value).1.watch_map ≡ t.watch_map)
        × ((do_set S t key value).1.watch_num ≡ t.watch_num)
  unfolding do_set
  do_set_watches t key value = ground arith

  set_watches :
      (t : Repository S) (key value : Bytes)
      → ((set S t key value).1.watch_map ≡ t.watch_map)
        × ((set S t key value).1.watch_num ≡ t.watch_num)
  unfolding set
  set_watches t key value = ground (arith, do_set_watches t key value)

  -- `Set` keeps the watches consistent.
  pub set-IsConsistent :
      (t : Repository S) (key value : Bytes) → IsConsistent t → IsConsistent (set S t key value).1
  set-IsConsistent t key value c =
      let (m, n) = set_watches t key value in
      record { nodup = rw m c.nodup; given = λ h wc e. rw n (c.given h wc (rw m at e)) }

  pub unregister_watch-IsConsistent :
      (handle : ℕ) (t : Repository S) → IsConsistent t → IsConsistent (unregister_watch S handle t)
  unfolding unregister_watch
  unregister_watch-IsConsistent handle t c = record {
    nodup = Dict.erase-NodupKeys handle t.watch_map c.nodup;
    given = λ h wc e. c.given h wc (ground (arith, Dict.lookup-erase h handle t.watch_map));
  }

  handle_free :
      (t : Repository S) (h : ℕ)
      → IsConsistent t
      → (h ≡ 0) ⊎ (t.watch_num < h)
      → Dict.lookup h t.watch_map ≡ none
  handle_free t h c out = elim (Option-cases (Dict.lookup h t.watch_map)) [
    | inl e ↦ e
    | inr (wc, e) ↦ absurd (omega (arith, c.given h wc e))
  ]

  insert_given :
      (t : Repository S) (wc : Watch)
      → IsConsistent t
      → (h : ℕ) (wc' : Watch)
      → Dict.lookup h (Dict.insert (t.watch_num + 1) wc t.watch_map) ≡ some wc'
      → (0 < h) × (h ≤ t.watch_num + 1)
  insert_given t wc c h wc' e =
      ground (arith, Dict.lookup-insert h (t.watch_num + 1) wc t.watch_map, c.given h wc')

  -- As long as the counter of handles has not wrapped around, a new watch gets a handle that
  -- nobody holds, every other watch stays, and the watches stay consistent.
  pub watch_fresh :
      (prefix : Bytes) (t : Repository S)
      → IsConsistent t
      → t.watch_num + 1 < 2 ^ 64
      → IsConsistent (watch S prefix t).1
        × (Dict.lookup (watch S prefix t).0 t.watch_map ≡ none)
        × ((h : ℕ)
            → Dict.lookup h (watch S prefix t).1.watch_map ≡ (
                if h == (watch S prefix t).0
                then some (record { prefix = prefix; cancelled = false })
                else Dict.lookup h t.watch_map))
  unfolding watch
  watch_fresh prefix t c bound =
      let exact : (t.watch_num + 1) % 2 ^ 64 ≡ t.watch_num + 1 = omega arith in
      rw exact (
        record {
          nodup = Dict.insert-NodupKeys _ _ t.watch_map c.nodup;
          given = insert_given t (record { prefix = prefix; cancelled = false }) c;
        },
        handle_free t (t.watch_num + 1) c (omega arith),
        λ h. Dict.lookup-insert h (t.watch_num + 1) _ t.watch_map,
      )

  -- A successful `Set` tells exactly the watchers whose prefix begins the key.
  pub set_notifies :
      (t : Repository S) (key value : Bytes) (h : ℕ)
      → IsConsistent t
      → (set S t key value).0 ≡ none
      → contains (set S t key value).2 h ≡ concerns key (Dict.lookup h t.watch_map)
  unfolding set
  set_notifies t key value h c done =
      let (m, n) = do_set_watches t key value in
      ground (
        arith,
        m,
        n,
        contains-notify_all t.watch_map (record { key = key; value = value }) h c.nodup,
        handle_free t h c,
      )

  -- A failed `Set` tells nobody.
  pub set_failed_silent :
      (t : Repository S) (key value : Bytes)
      → (set S t key value).0 ≢ none
      → (set S t key value).2 ≡ []
  unfolding set
  set_failed_silent t key value failed = ground arith
