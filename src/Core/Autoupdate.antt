-- ===== src/Core/Autoupdate.antt =====
-- sprintcore/autoupdate_service.go: restarts when the watched file changes, unless jobs have
-- frozen updates. The clock and the file system are what each event brings along; the calls of
-- `time.AfterFunc` that wait are the timers, each with the time stamp that it has captured.
pub mod Freezing
pub mod Runs
use sprintframework.Common.{
  ℕ, ◌+◌, ◌%◌, ◌^◌, Bool, true, false, not, ◌&&◌, ◌||◌, Option, none, some, List, [], ◌∷◌, ◌++◌,
}
use sprintframework.Common.{Bytes, ◌==◌, nat_eq, bytes_eq, if◌then◌else◌, ltb, contains}
use sprintframework.Common.Dict
use sprintframework.Common.Dict.{Dict}

-- `fileInformation`, with times in nanoseconds.
pub record FileInformation : Type 0 where
  pub name : Bytes
  pub size : ℕ
  pub mod_time : ℕ

pub record Autoupdate : Type 0 where
  pub cache_stat : FileInformation
  pub trigger_update_timestamp : ℕ
  pub freeze_next_id : ℕ
  pub freeze_map : Dict ℕ Bytes
  pub trigger_after_unfreeze : Bool
  pub timers : List ℕ
  -- the argument of the call of `Application.Shutdown`, if there was one
  pub shutdown : Option Bool

-- The service behind `doStart`, which has cached the file's state.
unfoldable pub started : FileInformation → Autoupdate
started stat = record {
  cache_stat = stat;
  trigger_update_timestamp = 0;
  freeze_next_id = 0;
  freeze_map = [];
  trigger_after_unfreeze = false;
  timers = [];
  shutdown = none;
}

-- `Freeze`
unfoldable pub freeze : Bytes → Autoupdate → ℕ × Autoupdate
freeze job_name t =
    let id = (t.freeze_next_id + 1) % 2 ^ 64 in
    (id, record t { freeze_next_id = id; freeze_map = Dict.insert id job_name t.freeze_map })

-- `FreezeJobs`
unfoldable pub freeze_jobs : Autoupdate → Dict ℕ Bytes
freeze_jobs t = t.freeze_map

-- `hasFreezeJob`
abbrev pub has_freeze_job : Autoupdate → Bool
has_freeze_job t = elim t.freeze_map [ [] ↦ false | _ ∷ _ ↦ true ]

unfoldable pub schedule : ℕ → Autoupdate → Autoupdate
schedule now t = record t { trigger_update_timestamp = now; timers = t.timers ++ (now ∷ []) }

-- `triggerUpdate` at the time `now`, with its second look at the frozen jobs.
unfoldable pub trigger_update : ℕ → Autoupdate → Autoupdate
unfolding schedule
trigger_update now t =
    if has_freeze_job t
    then (let u = record t { trigger_after_unfreeze = true } in
        if has_freeze_job u then u else schedule now u)
    else schedule now t

-- `Unfreeze`
unfoldable pub unfreeze : ℕ → ℕ → Autoupdate → Autoupdate
unfreeze now handle t =
    let u = record t { freeze_map = Dict.erase handle t.freeze_map } in
    if not (has_freeze_job u) && u.trigger_after_unfreeze then trigger_update now u else u

-- The operations of fsnotify. `other` is any that is not exactly a creation or a write.
pub data FileOp : Type 0 where
  create write other : FileOp

abbrev pub is_change : FileOp → Bool
is_change create = true
is_change write = true
is_change other = false

-- `onEvent`, over what `os.Stat` gives for the event's name: its size and its time, or none.
unfoldable pub on_event : ℕ → FileOp → Bytes → Option (ℕ × ℕ) → Autoupdate → Autoupdate
on_event now op name stat t =
    if is_change op
    then elim stat [
      | none ↦ t
      | some (size, mod_time) ↦
          if t.cache_stat.name == name
          then if not (size == t.cache_stat.size) || ltb t.cache_stat.mod_time mod_time
            then trigger_update now t
            else t
          else t
    ]
    else t

-- The function of a timer, over the test whether the file is locked.
unfoldable pub fire : ℕ → Bool → ℕ → Autoupdate → Autoupdate
fire now locked current t =
    if t.trigger_update_timestamp == current
    then if locked then trigger_update now t else record t { shutdown = some true }
    else t

remove_timer : ℕ → List ℕ → List ℕ
remove_timer n [] = []
remove_timer n (m ∷ ms) = if n == m then ms else m ∷ remove_timer n ms

-- What happens to the service, one event after the other.
pub data Event : Type 0 where
  froze : Bytes → Event
  unfroze : ℕ → ℕ → Event
  file_changed : ℕ → FileOp → Bytes → Option (ℕ × ℕ) → Event
  timer : ℕ → Bool → ℕ → Event

unfoldable pub step : Event → Autoupdate → Autoupdate
unfolding remove_timer
step (froze job_name) t = (freeze job_name t).1
step (unfroze now handle) t = unfreeze now handle t
step (file_changed now op name stat) t = on_event now op name stat t
step (timer now locked current) t =
    if contains t.timers current
    then fire now locked current (record t { timers = remove_timer current t.timers })
    else t

unfoldable pub steps : List Event → Autoupdate → Autoupdate
steps [] t = t
steps (e ∷ es) t = steps es (step e t)
