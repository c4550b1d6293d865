-- ===== src/Core/Autoupdate/Runs.antt =====
-- Runs of the service: what a restart needs.
use sprintframework.Common.{
  ℕ, ◌≤◌, Bool, false, not, Option, none, some, List, [], ◌∷◌, ◌≡◌, refl, sym, arith,
}
use sprintframework.Common.{Bytes, nat_eq, bytes_eq, All, inl, inr, Bool-cases}
use sprintframework.Common.Dict
use mathlib.Core.Path.{subst}
use sprintframework.Core.Autoupdate.{
  Autoupdate, FileInformation, FileOp, create, write, other, Event, froze, unfroze, file_changed,
  timer, started, freeze, unfreeze, has_freeze_job, on_event, step, steps,
}

-- An event that is no change of the watched file: its size stays and it has not become newer.
abbrev pub IsQuiet : FileInformation → Event → Type 0
IsQuiet stat (froze _) = Unit
IsQuiet stat (unfroze _ _) = Unit
IsQuiet stat (file_changed _ _ _ none) = Unit
IsQuiet stat (file_changed _ _ _ (some (size, mod_time))) =
    (size ≡ stat.size) × (mod_time ≤ stat.mod_time)
IsQuiet stat (timer _ _ _) = Unit

-- Nothing waits to restart the application.
pub record IsIdle (stat : FileInformation) (t : Autoupdate) : Type 0 where
  pub cached : t.cache_stat ≡ stat
  pub unmarked : t.trigger_after_unfreeze ≡ false
  pub no_timers : t.timers ≡ []
  pub running : t.shutdown ≡ none

unfreeze_unmarked :
    (now h : ℕ) (t : Autoupdate)
    → t.trigger_after_unfreeze ≡ false
    → unfreeze now h t ≡ record t { freeze_map = Dict.erase h t.freeze_map }
unfolding unfreeze
unfreeze_unmarked now h t e =
    elim (Bool-cases (not (has_freeze_job (record t { freeze_map = Dict.erase h t.freeze_map })))) [
      | inl f ↦ rw (f, e)
      | inr f ↦ rw f
    ]

on_event_quiet :
    (now : ℕ) (op : FileOp) (name : Bytes) (found : Option (ℕ × ℕ)) (t : Autoupdate)
    → IsQuiet t.cache_stat (file_changed now op name found)
    → on_event now op name found t ≡ t
unfolding on_event
on_event_quiet now create name none t q = refl
on_event_quiet now write name none t q = refl
on_event_quiet now other name none t q = refl
on_event_quiet now other name (some _) t q = refl
on_event_quiet now create name (some (size, mod_time)) t (same, old) = ground (arith)
on_event_quiet now write name (some (size, mod_time)) t (same, old) = ground (arith)

timer_none :
    (now current : ℕ) (locked : Bool) (t : Autoupdate)
    → t.timers ≡ []
    → step (timer now locked current) t ≡ t
unfolding step
timer_none now current locked t e = rw e

step-IsIdle :
    (stat : FileInformation) (e : Event) (t : Autoupdate)
    → IsQuiet stat e
    → IsIdle stat t
    → IsIdle stat (step e t)
unfolding step freeze
step-IsIdle stat (froze name) t q i = record {
  cached = i.cached;
  unmarked = i.unmarked;
  no_timers = i.no_timers;
  running = i.running;
}
step-IsIdle stat (unfroze now h) t q i =
    subst (IsIdle stat) (sym (unfreeze_unmarked now h t i.unmarked)) (record {
      cached = i.cached;
      unmarked = i.unmarked;
      no_timers = i.no_timers;
      running = i.running;
    })
step-IsIdle stat (file_changed now op name found) t q i =
    subst (IsIdle stat)
      (sym (
        on_event_quiet now op name found t
          (subst (λ s. IsQuiet s (file_changed now op name found)) (sym i.cached) q)))
      i
step-IsIdle stat (timer now locked current) t q i =
    subst (IsIdle stat) (sym (timer_none now current locked t i.no_timers)) i

steps-IsIdle :
    (stat : FileInformation) (es : List Event) (t : Autoupdate)
    → All (IsQuiet stat) es
    → IsIdle stat t
    → IsIdle stat (steps es t)
unfolding steps
steps-IsIdle stat [] t q i = i
steps-IsIdle stat (e ∷ es) t (q, qs) i =
    steps-IsIdle stat es (step e t) qs (step-IsIdle stat e t q i)

started-IsIdle : (stat : FileInformation) → IsIdle stat (started stat)
unfolding started
started-IsIdle stat = record { cached = refl; unmarked = refl; no_timers = refl; running = refl }

pub quiet_runs_on :
    (stat : FileInformation) (es : List Event)
    → All (IsQuiet stat) es
    → (steps es (started stat)).shutdown ≡ none
quiet_runs_on stat es q = (steps-IsIdle stat es (started stat) q (started-IsIdle stat)).running
