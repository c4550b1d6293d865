-- ===== src/Core/Autoupdate/Freezing.antt =====
-- Frozen jobs put an update off, and the last of them lets it happen.
use sprintframework.Common.{
  ℕ, ◌+◌, ◌%◌, ◌^◌, Bool, true, false, some, [], ◌∷◌, ◌≡◌, ◌≢◌, refl, ap, ◌∙◌, arith,
}
use sprintframework.Common.{Bytes, ◌==◌, ==_self, nat_eq, inl, inr, Bool-cases}
use sprintframework.Common.Dict
use sprintframework.Common.Dict.{Dict}
use sprintframework.Core.Autoupdate.{
  Autoupdate, freeze, has_freeze_job, schedule, trigger_update, fire,
}

-- While a job is frozen, a change only leaves a mark: no timer starts and no stamp is set.
pub trigger_update_frozen :
    (now : ℕ) (t : Autoupdate)
    → has_freeze_job t ≡ true
    → trigger_update now t ≡ record t { trigger_after_unfreeze = true }
unfolding trigger_update
trigger_update_frozen now t h = ground arith

trigger_update_free :
    (now : ℕ) (t : Autoupdate) → has_freeze_job t ≡ false → trigger_update now t ≡ schedule now t
unfolding trigger_update
trigger_update_free now t h = ground arith

insert-has_freeze_job :
    (h : ℕ) (name : Bytes) (d : Dict ℕ Bytes) (t : Autoupdate)
    → has_freeze_job (record t { freeze_map = Dict.insert h name d }) ≡ true
unfolding Dict.insert
insert-has_freeze_job h name [] t = refl
insert-has_freeze_job h name ((k, _) ∷ _) t = elim (Bool-cases (h == k)) [
  | inl e ↦ rw e
  | inr e ↦ rw e
]

freeze-has_freeze_job :
    (job_name : Bytes) (t : Autoupdate) → has_freeze_job (freeze job_name t).1 ≡ true
unfolding freeze
freeze-has_freeze_job job_name t =
    insert-has_freeze_job ((t.freeze_next_id + 1) % 2 ^ 64) job_name t.freeze_map
      (record t { freeze_next_id = (t.freeze_next_id + 1) % 2 ^ 64 })

freeze-trigger_update_timestamp :
    (job_name : Bytes) (t : Autoupdate)
    → (freeze job_name t).1.trigger_update_timestamp ≡ t.trigger_update_timestamp
unfolding freeze
freeze-trigger_update_timestamp job_name t = refl

fire_current :
    (later stamp : ℕ) (t : Autoupdate)
    → t.trigger_update_timestamp ≡ stamp
    → (fire later false stamp t).shutdown ≡ some true
unfolding fire
fire_current later stamp t e = rw (e, ==_self stamp)

schedule-stamp : (now : ℕ) (t : Autoupdate) → (schedule now t).trigger_update_timestamp ≡ now
unfolding schedule
schedule-stamp now t = refl

-- A job that is frozen once the timer runs does not hold the update up: the timer does not look
-- at the frozen jobs.
pub freeze_too_late :
    (now later : ℕ) (job_name : Bytes) (t : Autoupdate)
    → has_freeze_job t ≡ false
    → let u = (freeze job_name (trigger_update now t)).1 in
      (has_freeze_job u ≡ true) × ((fire later false now u).shutdown ≡ some true)
freeze_too_late now later job_name t h = (
  freeze-has_freeze_job job_name (trigger_update now t),
  fire_current later now (freeze job_name (trigger_update now t)).1 (
      freeze-trigger_update_timestamp job_name (trigger_update now t)
      ∙ ap (λ u. u.trigger_update_timestamp) (trigger_update_free now t h)
      ∙ schedule-stamp now t),
)

-- Only the timer that was started last acts: any earlier one finds another stamp and does
-- nothing.
pub fire_stale :
    (now later : ℕ) (locked : Bool) (stamp : ℕ) (t : Autoupdate)
    → has_freeze_job t ≡ false
    → stamp ≢ now
    → fire later locked stamp (trigger_update now t) ≡ trigger_update now t
unfolding fire trigger_update schedule
fire_stale now later locked stamp t h ne = ground arith
