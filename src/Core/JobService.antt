-- ===== src/Core/JobService.antt =====
-- sprintcore/job_service.go: the jobs of the application, under one mutex. `F` stands for the
-- functions that jobs execute.
pub mod Cancel
use sprintframework.Common.{Option, none, some, List, [], ◌∷◌, ◌++◌}
use sprintframework.Common.{Bytes, codes, ◌==◌, bytes_eq, if◌then◌else◌, Result, ok, err}
use sprintframework.Strings.{join}

pub record JobInfo (F : Type 0) : Type 0 where
  pub name : Bytes
  pub execution_fn : F

abbrev pub Jobs : Type 0 → Type 0
Jobs F = List (JobInfo F)

pub data JobError : Type 0 where
  job_not_found : JobError
  unknown_job_command : Bytes → JobError
  cancel_failed : Bytes → JobError → JobError

module _ {F : Type 0} where
  -- `ListJobs`
  unfoldable pub list_jobs : Jobs F → List Bytes
  list_jobs [] = []
  list_jobs (job ∷ jobs) = job.name ∷ list_jobs jobs

  -- `AddJob`
  unfoldable pub add_job : JobInfo F → Jobs F → Jobs F
  add_job job jobs = jobs ++ (job ∷ [])

  -- The loop of `CancelJob`, with the jobs that it has passed.
  unfoldable pub cancel_loop : Bytes → Jobs F → Jobs F → Option (Jobs F)
  cancel_loop name passed [] = none
  cancel_loop name passed (job ∷ jobs) =
      let rest = cancel_loop name (passed ++ (job ∷ [])) jobs in
      if job.name == name then some (passed ++ jobs) else rest

  -- `CancelJob`
  unfoldable pub cancel_job : Bytes → Jobs F → Option JobError × Jobs F
  unfolding cancel_loop
  cancel_job name jobs = elim (cancel_loop name [] jobs) [
    | none ↦ (some job_not_found, jobs)
    | some left ↦ (none, left)
  ]

  -- `findJob`
  unfoldable pub find_job : Bytes → Jobs F → Result JobError (JobInfo F)
  find_job name [] = err job_not_found
  find_job name (job ∷ jobs) = if job.name == name then ok job else find_job name jobs

  -- `RunJob`: the function that it calls, or the error.
  unfoldable pub run_job : Bytes → Jobs F → Result JobError F
  run_job name jobs = elim (find_job name jobs) [ err e ↦ err e | ok job ↦ ok job.execution_fn ]

  -- `ExecuteCommand`: the reply, the jobs after it, and the name that a new goroutine runs.
  unfoldable pub execute_command :
      Bytes → List Bytes → Jobs F → Result JobError Bytes × Jobs F × Option Bytes
  unfolding list_jobs
  execute_command cmd args jobs =
      if cmd == codes "list"
      then (ok (join (list_jobs jobs) (codes "\n")), jobs, none)
      else if cmd == codes "run"
      then elim args [
        | [] ↦ (ok (codes "Usage: job run name"), jobs, none)
        | name ∷ rest ↦ (ok (codes "OK"), jobs, some name)
      ]
      else if cmd == codes "cancel"
      then elim args [
        | [] ↦ (ok (codes "Usage: job cancel name"), jobs, none)
        | name ∷ rest ↦
            let (e, left) = cancel_job name jobs in
            elim e [
              | none ↦ (ok (codes "OK"), left, none)
              | some x ↦ (err (cancel_failed name x), left, none)
            ]
      ]
      else (err (unknown_job_command cmd), jobs, none)
