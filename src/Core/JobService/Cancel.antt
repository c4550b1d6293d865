-- ===== src/Core/JobService/Cancel.antt =====
-- Cancelling removes the first job of the name, and that one alone.
use sprintframework.Common.{
  none, some, [], ◌∷◌, ◌++◌, ◌≡◌, ◌≢◌, refl, sym, ◌∙◌, ap, arith, All, append_assoc,
}
use sprintframework.Common.{
  Bytes, ◌==◌, bytes_eq, if◌then◌else◌, err, Option-cases, ==_of_eq, ==_of_ne, ==_self, inl, inr,
  ◌⊎◌,
}
use sprintframework.Core.JobService.{
  JobInfo, Jobs, job_not_found, cancel_loop, cancel_job, find_job, run_job,
}

module _ {F : Type 0} where
  abbrev pub IsOther : Bytes → JobInfo F → Type 0
  IsOther name job = job.name ≢ name

  -- The jobs, split at the first one of the name.
  pub record FirstNamed (name : Bytes) (jobs : Jobs F) (left : Jobs F) : Type 0 where
    pub before : Jobs F
    pub job : JobInfo F
    pub after : Jobs F
    pub others : All (IsOther name) before
    pub named : job.name ≡ name
    pub whole : jobs ≡ before ++ (job ∷ after)
    pub rest : left ≡ before ++ after

  cancel_loop-some :
      (name : Bytes) (passed jobs : Jobs F) {left : Jobs F}
      → cancel_loop name passed jobs ≡ some left
      → (q : Jobs F) × (left ≡ passed ++ q) × FirstNamed name jobs q
  unfolding cancel_loop
  cancel_loop-some name passed [] h = absurd (cc)
  cancel_loop-some name passed (job ∷ jobs) h = elim (bytes_eq.dec job.name name) [
    | yes e ↦ (
      jobs,
      ground arith,
      record {
        before = [];
        job = job;
        after = jobs;
        others = tt;
        named = e;
        whole = refl;
        rest = refl;
      },
    )
    | no n ↦
        let (q, eq, f) = cancel_loop-some name (passed ++ (job ∷ [])) jobs (ground arith) in
        (
          job ∷ q,
          eq ∙ append_assoc passed (job ∷ []) q,
          record {
            before = job ∷ f.before;
            job = f.job;
            after = f.after;
            others = (n, f.others);
            named = f.named;
            whole = ap (λ l. job ∷ l) f.whole;
            rest = ap (λ l. job ∷ l) f.rest;
          },
        )
  ]

  cancel_loop-none :
      (name : Bytes) (passed jobs : Jobs F)
      → cancel_loop name passed jobs ≡ none
      → All (IsOther name) jobs
  unfolding cancel_loop
  cancel_loop-none name passed [] h = tt
  cancel_loop-none name passed (job ∷ jobs) h =
      ground (arith, cancel_loop-none name (passed ++ (job ∷ [])) jobs)

  -- `CancelJob` succeeds by removing the first job of the name, with the jobs before and behind
  -- it left in their order; where it fails, no job has the name and the jobs stay as they were.
  pub cancel_job_lem :
      (name : Bytes) (jobs : Jobs F)
      → (((cancel_job name jobs).0 ≡ none) × FirstNamed name jobs (cancel_job name jobs).1)
        ⊎ ((cancel_job name jobs ≡ (some job_not_found, jobs)) × All (IsOther name) jobs)
  unfolding cancel_job
  cancel_job_lem name jobs = elim (Option-cases (cancel_loop name [] jobs)) [
    | inl e ↦ inr (rw (e, cancel_job) refl, cancel_loop-none name [] jobs e)
    | inr (left, e) ↦
        let (q, eq, f) = cancel_loop-some name [] jobs e in
        inl (rw (e, cancel_job) refl, rw (e, cancel_job) (rw eq f))
  ]

  -- No name stands twice.
  abbrev pub NodupNames : Jobs F → Type 0
  NodupNames [] = Unit
  NodupNames (job ∷ jobs) = All (IsOther job.name) jobs × NodupNames jobs

  find_job_absent :
      (name : Bytes) (jobs : Jobs F)
      → All (IsOther name) jobs
      → find_job name jobs ≡ err job_not_found
  unfolding find_job
  find_job_absent name [] h = refl
  find_job_absent name (job ∷ jobs) (n, h) = ground (arith, find_job_absent name jobs h)

  find_job_behind :
      (name : Bytes) (before after : Jobs F)
      → All (IsOther name) before
      → find_job name (before ++ after) ≡ find_job name after
  unfolding find_job
  find_job_behind name [] after h = refl
  find_job_behind name (job ∷ before) after (n, h) =
      ground (arith, find_job_behind name before after h)

  find_job_skip :
      (other : Bytes) (before : Jobs F) (job : JobInfo F) (after : Jobs F)
      → job.name ≢ other
      → find_job other (before ++ after) ≡ find_job other (before ++ (job ∷ after))
  unfolding find_job
  find_job_skip other [] job after n = ground arith
  find_job_skip other (j ∷ before) job after n =
      ground (arith, find_job_skip other before job after n)

  NodupNames-after :
      (before : Jobs F) (job : JobInfo F) (after : Jobs F)
      → NodupNames (before ++ (job ∷ after))
      → All (IsOther job.name) after
  NodupNames-after [] job after u = u.0
  NodupNames-after (j ∷ before) job after u = NodupNames-after before job after u.1

  find_job_left :
      (name other : Bytes) (jobs left : Jobs F)
      → NodupNames jobs
      → FirstNamed name jobs left
      → find_job other left ≡ (if other == name then err job_not_found else find_job other jobs)
  find_job_left name other jobs left u f = elim (bytes_eq.dec other name) [
    | yes e ↦
        let behind = NodupNames-after f.before f.job f.after (rw f.whole at u) in
        rw (==_of_eq other name e, f.rest, e, find_job_behind name f.before f.after f.others)
          (find_job_absent name f.after (rw f.named at behind))
    | no n ↦
        rw (==_of_ne other name n, f.rest, f.whole)
          (find_job_skip other f.before f.job f.after (λ e. n (sym e ∙ f.named)))
  ]

  find_job-cancel_job :
      (name other : Bytes) (jobs : Jobs F)
      → NodupNames jobs
      → find_job other (cancel_job name jobs).1
        ≡ (if other == name then err job_not_found else find_job other jobs)
  find_job-cancel_job name other jobs u = elim (cancel_job_lem name jobs) [
    | inl (e, f) ↦ find_job_left name other jobs _ u f
    | inr (e, a) ↦ elim (bytes_eq.dec other name) [
      | yes p ↦ rw (e, p, ==_self name) (find_job_absent name jobs a)
      | no n ↦ rw (e, ==_of_ne other name n) refl
    ]
  ]

  -- Where no two jobs share a name, a job that was cancelled can no longer be run, and every other
  -- job runs the function that it ran before.
  pub run_job-cancel_job :
      (name other : Bytes) (jobs : Jobs F)
      → NodupNames jobs
      → run_job other (cancel_job name jobs).1
        ≡ (if other == name then err job_not_found else run_job other jobs)
  unfolding run_job
  run_job-cancel_job name other jobs u = ground (arith, find_job-cancel_job name other jobs u)
