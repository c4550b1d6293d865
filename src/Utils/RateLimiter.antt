-- ===== src/Utils/RateLimiter.antt =====
-- sprintutils/rate_limiter.go: calls that are kept apart. Times are those of a clock that does not
-- go back; the mutex makes a call begin behind the end of the one before it.
use sprintframework.Common.{ℕ, ◌+◌, ◌-◌, ◌≤◌, ◌≡◌, inl, inr, arith}
use sprintframework.Common.{List, [], ◌∷◌}
use sprintframework.Common.{◌==◌, nat_eq, bytes_eq, if◌then◌else◌, ltb}
use sprintframework.Common.{Bool-cases}
-- The default of 100 milliseconds is a parameter; a limit of 0 is replaced by it.
use mathlib.Core.Path.{subst}

pub record RateLimiter : Type 0 where
  pub limit : ℕ
  pub last_req_time : ℕ

-- What a call meets: the time since the end of the call before it, how much longer than asked it
-- sleeps, and how long its function runs.
pub record Call : Type 0 where
  pub gap : ℕ
  pub oversleep : ℕ
  pub duration : ℕ

abbrev pub effective : ℕ → RateLimiter → ℕ
effective default_limit t = if t.limit == 0 then default_limit else t.limit

-- `Do`: when the function starts, and the limiter behind it.
unfoldable pub do_call : ℕ → RateLimiter → Call → ℕ × RateLimiter
do_call default_limit t c =
    let limit = effective default_limit t in
    let start =
      if ltb c.gap limit
      then t.last_req_time + c.gap + (limit - c.gap) + c.oversleep
      else t.last_req_time + c.gap in
    (start, record { limit = limit; last_req_time = start + c.duration })

-- When the functions of the calls start, and when they end.
unfoldable pub do_calls : ℕ → RateLimiter → List Call → List (ℕ × ℕ)
do_calls default_limit t [] = []
do_calls default_limit t (c ∷ calls) =
    let (start, u) = do_call default_limit t c in
    (start, u.last_req_time) ∷ do_calls default_limit u calls

-- Each starts at least the limit behind the end of the one before it.
abbrev pub Apart : ℕ → ℕ → List (ℕ × ℕ) → Type 0
Apart limit last [] = Unit
Apart limit last ((start, end) ∷ spans) =
    (last + limit ≤ start) × (start ≤ end) × Apart limit end spans

do_call-start :
    (default_limit : ℕ) (t : RateLimiter) (c : Call)
    → t.last_req_time + effective default_limit t ≤ (do_call default_limit t c).0
unfolding do_call
do_call-start default_limit t c = elim (Bool-cases (ltb c.gap (effective default_limit t))) [
  | inl e ↦ ground (arith, e)
  | inr e ↦ ground (arith, e)
]

do_call-end :
    (default_limit : ℕ) (t : RateLimiter) (c : Call)
    → (do_call default_limit t c).0 ≤ (do_call default_limit t c).1.last_req_time
unfolding do_call
do_call-end default_limit t c = omega arith

do_call-limit :
    (default_limit : ℕ) (t : RateLimiter) (c : Call)
    → effective default_limit (do_call default_limit t c).1 ≡ effective default_limit t
unfolding do_call
do_call-limit default_limit t c = ground arith

-- The functions of any calls start at least the limit apart, each counted from the end of the one
-- before it, however long they run and whenever they are called.
do_calls-Apart :
    (default_limit : ℕ) (t : RateLimiter) (calls : List Call)
    → Apart (effective default_limit t) t.last_req_time (do_calls default_limit t calls)
unfolding do_calls
do_calls-Apart default_limit t [] = tt
do_calls-Apart default_limit t (c ∷ calls) =
    let u = (do_call default_limit t c).1 in
    (
      do_call-start default_limit t c,
      do_call-end default_limit t c,
      subst (λ l. Apart l u.last_req_time (do_calls default_limit u calls))
          (do_call-limit default_limit t c) (do_calls-Apart default_limit u calls),
    )
