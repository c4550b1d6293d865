-- ===== src/Tests/Services.antt =====
-- The services: jobs, updates, nodes and storages.
use sprintframework.Common.{
  ℕ, Bool, true, false, none, some, List, [], ◌∷◌, ◌++◌, ◌≡◌, ◌%◌, ◌^◌, refl, arith, Bytes, codes,
  err, nat_eq, bytes_eq,
}
use sprintframework.Core.Store.Memory.{memory_store, memory_store-IsLawful}
use sprintframework.Core.JobService.{JobInfo, cancel_job, run_job, job_not_found}
use sprintframework.Core.JobService.Cancel.{run_job-cancel_job}
use sprintframework.Core.Autoupdate.{
  FileInformation, started, steps, froze, unfroze, file_changed, write, freeze, fire,
  trigger_update, has_freeze_job,
}
use sprintframework.Core.Autoupdate.Freezing.{freeze_too_late}
use sprintframework.Core.Autoupdate.Runs.{quiet_runs_on}
use sprintframework.Core.NodeService.{Issuer, Sequences, looking, issued}
use sprintframework.Core.NodeService.Issuing.{
  HasSequenceBits, issue_all, issue_all-AllDistinct, AllDistinct,
}
use sprintframework.Core.NodeService.Interleaving.{issued_twice, moves, overtaken}
use sprintframework.Core.StorageService.{Codec, Storage, query_store, console}
use sprintframework.Core.StorageService.Queries.{query_get-set}
use sprintframework.Core.StorageService.LocalConsole.{local_console}
use sprintframework.Common.{ap}
use sprintframework.Client.Console.{left, session}
use sprintframework.Client.Console.Session.{serving, session_lem}
use sprintframework.Core.StorageService.Console.{console-answers, recorded, answers}

-- Two jobs, whose functions are numbers.
abbrev jobs : List (JobInfo ℕ)
jobs =
    record { name = codes "a"; execution_fn = 1 }
    ∷ record { name = codes "b"; execution_fn = 2 }
    ∷ []

run_job-cancel_job_example : run_job (codes "a") (cancel_job (codes "a") jobs).1 ≡ err job_not_found
unfolding bytes_eq
run_job-cancel_job_example =
    run_job-cancel_job (codes "a") (codes "a") jobs (((λ e. absurd (ground arith)), tt), (tt, tt))

abbrev stat : FileInformation
stat = record { name = codes "f"; size = 10; mod_time = 5 }

freeze_too_late_example :
    let u = (freeze (codes "job") (trigger_update 7 (started stat))).1 in
    (has_freeze_job u ≡ true) × ((fire 8 false 7 u).shutdown ≡ some true)
unfolding started
freeze_too_late_example = freeze_too_late 7 8 (codes "job") (started stat) refl

quiet_runs_on_example :
    (steps
      (froze (codes "job") ∷ file_changed 3 write (codes "f") (some (10, 5)) ∷ unfroze 4 1 ∷ [])
      (started stat)).shutdown
    ≡ none
quiet_runs_on_example =
    quiet_runs_on stat
      (froze (codes "job") ∷ file_changed 3 write (codes "f") (some (10, 5)) ∷ unfroze 4 1 ∷ [])
      (tt, ((refl, omega arith), (tt, tt)))

abbrev issuer : Issuer
issuer = record { last_timestamp = 3; clock = 0 }

-- An id that keeps the lower 14 bits.
abbrev lower_bits : Sequences
lower_bits = record { new = 0; kept = λ n. n % 2 ^ 14 }

lower_bits-HasSequenceBits : HasSequenceBits lower_bits
lower_bits-HasSequenceBits = record {
  new_zero = refl;
  apart = λ m n hm hn e. omega (arith, hm, hn, e);
}

issue_all-AllDistinct_example :
    (issue_all lower_bits (3 ∷ 3 ∷ 5 ∷ 5 ∷ []) issuer
      ≡ issued 3 1 ∷ issued 3 2 ∷ issued 5 0 ∷ issued 5 1 ∷ [])
    × AllDistinct {A = ℕ × ℕ} ((3, 1) ∷ (3, 2) ∷ (5, 0) ∷ (5, 1) ∷ [])
unfolding nat_eq
issue_all-AllDistinct_example =
    issue_all-AllDistinct lower_bits (3 ∷ 3 ∷ 5 ∷ 5 ∷ []) issuer lower_bits-HasSequenceBits
      (omega arith, (omega arith, (omega arith, (omega arith, tt)))) (omega arith)

issued_twice_example :
    let w =
      moves lower_bits 4 overtaken
        (record { first = looking 4; second = looking 4; third = looking 4; issuer = issuer }) in
    (w.first ≡ issued 4 0) × ((w.second ≡ issued 4 1) × (w.third ≡ issued 4 1))
issued_twice_example = issued_twice lower_bits 3 4 (λ e. absurd (ground arith))

abbrev codec : Codec
codec = record { encode = λ s. s; decode = λ s. some s; matches = λ pattern name. true }

-- A callback that keeps what it is told.
abbrev keeping : List Bytes → Bytes → List Bytes × Bool
keeping w content = (w ++ (content ∷ []), true)

query_get-set_example :
    let u = (query_store memory_store codec keeping [] [] (codes "set") (codes "k v") []).1 in
    query_store memory_store codec keeping [] [] (codes "get") (codes "k") u
    ≡ (none, u, codes "v" ∷ [])
unfolding sprintframework.Core.StorageService.set_args sprintframework.Strings.index_byte
    sprintframework.Strings.trim_space
query_get-set_example =
    query_get-set memory_store memory_store-IsLawful codec keeping [] [] [] (codes "k v")
      (codes "k") (codes "v") (codes "v") [] refl refl refl

abbrev storage : Storage memory_store codec
storage = record {
  store_map = (codes "config-store", []) ∷ (codes "other", (codes "k", codes "v") ∷ []) ∷ [];
  available_stores = codes "config-store" ∷ codes "other" ∷ [];
}

console-answers_example :
    let (returned, u, v) =
      console memory_store codec
        (recorded memory_store memory_store-IsLawful codec)
        (codes "config-store")
        (codes "use other" ∷ codes "get k" ∷ [])
        storage
        [] in
    (returned ≡ true) × (answers memory_store memory_store-IsLawful codec v ≡ 2)
console-answers_example =
    console-answers memory_store memory_store-IsLawful codec (codes "config-store")
      (codes "use other" ∷ codes "get k" ∷ []) storage []

-- A query, an empty line, the end, and what is not asked any more.
abbrev typed : List Bytes
typed = codes "use other" ∷ [] ∷ codes "exit" ∷ codes "list" ∷ []

session_lem_example :
    (session
      (serving memory_store memory_store-IsLawful codec
        (λ r. codes "text")
        (codes "config-store")
        storage)
      typed
      []
      []).1
    ≡ left
unfolding bytes_eq
session_lem_example =
    ap (λ s. s.1)
      (session_lem memory_store memory_store-IsLawful codec (λ r. codes "text")
        (codes "config-store") storage typed)

local_console_runs :
    (local_console memory_store codec typed (codes "config-store") storage []).0 ≡ true
unfolding local_console bytes_eq
local_console_runs = refl
