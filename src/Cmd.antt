-- ===== src/Cmd.antt =====
-- The package sprintcmd: the commands that ask a running node, or else work on the local stores.
-- The module sprint finds the client and the contexts of the core: it is a parameter.
pub mod Config
pub mod Fallback
pub mod RoundTrip
pub mod Node
pub mod Processes
pub mod Child
pub mod Keygen
pub mod Setup
pub mod Servers
use sprintframework.Common.{◌+◌, arith}
use sprintframework.Common.{Bool, true, false, not, Option, none, some, List, [], ◌∷◌, ◌++◌}
use sprintframework.Common.{Bytes, codes, ◌==◌, nat_eq, bytes_eq, if◌then◌else◌, Result, ok, err}
use sprintframework.Common.Dict
use sprintframework.Client.{
  unavailable, unknown, Failure, plain, Connection, command, storage, job, certificate,
}

-- `DoWithControlClient`: it calls back with a client, or fails before it does.
abbrev pub Runner : Type 0 → Type 1
Runner W = (A : Type 0) → (Connection W → W → Result Failure A × W) → W → Result Failure A × W

-- `FilterChildrenByRole` for the core, the creation of each context that it finds, and the
-- injection of its beans. `C` is a core with what its stores hold.
pub record Cores (C : Type 0) : Type 0 where
  pub found : List (Result Bytes C)
  pub inject : C → Option Bytes

-- `status.Code(err) == codes.Unavailable`
abbrev pub is_unavailable : Failure → Bool
is_unavailable e = elim e.code [ unavailable ↦ true | unknown ↦ false ]

module _ {C A : Type 0} where
  -- The callback, unless the injection fails; the core is closed in either case.
  unfoldable pub in_core :
      Option Bytes → (C → Result Failure A × C) → C → Result Failure A × Option C
  in_core (some e) cb core = (err (plain e), some core)
  in_core none cb core = let (r, after) = cb core in (r, some after)

  -- `doInCore`: the result, and the core that was created and closed, if there is one.
  unfoldable pub do_in_core : Cores C → (C → Result Failure A × C) → Result Failure A × Option C
  unfolding in_core
  do_in_core cores cb = elim cores.found [
    | [] ↦ (err (plain (codes "expected only one core child context")), none)
    | first ∷ others ↦ elim others [
      | _ ∷ _ ↦ (err (plain (codes "expected only one core child context")), none)
      | [] ↦ elim first [
        | err e ↦ (err (plain (codes "failed to create core context, " ++ e)), none)
        | ok core ↦ in_core (cores.inject core) cb core
      ]
    ]
  ]

  -- The result of the client, or that of the local stores if the client is unavailable.
  unfoldable pub or_local :
      {W : Type 0}
      → Result Failure A × W
      → Result Failure A × Option C
      → Result Failure A × W × Option C
  or_local (ok a, w) local = (ok a, w, none)
  or_local (err e, w) (r, core) = if is_unavailable e then (r, w, core) else (err e, w, none)

-- A service of a core that executes commands.
abbrev pub Service : Type 0 → Type 0
Service C = Bytes → List Bytes → C → Result Failure Bytes × C

module _ {W C : Type 0} (run : Runner W) (cores : Cores C) where
  -- `Run` of the command 'storage', over the console of a client and that of the core: what it
  -- prints, and what is left outside and in the core.
  unfoldable pub storage_run :
      (Connection W → W → Result Failure Bytes × W)
      → (C → Result Failure Bytes × C)
      → Service C
      → List Bytes
      → W
      → Result Failure Bytes × W × Option C
  storage_run console local_console execute [] w =
      (err (plain (codes "storage needs command")), w, none)
  storage_run console local_console execute (cmd ∷ args) w =
      or_local
        (run Bytes
          (λ c v. if cmd == codes "console" then console c v else command c storage cmd args v) w)
        (do_in_core cores (if cmd == codes "console" then local_console else execute cmd args))

  certificates : Option (Service C) → Bytes → List Bytes → C → Result Failure Bytes × C
  certificates none cmd args core =
      (ok (codes "Error: cert.CertificateService not found in core context"), core)
  certificates (some execute) cmd args core = execute cmd args core

  -- `Run` of the command 'cert', over the certificate service of the core, if it has one.
  unfoldable pub cert_run :
      Option (Service C) → List Bytes → W → Result Failure Bytes × W × Option C
  unfolding certificates
  cert_run service [] w = (err (plain (codes "cert command needs argument")), w, none)
  cert_run service (cmd ∷ args) w = or_local (run Bytes (λ c. command c certificate cmd args) w) (
      if cmd == codes "manager"
      then (err (plain (codes "cert manager command available only on running server")), none)
      else do_in_core cores (certificates service cmd args))

-- `Run` of the command 'job', which has no local service.
unfoldable pub job_run : {W : Type 0} → Runner W → List Bytes → W → Result Failure Bytes × W
job_run run [] w = (err (plain (codes "job command needs argument")), w)
job_run run (cmd ∷ args) w = run Bytes (λ c. command c job cmd args) w
