-- ===== src/Cmd/Fallback.antt =====
-- When a command works on the local stores in place of the running node.
use sprintframework.Common.{◌≡◌, ◌≢◌, refl, ap, ◌∙◌}
use sprintframework.Common.{Bool, false, Option, none, some, List, [], ◌∷◌}
use sprintframework.Common.{Bytes, codes, ◌==◌, nat_eq, bytes_eq, if◌then◌else◌, Result, ok, err}
use sprintframework.Common.{==_of_ne}
use sprintframework.Common.Dict.{Dict}
use sprintframework.Utils.Tokens.{Jwt}
use sprintframework.Core.Store.{Store}
use sprintframework.Core.ConfigRepository.{Repository, Fault}
use sprintframework.Core.ConfigRepository
use sprintframework.Server.Authorization.{Middleware, Context, has_user_role}
use sprintframework.Server.Control.{Command, ControlError, admin}
use sprintframework.Server.Control
use sprintframework.Server.Control.Gate.{check_user-refuses, config-refused}
use sprintframework.Client.{
  Failure, plain, Method, node, config, certificate, job, storage, Connection, command, wrap_error,
  wrapped,
}
use sprintframework.Cmd.{
  Runner, Cores, Service, do_in_core, or_local, storage_run, cert_run, certificates,
}
use sprintframework.Cmd.Config.{get_config, get_from_storage}

-- The client that is found is this connection.
abbrev pub Connects : {W : Type 0} → Runner W → Connection W → Type 1
Connects {W} run c =
    (A : Type 0) (cb : Connection W → W → Result Failure A × W) (w : W) → run A cb w ≡ cb c w

-- A core that can be created and injected is the only one.
abbrev pub only : {C : Type 0} → C → Cores C
only core = record { found = ok core ∷ []; inject = λ c. none }

module _ {C : Type 0} where
  -- What 'cert' does on a core: without a certificate service it prints a text and leaves the core.
  abbrev pub local_certificates :
      Option (Service C) → Bytes → List Bytes → C → Result Failure Bytes × C
  local_certificates service cmd args core = elim service [
    | none ↦ (ok (codes "Error: cert.CertificateService not found in core context"), core)
    | some execute ↦ execute cmd args core
  ]

module _ {W C : Type 0} where
  -- The reply of the node, or what is done where it replies an error.
  abbrev pub reply_or :
      (c : Connection W)
      → Method
      → Bytes
      → List Bytes
      → W
      → Result Failure Bytes × Option C
      → Result Failure Bytes × W × Option C
  reply_or c method cmd args w local =
      let (r, v) = c.call method (record { command = cmd; args = args }) w in
      elim r [ ok content ↦ (ok content, v, none) | err e ↦ (local.0, v, local.1) ]

  or_local-wrapped :
      (c : Connection W) (reply : Result c.Error Bytes × W)
      (local : Result Failure Bytes × Option C)
      → or_local (wrapped c reply) local ≡ elim reply.0 [
        | ok content ↦ (ok content, reply.1, none)
        | err e ↦ (local.0, reply.1, local.1)
      ]
  unfolding or_local wrapped wrap_error
  or_local-wrapped c (ok content, v) local = refl
  or_local-wrapped c (err e, v) local = refl

  or_local-command :
      (c : Connection W) (method : Method) (cmd : Bytes) (args : List Bytes) (w : W)
      (local : Result Failure Bytes × Option C)
      → or_local (command c method cmd args w) local ≡ reply_or c method cmd args w local
  unfolding command
  or_local-command c method cmd args w local =
      or_local-wrapped c (c.call method (record { command = cmd; args = args }) w) local

  -- What is done behind a refusal.
  pub reply_or-err :
      (c : Connection W) (method : Method) (cmd : Bytes) (args : List Bytes) (v w : W) (e : c.Error)
      (local : Result Failure Bytes × Option C)
      → c.call method (record { command = cmd; args = args }) w ≡ (err e, v)
      → reply_or c method cmd args w local ≡ (local.0, v, local.1)
  reply_or-err c method cmd args v w e local q =
      ap
        (λ r. elim r.0 as (λ _. Result Failure Bytes × W × Option C) [
          | ok content ↦ (ok content, r.1, none)
          | err x ↦ (local.0, r.1, local.1)
        ])
        q

  or_local-run :
      (run : Runner W) (c : Connection W)
      → Connects run c
      → (method : Method) (cmd : Bytes) (args : List Bytes) (w : W)
        (local : Result Failure Bytes × Option C)
      → or_local (run Bytes (λ d. command d method cmd args) w) local
        ≡ reply_or c method cmd args w local
  or_local-run run c h method cmd args w local =
      ap (λ r. or_local r local) (h Bytes (λ d. command d method cmd args) w)
      ∙ or_local-command c method cmd args w local

  local_certificates-eq :
      (run : Runner W) (cores : Cores C) (service : Option (Service C)) (cmd : Bytes)
      (args : List Bytes)
      → do_in_core cores (certificates run cores service cmd args)
        ≡ do_in_core cores (local_certificates service cmd args)
  unfolding certificates
  local_certificates-eq run cores none cmd args = refl
  local_certificates-eq run cores (some execute) cmd args = refl

  -- The commands 'storage', but for its console, and 'cert' print the reply of the node; whatever
  -- error the node replies, a refusal too, they work on the local core. There 'storage' and 'cert'
  -- execute the same command, but that 'cert' rejects the manager of the certificates, and prints
  -- a text and leaves the core as it is if that has no certificate service. The client that is
  -- found is a connection to the node.
  pub any_error_falls_back :
      (run : Runner W) (cores : Cores C) (c : Connection W)
      (console : Connection W → W → Result Failure Bytes × W)
      (local_console : C → Result Failure Bytes × C) (execute : Service C)
      (service : Option (Service C)) (cmd : Bytes) (args : List Bytes) (w : W)
      → Connects run c
      → (cmd ≢ codes "console"
          → storage_run run cores console local_console execute (cmd ∷ args) w
            ≡ reply_or c storage cmd args w (do_in_core cores (execute cmd args)))
        × (cert_run run cores service (cmd ∷ args) w
            ≡ reply_or c certificate cmd args w (
                if cmd == codes "manager"
                then (
                  err (plain (codes "cert manager command available only on running server")),
                  none,
                )
                else do_in_core cores (local_certificates service cmd args)))
  unfolding storage_run cert_run
  any_error_falls_back run cores c console local_console execute service cmd args w h =
      let rejected : Result Failure Bytes =
        err (plain (codes "cert manager command available only on running server")) in
      (
        (λ ne.
            rw (==_of_ne cmd (codes "console") ne, if◌then◌else◌)
              (or_local-run run c h storage cmd args w (do_in_core cores (execute cmd args)))),
        or_local-run run c h certificate cmd args w (
              if cmd == codes "manager"
              then (rejected, none)
              else do_in_core cores (certificates run cores service cmd args))
            ∙ ap
                (λ local.
                  reply_or c certificate cmd args w
                    (if cmd == codes "manager" then (rejected, none) else local))
                (local_certificates-eq run cores service cmd args),
      )

module _ (S : Store) (print : Fault S.Error → Bytes) where
  -- A connection whose calls of `Config` reach the control service, as this context.
  abbrev pub served_by :
      Jwt
      → Middleware
      → Context
      → Option Bool
      → Bytes
      → (ControlError S.Error → Bytes)
      → (Method → Command → Repository S → Result (ControlError S.Error) Bytes × Repository S)
      → (Repository S → Result (ControlError S.Error) (Dict Bytes Bytes))
      → Connection (Repository S)
  served_by J m ctx tls target print_error others stats = record {
    tls = tls;
    target = target;
    Error = ControlError S.Error;
    print = print_error;
    call = λ method req w. elim method [
      | config ↦ Control.config J S m ctx req w
      | node ↦ others node req w
      | certificate ↦ others certificate req w
      | job ↦ others job req w
      | storage ↦ others storage req w
    ];
    stats = stats;
  }

  pub get_config-reply :
      {W : Type 0} (run : Runner W) (cores : Cores (Repository S)) (c : Connection W) (key : Bytes)
      (rest : List Bytes) (w : W)
      → Connects run c
      → get_config S print run cores (key ∷ rest) w
        ≡ reply_or c config (codes "get") (key ∷ []) w (get_from_storage S print run cores key)
  unfolding get_config
  get_config-reply run cores c key rest w h =
      or_local-run run c h config (codes "get") (key ∷ []) w
        (get_from_storage S print run cores key)

  -- The local reading of a key, whatever the key is.
  pub get_from_storage-only :
      {W : Type 0} (run : Runner W) (t : Repository S) (key value : Bytes)
      → ConfigRepository.get S t key ≡ ok value
      → get_from_storage S print run (only t) key ≡ (ok value, some t)
  unfolding get_from_storage do_in_core sprintframework.Cmd.in_core
  get_from_storage-only run t key value g = rw (g) refl

  -- The command 'config get' of a user without the role ADMIN is refused by the node, and then
  -- carried out on the local core: it prints the value, a hidden one too. The client that is found
  -- is a connection to the control service, and the core's repository holds the value.
  pub refused_get_reads_local :
      (J : Jwt) (m : Middleware) (ctx : Context) (run : Runner (Repository S)) (tls : Option Bool)
      (target : Bytes) (print_error : ControlError S.Error → Bytes)
      (others : Method
        → Command
        → Repository S
        → Result (ControlError S.Error) Bytes × Repository S)
      (stats : Repository S → Result (ControlError S.Error) (Dict Bytes Bytes)) (key : Bytes)
      (rest : List Bytes) (w t : Repository S) (value : Bytes)
      → has_user_role J m ctx admin ≡ false
      → Connects run (served_by J m ctx tls target print_error others stats)
      → ConfigRepository.get S t key ≡ ok value
      → get_config S print run (only t) (key ∷ rest) w ≡ (ok value, w, some t)
  refused_get_reads_local J m ctx run tls target print_error others stats key rest w t value refused
        h g =
      let (e, q) = check_user-refuses J {E = S.Error} m ctx refused in
      get_config-reply run (only t) (served_by J m ctx tls target print_error others stats) key rest
        w h
      ∙ reply_or-err (served_by J m ctx tls target print_error others stats) config (codes "get")
          (key ∷ []) w w e (get_from_storage S print run (only t) key)
          (config-refused J S m ctx (record { command = codes "get"; args = key ∷ [] }) w e q)
      ∙ ap (λ r. (r.0, w, r.1)) (get_from_storage-only run t key value g)
