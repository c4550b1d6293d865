-- ===== src/Server/Control/Gate.antt =====
-- Only a user with the role ADMIN gets past the guards of the control service.
use sprintframework.Common.{
  Bool, true, false, Option, none, some, ◌≡◌, ◌↔◌, refl, arith, ap, sym, ◌∙◌, inl, inr,
}
use sprintframework.Common.{
  Bytes, codes, ◌==◌, bytes_eq, if◌then◌else◌, err, IsErr, Option-cases, Bool-cases,
}
use sprintframework.Utils.Tokens.{Jwt}
use sprintframework.Core.Store.{Store}
use sprintframework.Core.ConfigRepository.{Repository}
use sprintframework.Server.Authorization.{Middleware, Context, get_user, has_user_role}
use sprintframework.Server.Control.{
  Command, ControlError, user_not_found, wrong_role, admin_required, Executor, admin, check_user,
  node, service_command, certificate, config,
}

-- What an administrator's command schedules.
abbrev scheduled : Bytes → Option Bool
scheduled command =
    if command == codes "restart"
    then some true
    else if command == codes "shutdown"
    then some false
    else none

scheduled_iff :
    (command : Bytes) (restart : Bool)
    → (scheduled command ≡ some restart)
      ↔ (command ≡ (if restart then codes "restart" else codes "shutdown"))
scheduled_iff command true = (λ h. ground arith, λ h. ground arith)
scheduled_iff command false = (λ h. ground arith, λ h. ground arith)

module _ (J : Jwt) where
  check_user-eq-none :
      {E : Type 0} (m : Middleware) (ctx : Context)
      → has_user_role J m ctx admin ≡ true
      → check_user J {E = E} m ctx ≡ none
  unfolding check_user has_user_role
  check_user-eq-none m ctx h = ground arith

  pub check_user-refuses :
      {E : Type 0} (m : Middleware) (ctx : Context)
      → has_user_role J m ctx admin ≡ false
      → (e : ControlError E) × (check_user J m ctx ≡ some e)
  unfolding check_user has_user_role
  check_user-refuses m ctx h = elim (Option-cases (get_user J m ctx)) [
    | inl e ↦ (user_not_found, ground arith)
    | inr (user, e) ↦ (wrong_role, ground arith)
  ]

  node-refused :
      {E : Type 0} (m : Middleware) (ctx : Context) (req : Command) (e : ControlError E)
      → check_user J m ctx ≡ some e
      → node J m ctx req ≡ (err e, none)
  unfolding node
  node-refused m ctx req e r = rw (r, node)

  pub config-refused :
      (S : Store) (m : Middleware) (ctx : Context) (req : Command) (t : Repository S)
      (e : ControlError S.Error)
      → check_user J m ctx ≡ some e
      → config J S m ctx req t ≡ (err e, t)
  unfolding config
  config-refused S m ctx req t e r = rw (r, config)

  certificate-refused :
      (X : Executor) (m : Middleware) (ctx : Context) (req : Command)
      (manager service : Option X.State) (e : ControlError X.Error)
      → check_user J m ctx ≡ some e
      → certificate J X m ctx req manager service ≡ (err e, manager, service)
  unfolding certificate
  certificate-refused X m ctx req manager service e r = rw (r, certificate)

  service_command-refused :
      (X : Executor) (m : Middleware) (ctx : Context) (req : Command) (s : X.State)
      → has_user_role J m ctx admin ≡ false
      → service_command J X m ctx req s ≡ (err admin_required, s)
  unfolding service_command
  service_command-refused X m ctx req s h = rw (h, service_command)

  -- For a user without the role ADMIN the handlers `Node`, `Config`, `Job`, `Storage` and
  -- `Certificate` reply with an error and leave their state alone: no shutdown is scheduled, no
  -- property is written, and the services that execute commands stay as they were.
  pub refused_without_admin :
      (S : Store) (X : Executor) (m : Middleware) (ctx : Context) (req : Command) (t : Repository S)
      (s : X.State) (manager service : Option X.State)
      → has_user_role J m ctx admin ≡ false
      → (IsErr (node J {E = X.Error} m ctx req).0 × ((node J {E = X.Error} m ctx req).1 ≡ none))
        × (IsErr (config J S m ctx req t).0 × ((config J S m ctx req t).1 ≡ t))
        × (service_command J X m ctx req s ≡ (err admin_required, s))
        × (IsErr (certificate J X m ctx req manager service).0
            × ((certificate J X m ctx req manager service).1 ≡ manager)
            × ((certificate J X m ctx req manager service).2 ≡ service))
  refused_without_admin S X m ctx req t s manager service h =
      let (e, r) = check_user-refuses {E = X.Error} m ctx h in
      let (e', r') = check_user-refuses {E = S.Error} m ctx h in
      (
        rw (node-refused m ctx req e r) (tt, refl),
        rw (config-refused S m ctx req t e' r') (tt, refl),
        service_command-refused X m ctx req s h,
        rw (certificate-refused X m ctx req manager service e r) (tt, refl, refl),
      )

  node-allowed :
      (E : Type 0) (m : Middleware) (ctx : Context) (req : Command)
      → check_user J {E = E} m ctx ≡ none
      → (node J {E = E} m ctx req).1 ≡ scheduled req.command
  unfolding node
  node-allowed E m ctx req h = rw (h, node) (ground arith)

  -- The node is told to stop exactly by an administrator's command: to restart by `restart`, to
  -- shut down by `shutdown`, and by no other.
  pub node-schedules_iff :
      (E : Type 0) (m : Middleware) (ctx : Context) (req : Command) (restart : Bool)
      → ((node J {E = E} m ctx req).1 ≡ some restart) ↔ (
          (has_user_role J m ctx admin ≡ true)
          × (req.command ≡ (if restart then codes "restart" else codes "shutdown")))
  node-schedules_iff E m ctx req restart = elim (Bool-cases (has_user_role J m ctx admin)) [
    | inl h ↦
        let e = node-allowed E m ctx req (check_user-eq-none m ctx h) in
        (
          λ k. (h, (scheduled_iff req.command restart).0 (sym e ∙ k)),
          λ (_, k). e ∙ (scheduled_iff req.command restart).1 k,
        )
    | inr h ↦
        let (e, r) = check_user-refuses {E = E} m ctx h in
        let k = ap (λ p. p.1) (node-refused m ctx req e r) in
        (λ q. absurd (cc), λ (q, _). absurd (cc))
  ]
