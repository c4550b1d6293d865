-- ===== src/App/Application/Shutdown.antt =====
-- Shutdown happens once: the first request decides, and the later ones change nothing.
use sprintframework.Common.{Bool, true, false, some, List, [], ◌∷◌, ◌≡◌, refl, arith}
use sprintframework.Common.{Bytes, codes, Result, ok, ◌>>=◌}
use sprintframework.App.Application.{
  Application, opened, closed, Panic, Choice, with_nope, with_version, with_build, with_beans,
  shutdown, new_application, apply_all, apply,
}

-- The requests of any callers, in the order in which the `sync.Once` admits them.
pub shutdown_all : {B : Type 0} → List Bool → Application B → Result Panic (Application B)
shutdown_all [] t = ok t
shutdown_all (r ∷ rs) t = shutdown r t >>= λ u. shutdown_all rs u

-- The application once a request has been served.
abbrev pub shut_down : {B : Type 0} → Bool → Application B → Application B
shut_down restart t = record t {
  shutdown_done = true;
  restarting = restart;
  shutting_down = true;
  error = some (codes "closed");
  shutdown_ch = closed;
}

shutdown_of_done :
    {B : Type 0} (r : Bool) (t : Application B) → t.shutdown_done ≡ true → shutdown r t ≡ ok t
unfolding shutdown
shutdown_of_done r t h = ground arith

shutdown_of_open :
    {B : Type 0} (r : Bool) (t : Application B)
    → t.shutdown_done ≡ false
    → t.shutdown_ch ≡ opened
    → shutdown r t ≡ ok (shut_down r t)
unfolding shutdown
shutdown_of_open r t h o = simp (h, o)

shutdown_all_of_done :
    {B : Type 0} (rs : List Bool) (t : Application B)
    → t.shutdown_done ≡ true
    → shutdown_all rs t ≡ ok t
unfolding shutdown_all
shutdown_all_of_done [] t h = refl
shutdown_all_of_done (r ∷ rs) t h = rw (shutdown_of_done r t h) (shutdown_all_of_done rs t h)

apply_all_open :
    {B : Type 0} (os : List (Choice B)) (t : Application B)
    → (t.shutdown_done ≡ false) × (t.shutdown_ch ≡ opened)
    → ((apply_all os t).shutdown_done ≡ false) × ((apply_all os t).shutdown_ch ≡ opened)
unfolding apply_all apply
apply_all_open [] t h = h
apply_all_open (with_nope ∷ os) t h = apply_all_open os _ h
apply_all_open (with_version v ∷ os) t h = apply_all_open os _ h
apply_all_open (with_build b ∷ os) t h = apply_all_open os _ h
apply_all_open (with_beans bs ∷ os) t h = apply_all_open os _ h

new_application_open :
    {B : Type 0} (name : Bytes) (options : List (Choice B))
    → ((new_application name options).shutdown_done ≡ false)
      × ((new_application name options).shutdown_ch ≡ opened)
unfolding new_application
new_application_open name options = apply_all_open options _ (refl, refl)

shutdown_all_of_open :
    {B : Type 0} (r : Bool) (rs : List Bool) (t : Application B)
    → t.shutdown_done ≡ false
    → t.shutdown_ch ≡ opened
    → shutdown_all (r ∷ rs) t ≡ ok (shut_down r t)
unfolding shutdown_all
shutdown_all_of_open r rs t d o = rw (shutdown_of_open r t d o) (shutdown_all_of_done rs _ refl)

-- However a new application was configured, one or more requests to shut down end with no
-- panic. The first request alone decides whether the application restarts; its channel is closed
-- once, its error is set, and the later requests change nothing.
pub shutdown_first_wins :
    {B : Type 0} (name : Bytes) (options : List (Choice B)) (r : Bool) (rs : List Bool)
    → shutdown_all (r ∷ rs) (new_application name options)
      ≡ ok (shut_down r (new_application name options))
shutdown_first_wins name options r rs =
    let (d, o) = new_application_open name options in shutdown_all_of_open r rs _ d o
