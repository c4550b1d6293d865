-- ===== src/Server/Lifecycle/Once.antt =====
-- A server is shut down once, whatever is done with it and in whatever order.
use sprintframework.Common.{ℕ, ◌≡◌, inl, inr, refl, sym, ap, ◌∙◌, arith}
use sprintframework.Common.{Bool, true, false, Option, none, some, [], ◌∷◌}
use sprintframework.Common.{Bytes, ◌==◌, nat_eq, bytes_eq, if◌then◌else◌}
use sprintframework.Common.{Bool-cases, Result-cases}
use mathlib.Core.Path.{subst}
use sprintframework.Utils.Address.{parse_and_adjust_tcp_addr, listen_text}
use sprintframework.Strconv.{ℤ}
use sprintframework.Server.Lifecycle.{
  Listener, close_server, Server, new_http_server, new_grpc_server, listen_at, http_bind, grpc_bind,
  finish, http_shutdown, grpc_shutdown, http_serve, grpc_serve, Outcome, returned, panicked, served,
  has_address, tls_around,
}
use sprintframework.Server.Lifecycle.Steps.{
  Kind, http, grpc, start, Step, bind_http, bind_grpc, serve_http, serve_grpc, end_serve, shut_http,
  shut_grpc, Reached, created, then_,
}
use sprintframework.Server.Lifecycle.Shutdown.{
  closings, IsWellFormed, closed_once, stopping, finish-IsWellFormed, http_shutdown-fresh,
  http_shutdown-again, grpc_shutdown-fresh, grpc_shutdown-again, closings-stopping,
}

listen_at-IsWellFormed :
    (free : Bytes → Bool) (tls : Bool) (text : Bytes) (s : Server)
    → IsWellFormed s
    → IsWellFormed (listen_at free tls text s).0
unfolding listen_at
listen_at-IsWellFormed free tls text s w = ground arith

start-IsWellFormed : (kind : Kind) → IsWellFormed (start kind)
unfolding new_http_server new_grpc_server
start-IsWellFormed (http addr) = (refl, refl, refl)
start-IsWellFormed grpc = (refl, refl, refl)

serve-IsWellFormed :
    (tls : Bool) (l : Listener) (s : Server)
    → s.listener ≡ some l
    → IsWellFormed s
    → IsWellFormed (http_serve tls s)
unfolding http_serve
serve-IsWellFormed true l s h (c, a, n) =
    (c, ap (λ o. has_address (some (tls_around o))) h ∙ ap has_address (sym h) ∙ a, n)
serve-IsWellFormed false l s h w = w

grpc_serve-IsWellFormed : (s : Server) → IsWellFormed s → IsWellFormed (grpc_serve s)
unfolding grpc_serve
grpc_serve-IsWellFormed s w = w

served-IsWellFormed :
    (outcome : Outcome) (s : Server) → IsWellFormed s → IsWellFormed (served outcome s).0
unfolding served
served-IsWellFormed (panicked text) s w = w
served-IsWellFormed (returned none) s w = w
served-IsWellFormed (returned (some text)) s w = w

http_bind-IsWellFormed :
    (resolve : Bytes → Option (Bytes × ℕ)) (free : Bytes → Bool) (seq : ℤ) (s : Server)
    → IsWellFormed s
    → IsWellFormed (http_bind resolve free seq s).0
unfolding http_bind
http_bind-IsWellFormed resolve free seq s w =
    elim (Result-cases (parse_and_adjust_tcp_addr resolve s.addr seq)) [
      | inl (a, e) ↦ rw (e, http_bind) (listen_at-IsWellFormed free false (listen_text a) s w)
      | inr (x, e) ↦ rw (e, http_bind) w
    ]

grpc_bind-IsWellFormed :
    (resolve : Bytes → Option (Bytes × ℕ)) (free : Bytes → Bool) (property : Bytes) (tls : Bool)
    (seq : ℤ) (s : Server)
    → IsWellFormed s
    → IsWellFormed (grpc_bind resolve free property tls seq s).0
unfolding grpc_bind
grpc_bind-IsWellFormed resolve free property tls seq s w = elim (Bool-cases (property == [])) [
  | inl p ↦ rw (p) w
  | inr p ↦ rw (p) (elim (Result-cases (parse_and_adjust_tcp_addr resolve property seq)) [
    | inl (a, e) ↦ rw (e) (listen_at-IsWellFormed free tls (listen_text a) s w)
    | inr (x, e) ↦ rw (e) w
  ])
]

http_shutdown-IsWellFormed :
    {E : Type 0} (close_error r : Option E) (s t : Server)
    → http_shutdown close_error s ≡ some (t, r)
    → IsWellFormed s
    → IsWellFormed t
http_shutdown-IsWellFormed close_error r s t e w = elim (Bool-cases s.shut) [
  | inl f ↦ ground (arith, http_shutdown-again close_error s f, e, w)
  | inr f ↦
      subst IsWellFormed {x = finish (close_server ∷ []) (closed_once s)} {y = t}
        (ground (arith, http_shutdown-fresh close_error s w f, e))
        (finish-IsWellFormed (close_server ∷ []) s refl w f)
]

grpc_shutdown-IsWellFormed :
    (in_time : Bool) (s t : Server)
    → grpc_shutdown in_time s ≡ some t
    → IsWellFormed s
    → IsWellFormed t
grpc_shutdown-IsWellFormed in_time s t e w = elim (Bool-cases s.shut) [
  | inl f ↦ ground (arith, grpc_shutdown-again in_time s f, e, w)
  | inr f ↦
      subst IsWellFormed {x = finish (stopping in_time) (closed_once s)} {y = t}
        (ground (arith, grpc_shutdown-fresh in_time s w f, e))
        (finish-IsWellFormed (stopping in_time) s (closings-stopping in_time) w f)
]

Step-IsWellFormed : {kind : Kind} {s t : Server} → Step kind s t → IsWellFormed s → IsWellFormed t
Step-IsWellFormed (bind_http addr resolve free seq s) w =
    http_bind-IsWellFormed resolve free seq s w
Step-IsWellFormed (bind_grpc resolve free property tls seq s) w =
    grpc_bind-IsWellFormed resolve free property tls seq s w
Step-IsWellFormed (serve_http addr tls l s h) w = serve-IsWellFormed tls l s h w
Step-IsWellFormed (serve_grpc l s h) w = grpc_serve-IsWellFormed s w
Step-IsWellFormed (end_serve kind outcome s) w = served-IsWellFormed outcome s w
Step-IsWellFormed (shut_http addr close_error r s t e) w =
    http_shutdown-IsWellFormed close_error r s t e w
Step-IsWellFormed (shut_grpc in_time s t e) w = grpc_shutdown-IsWellFormed in_time s t e w

Reached-IsWellFormed : {kind : Kind} {s : Server} → Reached kind s → IsWellFormed s
Reached-IsWellFormed (created kind) = start-IsWellFormed kind
Reached-IsWellFormed (then_ kind s t r h) = Step-IsWellFormed h (Reached-IsWellFormed r)

-- A server that was created and then bound, asked to serve once bound, left to end its serving and
-- shut down, in any order and as often as one likes, closes its channel at most once: it has done
-- so exactly when it was shut down. So a shutdown, or a further one, never panics, and after the
-- first one it changes nothing more.
pub shutdown_once :
    (kind : Kind) (s : Server)
    → Reached kind s
    → (closings s.calls ≡ (if s.shut then 1 else 0))
      × ((close_error : Option Bytes)
          → http_shutdown close_error s
            ≡ some (
                if s.shut
                then (s, none)
                else (finish (close_server ∷ []) (closed_once s), close_error)))
      × ((in_time : Bool)
          → grpc_shutdown in_time s
            ≡ some (if s.shut then s else finish (stopping in_time) (closed_once s)))
shutdown_once kind s r =
    let w = Reached-IsWellFormed r in
    (
      w.2,
      (λ close_error. elim (Bool-cases s.shut) [
        | inl f ↦ ground (arith, f, http_shutdown-again close_error s f)
        | inr f ↦ ground (arith, f, http_shutdown-fresh close_error s w f)
      ]),
      (λ in_time. elim (Bool-cases s.shut) [
        | inl f ↦ ground (arith, f, grpc_shutdown-again in_time s f)
        | inr f ↦ ground (arith, f, grpc_shutdown-fresh in_time s w f)
      ]),
    )
