-- ===== src/Server/Lifecycle/Shutdown.antt =====
-- What a shutdown does to a server.
use sprintframework.Common.{ℕ, suc, ◌+◌, ◌≡◌, refl, ◌∙◌, arith}
use sprintframework.Common.{Bool, true, false, Option, none, some, List, [], ◌∷◌, ◌++◌}
use sprintframework.Common.{nat_eq, bytes_eq, if◌then◌else◌}
use sprintframework.Server.Lifecycle.{
  Listener, Call, close_channel, close_server, graceful_stop, stop, close_listener, Server,
  close_shutdown_channel, finish, has_address, http_shutdown, grpc_shutdown, listener_calls,
}

-- How often the channel was closed.
abbrev pub closings : List Call → ℕ
closings [] = 0
closings (close_channel ∷ calls) = suc (closings calls)
closings (c ∷ calls) = closings calls

-- The channel is closed exactly when the server is shut down, and has then been closed once.
abbrev pub IsWellFormed : Server → Type 0
IsWellFormed s =
    (s.closed ≡ s.shut)
    × (has_address s.listener ≡ true)
    × (closings s.calls ≡ (if s.shut then 1 else 0))

closings-append : (xs ys : List Call) → closings (xs ++ ys) ≡ closings xs + closings ys
closings-append [] ys = omega arith
closings-append (close_channel ∷ xs) ys = omega (arith, closings-append xs ys)
closings-append (close_server ∷ xs) ys = closings-append xs ys
closings-append (graceful_stop ∷ xs) ys = closings-append xs ys
closings-append (stop ∷ xs) ys = closings-append xs ys
closings-append (close_listener l ∷ xs) ys = closings-append xs ys

closings-listener_calls : (o : Option Listener) → closings (listener_calls o) ≡ 0
closings-listener_calls none = refl
closings-listener_calls (some l) = refl

-- What is left when the channel of a server that is not shut down is closed.
abbrev pub closed_once : Server → Server
closed_once s = record s { closed = true; calls = s.calls ++ (close_channel ∷ []) }

close_lem : (s : Server) → s.closed ≡ false → close_shutdown_channel s ≡ some (closed_once s)
unfolding close_shutdown_channel
close_lem s e = rw (e) refl

pub finish-IsWellFormed :
    (calls : List Call) (s : Server)
    → closings calls ≡ 0
    → IsWellFormed s
    → s.shut ≡ false
    → IsWellFormed (finish calls (closed_once s))
unfolding finish
finish-IsWellFormed calls s h (c, l, n) f = (
  refl,
  l,
  ground (
    arith,
    closings-append ((s.calls ++ (close_channel ∷ [])) ++ calls) (listener_calls s.listener),
    closings-append (s.calls ++ (close_channel ∷ [])) calls,
    closings-append s.calls (close_channel ∷ []),
    closings-listener_calls s.listener,
    n,
    f,
    h,
  ),
)

pub http_shutdown-fresh :
    {E : Type 0} (close_error : Option E) (s : Server)
    → IsWellFormed s
    → s.shut ≡ false
    → http_shutdown close_error s ≡ some (finish (close_server ∷ []) (closed_once s), close_error)
unfolding http_shutdown
http_shutdown-fresh close_error s (c, l, n) f = ground (arith, f, l, close_lem s (c ∙ f))

pub http_shutdown-again :
    {E : Type 0} (close_error : Option E) (s : Server)
    → s.shut ≡ true
    → http_shutdown close_error s ≡ some (s, none)
unfolding http_shutdown
http_shutdown-again close_error s f = rw (f) refl

-- The calls that stop a gRPC server.
abbrev pub stopping : Bool → List Call
stopping in_time = if in_time then graceful_stop ∷ [] else graceful_stop ∷ stop ∷ []

pub grpc_shutdown-fresh :
    (in_time : Bool) (s : Server)
    → IsWellFormed s
    → s.shut ≡ false
    → grpc_shutdown in_time s ≡ some (finish (stopping in_time) (closed_once s))
unfolding grpc_shutdown
grpc_shutdown-fresh in_time s (c, l, n) f = ground (arith, f, close_lem s (c ∙ f))

pub grpc_shutdown-again :
    (in_time : Bool) (s : Server) → s.shut ≡ true → grpc_shutdown in_time s ≡ some s
unfolding grpc_shutdown
grpc_shutdown-again in_time s f = rw (f) refl

pub closings-stopping : (in_time : Bool) → closings (stopping in_time) ≡ 0
closings-stopping true = refl
closings-stopping false = refl
