-- ===== src/Server/Lifecycle.antt =====
-- sprintserver/http_server.go and sprintserver/grpc_server.go: the states of a server between its
-- creation and its end. The server of net/http or of gRPC, the resolver and the listeners of net
-- are parameters; a listener is the address that it listens on.
pub mod Steps
pub mod Shutdown
pub mod Once
use mathlib.Core.Option
use sprintframework.Common.{ℕ, ◌+◌, arith}
use sprintframework.Common.{Bool, true, false, not, Option, none, some, List, [], ◌∷◌, ◌++◌, map}
use sprintframework.Common.{Bytes, codes, ◌==◌, nat_eq, bytes_eq, if◌then◌else◌, ok, err}
use sprintframework.Common.Dict
use sprintframework.Strings.{contains_text}
use sprintframework.Strconv.{ℤ}
use sprintframework.Utils.Address.{AddrError, parse_and_adjust_tcp_addr, listen_text}

-- TLS stands around a listener, or around none where a server was never bound.
pub data Listener : Type 0 where
  listens : Bytes → Listener
  over_nothing : Listener
  over_tls : Listener → Listener

-- The calls of a shutdown, in their order.
pub data Call : Type 0 where
  close_channel : Call
  close_server : Call
  graceful_stop : Call
  stop : Call
  close_listener : Listener → Call

-- `shut` is whether `shutdownOnce` has run, `closed` whether `shutdownCh` is closed.
pub record Server : Type 0 where
  pub addr : Bytes
  pub listener : Option Listener
  pub alive : Bool
  pub shut : Bool
  pub closed : Bool
  pub calls : List Call

-- `NewHttpServer` over a server with the address.
unfoldable pub new_http_server : Bytes → Server
new_http_server addr = record {
  addr = addr;
  listener = none;
  alive = false;
  shut = false;
  closed = false;
  calls = [];
}

-- `NewGrpcServer`
unfoldable pub new_grpc_server : Server
unfolding new_http_server
new_grpc_server = new_http_server []

-- Why a server is not bound.
pub data BindError : Type 0 where
  no_bind_address : BindError
  bad_address : AddrError → BindError
  can_not_bind : Bytes → BindError

-- `net.Listen` at the address, and the assignments after it: without a listener it is nil.
unfoldable pub listen_at : (Bytes → Bool) → Bool → Bytes → Server → Server × Option BindError
listen_at free tls text s =
    if free text
    then (
      record s {
        addr = text;
        listener = some (if tls then over_tls (listens text) else listens text);
      },
      none,
    )
    else (record s { addr = text; listener = none }, some (can_not_bind text))

-- `Bind` of an HTTP server, which overwrites the address of the server.
unfoldable pub http_bind :
    (Bytes → Option (Bytes × ℕ)) → (Bytes → Bool) → ℤ → Server → Server × Option BindError
http_bind resolve free seq s = elim (parse_and_adjust_tcp_addr resolve s.addr seq) [
  | err e ↦ (s, some (bad_address e))
  | ok a ↦ listen_at free false (listen_text a) s
]

-- `Bind` of a gRPC server, over the property 'bind-address' and whether there is a TLS
-- configuration.
unfoldable pub grpc_bind :
    (Bytes → Option (Bytes × ℕ))
    → (Bytes → Bool)
    → Bytes
    → Bool
    → ℤ
    → Server
    → Server × Option BindError
grpc_bind resolve free property tls seq s =
    if property == []
    then (record s { addr = [] }, some no_bind_address)
    else elim (parse_and_adjust_tcp_addr resolve property seq) [
      | err e ↦ (record s { addr = property }, some (bad_address e))
      | ok a ↦ listen_at free tls (listen_text a) s
    ]

-- `close(t.shutdownCh)`, which panics on a channel that is closed.
unfoldable pub close_shutdown_channel : Server → Option Server
close_shutdown_channel s =
    if s.closed
    then none
    else some (record s { closed = true; calls = s.calls ++ (close_channel ∷ []) })

abbrev pub listener_calls : Option Listener → List Call
listener_calls none = []
listener_calls (some l) = close_listener l ∷ []

-- Whether the address of a listener can be asked for: that of TLS is that of what it is around,
-- and TLS around none panics.
abbrev addressed : Listener → Bool
addressed over_nothing = false
addressed (over_tls l) = addressed l
addressed (listens a) = true

abbrev pub has_address : Option Listener → Bool
has_address none = true
has_address (some l) = addressed l

-- What is left of a shutdown: the server is closed, then its listener.
unfoldable pub finish : List Call → Server → Server
finish calls s = record s { shut = true; calls = (s.calls ++ calls) ++ listener_calls s.listener }

-- `Shutdown` of an HTTP server, over the error of `srv.Close`; nothing stands for a panic.
unfoldable pub http_shutdown : {E : Type 0} → Option E → Server → Option (Server × Option E)
http_shutdown close_error s =
    if s.shut
    then some (s, none)
    else if not (has_address s.listener)
    then none
    else Option.map (λ t. (finish (close_server ∷ []) t, close_error)) (close_shutdown_channel s)

-- `Shutdown` of a gRPC server, over whether the graceful stop ends in time.
unfoldable pub grpc_shutdown : Bool → Server → Option Server
grpc_shutdown in_time s =
    if s.shut
    then some s
    else Option.map (finish (if in_time then graceful_stop ∷ [] else graceful_stop ∷ stop ∷ []))
        (close_shutdown_channel s)

abbrev tls_around : Option Listener → Listener
tls_around none = over_nothing
tls_around (some l) = over_tls l

-- `Serve` up to the call of the server's `Serve`; a gRPC server was given TLS when it was bound.
unfoldable pub http_serve : Bool → Server → Server
http_serve tls s = record s {
  alive = true;
  listener = if tls then some (tls_around s.listener) else s.listener;
}

unfoldable pub grpc_serve : Server → Server
grpc_serve s = record s { alive = true }

-- How the server's own `Serve` ends.
pub data Outcome : Type 0 where
  returned : Option Bytes → Outcome
  panicked : Bytes → Outcome

-- The rest of `Serve`: an error that says 'closed' is none, and a panic becomes an error.
unfoldable pub served : Outcome → Server → Server × Option Bytes
served (panicked text) s = (s, some text)
served (returned none) s = (record s { alive = false }, none)
served (returned (some text)) s =
    (record s { alive = false }, (if contains_text text (codes "closed") then none else some text))
