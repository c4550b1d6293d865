-- ===== src/Server/Lifecycle/Steps.antt =====
-- What can be done with a server, and which states it reaches.
use sprintframework.Common.{ℕ, ◌≡◌}
use sprintframework.Common.{Bool, Option, some}
use sprintframework.Common.{Bytes, nat_eq, bytes_eq}
use sprintframework.Strconv.{ℤ}
use sprintframework.Server.Lifecycle.{
  Listener, Server, new_http_server, new_grpc_server, http_bind, grpc_bind, http_shutdown,
  grpc_shutdown, http_serve, grpc_serve, Outcome, served,
}

pub data Kind : Type 0 where
  http : Bytes → Kind
  grpc : Kind

abbrev pub start : Kind → Server
start (http addr) = new_http_server addr
start grpc = new_grpc_server

-- What can be done with a server; only a server that is bound is asked to serve.
pub data Step : Kind → Server → Server → Type 0 where
  bind_http :
      (addr : Bytes) (resolve : Bytes → Option (Bytes × ℕ)) (free : Bytes → Bool) (seq : ℤ)
      (s : Server)
      → Step (http addr) s (http_bind resolve free seq s).0
  bind_grpc :
      (resolve : Bytes → Option (Bytes × ℕ)) (free : Bytes → Bool) (property : Bytes) (tls : Bool)
      (seq : ℤ) (s : Server)
      → Step grpc s (grpc_bind resolve free property tls seq s).0
  serve_http :
      (addr : Bytes) (tls : Bool) (l : Listener) (s : Server)
      → s.listener ≡ some l
      → Step (http addr) s (http_serve tls s)
  serve_grpc : (l : Listener) (s : Server) → s.listener ≡ some l → Step grpc s (grpc_serve s)
  end_serve : (kind : Kind) (outcome : Outcome) (s : Server) → Step kind s (served outcome s).0
  shut_http :
      (addr : Bytes) (close_error r : Option Bytes) (s t : Server)
      → http_shutdown close_error s ≡ some (t, r)
      → Step (http addr) s t
  shut_grpc : (in_time : Bool) (s t : Server) → grpc_shutdown in_time s ≡ some t → Step grpc s t

pub data Reached : Kind → Server → Type 0 where
  created : (kind : Kind) → Reached kind (start kind)
  then_ : (kind : Kind) (s t : Server) → Reached kind s → Step kind s t → Reached kind t
