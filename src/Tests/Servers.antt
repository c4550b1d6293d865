-- ===== src/Tests/Servers.antt =====
-- The servers: what they serve, where they listen, and how they end.
use sprintframework.Common.{ℕ, ◌≡◌, ◌≢◌, refl, arith}
use sprintframework.Common.{Bool, true, false, Option, none, some, List, [], ◌∷◌}
use sprintframework.Common.{Bytes, codes, nat_eq, bytes_eq, ok, err, IsErr}
use sprintframework.Strconv.{pos}
use sprintframework.Server.Http.{files, gzip_header, by, Resource, parse_options, enabled}
use sprintframework.Server.Http.Requests.{Route, IsMux, NoDirectory, requested, requested_lem}
use sprintframework.Common.{contains, if◌then◌else◌, All}
use sprintframework.Server.Http.Options.{parse_options_lem}
use sprintframework.Server.Http.Mux.{no_bind_address, Setup, object}
use sprintframework.Server.Http.Mux.Laws.{object_lem, entries, fit}
use sprintframework.Utils.Address.{
  invalid_address, split_host_port, parse_and_adjust_tcp_addr, listen_text,
}
use sprintframework.Utils.Address.Bounds.{listen_addresses_differ, bracketed_host_refused}
use sprintframework.Server.Lifecycle.{
  Server, new_http_server, http_shutdown, grpc_shutdown, finish, close_channel, close_server,
}
use sprintframework.Server.Lifecycle.Steps.{http, Reached, created, then_, shut_http}
use sprintframework.Server.Lifecycle.Shutdown.{closings}
use sprintframework.Server.Lifecycle.Once.{shutdown_once}

-- Two plain sources and a packed one, each told by its number.
abbrev sources : List (Resource ℕ)
sources =
    record {
      name = codes "assets";
      asset_names = codes "index.html" ∷ codes "a.js" ∷ [];
      asset_files = 1;
    }
    ∷ record { name = codes "assets-gzip"; asset_names = codes "a.js" ∷ []; asset_files = 2 }
    ∷ record { name = codes "resources"; asset_names = codes "a.js" ∷ []; asset_files = 3 }
    ∷ []

-- A mux that knows no other subtree than the root.
abbrev root_mux : Route
root_mux patterns path =
    if contains patterns path
    then some path
    else if contains patterns (codes "/")
    then some (codes "/")
    else none

root_mux-IsMux : IsMux root_mux
root_mux-IsMux = record {
  exact = λ patterns path i h. ground (arith, h);
  elsewhere = λ patterns path i h only_root. ground (arith, h);
}

no_directories : All (λ (res : Resource ℕ). NoDirectory res.asset_names) sources
unfolding nat_eq
no_directories = ((refl, (refl, tt)), ((refl, tt), ((refl, tt), tt)))

requested_lem_example :
    requested root_mux (codes "/a.js") (codes "br, gzip") sources ≡ by (gzip_header 2)
unfolding sprintframework.Server.Http.Assets.chosen sprintframework.Strings.has_prefix bytes_eq
    sprintframework.Strings.has_suffix sprintframework.Strings.split
    sprintframework.Strings.trim_space
requested_lem_example =
    requested_lem root_mux (codes "/a.js") (codes "br, gzip") sources root_mux-IsMux no_directories
      refl

index_elsewhere : requested root_mux (codes "/b.js") (codes "br") sources ≡ by (files 1)
unfolding sprintframework.Server.Http.Assets.chosen sprintframework.Strings.has_prefix bytes_eq
    sprintframework.Strings.has_suffix
index_elsewhere =
    requested_lem root_mux (codes "/b.js") (codes "br") sources root_mux-IsMux no_directories refl

assets_enabled : enabled (parse_options (codes "pages; assets;")) (codes "assets") ≡ true
unfolding bytes_eq sprintframework.Strings.split sprintframework.Strings.trim_space
assets_enabled = parse_options_lem (codes "pages; assets;") (codes "assets")

abbrev setup : Setup ℕ ℕ
setup = record {
  bind_address = codes ":80";
  options = codes "gateway;pages";
  autocert = false;
  pages =
      record { pattern = codes "/x"; router = 1 }
      ∷ record { pattern = codes "/x"; router = 2 }
      ∷ [];
  groups = [];
}

object_lem_example :
    (setup.bind_address ≡ [] → object setup ≡ err no_bind_address)
    × (¬ (setup.bind_address ≡ [])
        → fit [] (entries setup) ≡ true
        → object setup ≡ ok (entries setup))
    × (¬ (setup.bind_address ≡ []) → fit [] (entries setup) ≡ false → IsErr (object setup))
object_lem_example = object_lem setup

abbrev local : Bytes → Option (Bytes × ℕ)
local text = some (codes "127.0.0.1", 80)

listen_addresses_differ_example : codes "127.0.0.1:80" ≢ codes "127.0.0.1:81"
unfolding parse_and_adjust_tcp_addr split_host_port sprintframework.Strings.last_index_byte bytes_eq
    sprintframework.Utils.Address.split_plain sprintframework.Strings.index_byte
    sprintframework.Utils.Address.adjust listen_text sprintframework.Strconv.itoa
listen_addresses_differ_example =
    listen_addresses_differ local (codes ":80") (pos 0) (pos 1)
      (record { ip = codes "127.0.0.1"; port = pos 80 })
      (record { ip = codes "127.0.0.1"; port = pos 81 }) (λ text ip port e. ground arith)
      (ground arith) (ground arith) (ground arith) refl refl

bracketed_host_refused_example :
    parse_and_adjust_tcp_addr (λ text. none) (codes "[::1]:80") (pos 0)
    ≡ err (invalid_address (codes "::1:80"))
bracketed_host_refused_example =
    bracketed_host_refused (λ text. none) (codes "::1") (codes "80") (pos 0) (λ text e. refl)
      (λ h. h.0 refl) (ground arith) (ground arith) (ground arith) (ground arith)

-- A server that was shut down before it was bound.
abbrev ended : Server
ended = record {
  addr = codes ":80";
  listener = none;
  alive = false;
  shut = true;
  closed = true;
  calls = close_channel ∷ close_server ∷ [];
}

Reached-ended : Reached (http (codes ":80")) ended
unfolding http_shutdown new_http_server sprintframework.Server.Lifecycle.close_shutdown_channel
    finish
Reached-ended =
    then_ (http (codes ":80")) (new_http_server (codes ":80")) ended (created (http (codes ":80")))
      (shut_http (codes ":80") none none (new_http_server (codes ":80")) ended refl)

shutdown_once_example :
    (closings ended.calls ≡ 1)
    × ((close_error : Option Bytes) → http_shutdown close_error ended ≡ some (ended, none))
    × ((in_time : Bool) → grpc_shutdown in_time ended ≡ some ended)
shutdown_once_example = shutdown_once (http (codes ":80")) ended Reached-ended
