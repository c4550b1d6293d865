-- ===== src/Lib.antt =====
-- The framework sprintframework: an application with a command line, a configuration store, a
-- control service behind tokens, and the services of a node.
--
-- The parts, from the command line inwards. An application (sprintapp/application.go) is created
-- with options, parses its flags (sprintapp/application_flags.go) and runs one command, mostly the
-- node itself, whose child process gets the same flags in its arguments. Properties come from the
-- flags, from the environment (sprintapp/property.go) and from the configuration repository
-- (sprintcore/config_repository.go), which keeps them in a key-value store and tells watchers of
-- changes. The control service (sprintserver/grpc_control_server.go) lets administrators read and
-- change the configuration, stop the node, and command jobs, certificates and storages; who makes a
-- request is decided by the authorization middleware (sprintserver/authorization_middleware.go) from
-- a token (sprintutils/tokens.go). The node service names the node and issues time stamps, the
-- autoupdate service restarts the application when its file changes, the job service holds jobs.
-- The servers of a node (sprintserver) listen at the address of their configuration, moved by the
-- number of the node, and serve pages and assets until they are shut down. The commands (sprintcmd)
-- ask a running node through the control client (sprintclient/control_client.go), fall back to the
-- local stores if there is none, and start and stop the process of a node.
--
-- The files:
--   App/Application    sprintapp/application.go: `application` is the record Application, the
--                      functional options are Choice; apply, new_application, post_construct,
--                      shutdown, preprocess_args, dispatch and run are its functions.
--   App/Flags          sprintapp/application_flags.go: keyValueFlags is KeyValueFlags, with none for
--                      the nil map. App/Flags/Parse is the syntax of the package flag for them.
--   App/Environment    sprintapp/property.go: the resolver and its cache; App/Property its three
--                      classes of names.
--   App/Resources      sprintapp/resource_service.go: templates, licenses, OpenAPI texts.
--   Core/Store         the interface of keyvalstore as a record, with the laws that the code relies
--                      on; Core/Store/Memory is an instance that meets them.
--   Core/ConfigRepository  sprintcore/config_repository.go: one function per method. Its child Race
--                      holds the steps of Set and of a watcher's goroutine in any order.
--   Core/JobService    sprintcore/job_service.go.
--   Core/Autoupdate    sprintcore/autoupdate_service.go: timers that wait are part of the state, and
--                      an event brings the time and what the file system says.
--   Core/NodeService   sprintcore/node_service.go: the names, and Issue taken apart at its atomic
--                      operations, so that calls can interleave.
--   Core/StorageService  sprintcore/storage_service.go: ExecuteQuery and Console; its child
--                      Commands is ExecuteCommand over a managed store and files, and LocalConsole
--                      the console at a terminal.
--   Core/Logging       sprintcore/hclog_logger.go: the levels and the fields of the adapter.
--   Server/Authorization  sprintserver/authorization_middleware.go; its child Start is PostConstruct,
--                      which makes a secret and a first token where there is none.
--   Server/Control     sprintserver/grpc_control_server.go: a handler returns its reply with the
--                      state that it leaves.
--   Server/Http        sprintserver/http_server_factory.go and utils.go: options, assets and their
--                      handlers; its child Mux is the factory's `Object` over the mux of net/http, and
--                      its child Requests is about requests on the entries of `groupAssets`.
--   Server/Lifecycle   sprintserver/http_server.go and grpc_server.go: bind, serve and shutdown as
--                      functions on the state of a server; its child Steps holds them as steps.
--   Client             sprintclient/control_client.go, over a connection that calls the handlers; its
--                      child Console is StorageConsole, with the receiver and the sender in turn.
--   Cmd                sprintcmd: doInCore and the fallback (utils.go), the commands storage, cert and
--                      job; Cmd/Config is config_cmd.go, Cmd/Keygen is keygen_cmd.go,
--                      Cmd/Setup is setup_cmd.go, Cmd/Node is start_node.go,
--                      stop_node.go, restart_node.go, status_node.go and node_cmd.go, Cmd/Servers
--                      doWithServers and runServers but for its signals (utils.go).
--   Utils              sprintutils: Tokens and NodeId (tokens.go), FileMode (files.go), Names
--                      (node.go, convert.go), Address (ParseAndAdjustTCPAddr of node.go), Files
--                      (files.go), Prompt (prompt.go), RateLimiter (rate_limiter.go).
--   Strings, Strconv   what the code uses of the packages strings, strconv and fmt.
--   Common             equality, lists, maps as association lists, results.
--   Tests              the theorems at concrete inputs.
--
-- Text is a list of bytes; letters and white space are those of ASCII. A map is an association list,
-- whose order stands for the order that the runtime picks. An int is Strconv.ℤ, and its texts are
-- read within 64 bits; the counters of watches and of frozen jobs wrap around at 2 ^ 64 and the clock
-- of Issue at 2 ^ 32, and the theorems that need no wrap-around say so. Every loop is a structural
-- recursion but three: the printing of digits has as much fuel as the number is large, the loop over
-- the fields of a message as much as there are arguments, and the prompts of several lines have as
-- much as they are given, since they need not end. A call of
-- GenerateToken takes as many reads of the random source as it is given, and the loop of Issue as
-- many operations as its schedule has.
--
-- Parameters are the stores, jwt, base64, the matching of file names, the parsers of templates, the
-- services that execute commands, the random source, the clock, the file system, the streams, the
-- processes, the resolver and the listeners of net, the choice of a pattern by the mux of net/http,
-- what an id of the module uuid keeps of a clock sequence, the handlers of other packages, and what the
-- module sprint finds in the contexts: the client of a command and its core. A panic is an error
-- value where the code recovers it, and an outcome where it does not.
--
-- Not modelled: the gRPC server's factory, the settings of net/http and of TLS, logging, mail, the
-- opening of stores, the commands that only print or prompt, the run of a node with its signals,
-- generated assets, and the texts of errors beside those of the control client.
pub mod Common
pub mod Strings
pub mod Strconv
pub mod Utils
pub mod App
pub mod Core
pub mod Server
pub mod Client
pub mod Cmd
pub mod Tests
