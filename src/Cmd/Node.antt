-- ===== src/Cmd/Node.antt =====
-- sprintcmd/start_node.go, stop_node.go, restart_node.go and node_cmd.go: the process of a node and
-- its pid file. The operating system is a parameter.
use sprintframework.Common.{Bool, true, false, Option, none, some, List, [], ◌∷◌, ◌++◌}
use sprintframework.Common.{Bytes, codes, ◌==◌, nat_eq, bytes_eq, if◌then◌else◌, Result, ok, err}
use sprintframework.Strings.{trim_space}
use sprintframework.Strconv.{ℤ, itoa, atoi}
use sprintframework.Utils.Names.{append_node_sequence}
use sprintframework.App.Flags.{ApplicationFlags, register_server_args}
use sprintframework.Client.{shutdown, status}
use sprintframework.Cmd.{Runner}

-- What a start finds: whether the run directory can be made, the pid file and its reading if there
-- is one, the processes, the executable, the files, copying, and the launch of a process.
pub record Host : Type 0 where
  pub run_dir_error : Option Bytes
  pub pid_file : Option (Result Bytes Bytes)
  pub is_alive : ℤ → Bool
  pub executable : Bytes
  pub dir : Bytes
  pub base : Bytes
  pub join_path : Bytes → Bytes → Bytes
  pub exists : Bytes → Bool
  pub copy_works : Bytes → Bytes → Bool
  pub launch : Bytes → List Bytes → Result Bytes ℤ
  pub write_works : Bool
  pub release_error : Option Bytes

-- The settings of a start. `platform` holds the names of the architecture and of the system.
pub record Settings : Type 0 where
  pub name : Bytes
  pub node : ℤ
  pub autoupdate : Bool
  pub arch : Bytes
  pub system : Bytes

-- What a start did: the process that it launched with its arguments, what it wrote to the pid
-- file, and its error.
pub record Started : Type 0 where
  pub launched : Option (Bytes × List Bytes)
  pub pid_text : Option Bytes
  pub error : Option Bytes

abbrev pub failed : Bytes → Started
failed e = record { launched = none; pid_text = none; error = some e }

-- `getNodeName`
unfoldable pub node_name : Settings → Bytes
node_name t = append_node_sequence t.name t.node

unfoldable pub odd_name : Bytes → Bytes
odd_name name = b'.' ∷ (name ++ codes ".odd")

unfoldable pub even_name : Bytes → Bytes
even_name name = b'.' ∷ (name ++ codes ".even")

-- `executableNext`
unfoldable pub executable_next : Settings → Bytes → Bytes
executable_next t current =
    if current == odd_name (node_name t) then even_name (node_name t) else odd_name (node_name t)

-- The check of the pid file, which a restart does not make: the error, if there is one.
unfoldable pub check_pid : Host → Option Bytes
check_pid h = elim h.pid_file [
  | none ↦ none
  | some read ↦ elim read [
    | err e ↦ some e
    | ok content ↦ elim (atoi (trim_space content)) [
      | none ↦ some (codes "invalid pid number")
      | some pid ↦ if h.is_alive pid then some (codes "found already running process") else none
    ]
  ]
]

-- The first file of the names for an update that is there.
first_there : Host → List Bytes → Option Bytes
first_there h [] = none
first_there h (name ∷ names) =
    let path = h.join_path h.dir name in
    let rest = first_there h names in if h.exists path then some path else rest

unfoldable pub update_path : Settings → Host → Option Bytes
unfolding first_there
update_path t h =
    if t.autoupdate
    then first_there h (
        t.name
        ∷ (t.name ++ (b'_' ∷ t.system))
        ∷ (t.name ++ (b'_' ∷ (t.arch ++ (b'_' ∷ t.system))))
        ∷ [])
    else none

next_path : Settings → Host → Bytes
next_path t h = if t.autoupdate then h.join_path h.dir (executable_next t h.base) else h.executable

-- The executable to launch, and the file of an update that it was copied from.
unfoldable pub chosen_path : Settings → Host → Bytes × Option Bytes
unfolding next_path
chosen_path t h = elim (update_path t h) [
  | none ↦ (next_path t h, none)
  | some path ↦
      if h.copy_works path (next_path t h) then (next_path t h, some path) else (path, none)
]

unfoldable pub update_args : Option Bytes → List Bytes
update_args none = []
update_args (some path) = codes "-p" ∷ (codes "autoupdate.file=" ++ path) ∷ []

-- The arguments of the process, from those that the registrars append.
unfoldable pub start_args : ApplicationFlags → Option Bytes → List Bytes
unfolding update_args
start_args flags copied =
    (register_server_args flags (codes "-d" ∷ []) ++ update_args copied)
    ++ (codes "node" ∷ codes "run" ∷ [])

unfoldable pub finished : Host → Bytes → List Bytes → Result Bytes ℤ → Started
finished h path args (err e) = failed e
finished h path args (ok pid) = record {
  launched = some (path, args);
  pid_text = if h.write_works then some (itoa pid) else none;
  error = h.release_error;
}

unfoldable pub launch_node : ApplicationFlags → Settings → Host → Started
unfolding finished
launch_node flags t h =
    let (path, copied) = chosen_path t h in
    let args = start_args flags copied in finished h path args (h.launch path args)

-- `Start`, over the application's own flags as the only registrar.
unfoldable pub start : ApplicationFlags → Settings → Host → Bool → Started
unfolding launch_node
start flags t h restart = elim h.run_dir_error [
  | some e ↦ failed e
  | none ↦ elim (if restart then none else check_pid h) [
    | some e ↦ failed e
    | none ↦ launch_node flags t h
  ]
]

-- How the command kill ends, and the removal of the pid file.
pub record Killer : Type 0 where
  pub start_error : Option Bytes
  pub remove_error : Option Bytes
  pub wait_error : Option Bytes

-- `KillServer`: the pid that gets the signal 2, if one does, and the error.
unfoldable pub kill_server : Killer → Result Bytes Bytes → Option Bytes × Option Bytes
kill_server k (err e) = (none, some e)
kill_server k (ok pid) = elim (atoi pid) [
  | none ↦ (none, some (codes "Invalid pid"))
  | some n ↦ elim k.start_error [
    | some e ↦ (none, some e)
    | none ↦ (some pid, elim k.remove_error [ some e ↦ some e | none ↦ k.wait_error ])
  ]
]

-- What a command prints, or the pid that it signals, with its error.
pub data Effect : Type 0 where
  prints : Bytes → Effect
  kills : Bytes → Option Bytes → Effect
  fails : Option Bytes → Effect

unfoldable pub killed : Option Bytes × Option Bytes → Effect
killed (some pid, e) = kills pid e
killed (none, e) = fails e

module _ {W : Type 0} (run : Runner W) where
  -- `Run` of 'stop': any error, a refusal too, ends in `KillServer` over the reading of the pid
  -- file.
  unfoldable pub stop_run : Killer → Result Bytes Bytes → W → Effect × W
  unfolding killed
  stop_run k pid_file w =
      let (r, v) = run Bytes (λ c. shutdown c false) w in
      (elim r [ ok content ↦ prints content | err e ↦ killed (kill_server k pid_file) ], v)

  -- `Run` of 'restart', which kills nothing.
  unfoldable pub restart_run : W → Effect × W
  restart_run w =
      let (r, v) = run Bytes (λ c. shutdown c true) w in
      (elim r [ ok content ↦ prints content | err e ↦ fails (some e.text) ], v)

  -- `Run` of 'status'.
  unfoldable pub status_run : W → Effect × W
  status_run w =
      let (r, v) = run Bytes (λ c u. (status c u, u)) w in
      (elim r [ ok content ↦ prints content | err e ↦ fails (some e.text) ], v)

-- The sub-commands of 'node', by the commands that they run.
pub data SubCommand : Type 0 where
  run_node start_node stop_node restart_node status_node : SubCommand

-- `Run` of 'node': the sub-command and its arguments, or an error.
unfoldable pub node_run : List Bytes → Option (SubCommand × List Bytes)
node_run [] = none
node_run (cmd ∷ args) =
    if cmd == codes "run"
    then some (run_node, args)
    else if cmd == codes "start"
    then some (start_node, args)
    else if cmd == codes "stop"
    then some (stop_node, args)
    else if cmd == codes "restart"
    then some (restart_node, args)
    else if cmd == codes "status"
    then some (status_node, args)
    else none
