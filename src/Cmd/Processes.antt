-- ===== src/Cmd/Processes.antt =====
-- The processes of a node: which is started, and which is stopped.
use sprintframework.Common.{suc, ◌≡◌, ◌≢◌, inl, inr, refl, sym, ap, ◌∙◌, arith}
use sprintframework.Common.{Bool, true, false, Option, none, some, List, []}
use sprintframework.Common.{
  Bytes, codes, nat_eq, bytes_eq, if◌then◌else◌, length, drop, Result, ok, err,
}
use sprintframework.Common.{Option-cases}
use sprintframework.Common.{drop-append}
use sprintframework.Strings.Trim.{trim_space_self}
use sprintframework.Strconv.Digits.{itoa-Dense}
use sprintframework.App.Flags.{ApplicationFlags}
use sprintframework.Client.{Failure, Connection, node, shutdown, wrapped}
use sprintframework.Cmd.{Runner}
use sprintframework.Cmd.Fallback.{Connects}
use sprintframework.Strconv.{ℤ, IsInt, itoa, atoi-itoa}
use sprintframework.Cmd.Node.{
  Host, Settings, failed, node_name, odd_name, even_name, executable_next, check_pid, chosen_path,
  start_args, start, launch_node, finished, killed, kill_server, Killer, Effect, prints, kills,
  stop_run,
}

odd-ne-even : (name : Bytes) → odd_name name ≢ even_name name
unfolding odd_name even_name
odd-ne-even name e = ground (
  arith,
  ap (drop (suc (length name))) e,
  drop-append name (codes ".odd"),
  drop-append name (codes ".even"),
)

-- The executable for the next start is never the one that runs, and from then on the two names of
-- the node alternate.
pub executable_next_alternates :
    (t : Settings) (current : Bytes)
    → let next = executable_next t current in
      (next ≢ current)
      × (executable_next t next ≢ next)
      × (executable_next t (executable_next t next) ≡ next)
unfolding executable_next
executable_next_alternates t current = ground (arith, odd-ne-even (node_name t))

-- The text of a pid file is the pid of the process that was launched.
finished-pid_text :
    (h : Host) (path : Bytes) (args : List Bytes) (r : Result Bytes ℤ) (text : Bytes)
    → (finished h path args r).pid_text ≡ some text
    → (pid : ℤ) × (r ≡ ok pid) × (text ≡ itoa pid)
unfolding finished
finished-pid_text h path args (err x) text e = absurd (ground (arith, e))
finished-pid_text h path args (ok pid) text e = (pid, refl, ground (arith, e))

launch_node-pid_text :
    (flags : ApplicationFlags) (t : Settings) (h : Host) (text : Bytes)
    → (launch_node flags t h).pid_text ≡ some text
    → (path : Bytes) × (args : List Bytes) × (pid : ℤ) × (h.launch path args ≡ ok pid)
      × (text ≡ itoa pid)
unfolding launch_node
launch_node-pid_text flags t h text e =
    let path = (chosen_path t h).0 in
    let args = start_args flags (chosen_path t h).1 in
    let (pid, l, q) = finished-pid_text h path args (h.launch path args) text e in
    (path, args, pid, l, q)

launched-pid_text :
    (flags : ApplicationFlags) (t : Settings) (h : Host) (restart : Bool) (text : Bytes)
    → (start flags t h restart).pid_text ≡ some text
    → (path : Bytes) × (args : List Bytes) × (pid : ℤ) × (h.launch path args ≡ ok pid)
      × (text ≡ itoa pid)
unfolding start
launched-pid_text flags t h restart text e = elim (Option-cases h.run_dir_error) [
  | inr (x, q) ↦ absurd (ground (arith, e, q))
  | inl q ↦ elim (Option-cases (if restart then none else check_pid h)) [
    | inr (x, r) ↦ absurd (ground (arith, e, q, r))
    | inl r ↦ launch_node-pid_text flags t h text (ground (arith, e, q, r))
  ]
]

check_pid-found :
    (h : Host) (pid : ℤ)
    → h.pid_file ≡ some (ok (itoa pid))
    → IsInt pid
    → h.is_alive pid ≡ true
    → check_pid h ≡ some (codes "found already running process")
unfolding check_pid
check_pid-found h pid e i a =
    ground (arith, e, trim_space_self (itoa pid) (itoa-Dense pid), atoi-itoa pid i, a)

-- The error of `KillServer` behind the signal.
abbrev pub kill_error : Killer → Option Bytes
kill_error k = elim k.remove_error [ some e ↦ some e | none ↦ k.wait_error ]

kill_server-itoa :
    (k : Killer) (pid : ℤ)
    → IsInt pid
    → k.start_error ≡ none
    → kill_server k (ok (itoa pid)) ≡ (some (itoa pid), kill_error k)
unfolding kill_server
kill_server-itoa k pid i s = rw (atoi-itoa pid i, kill_server) (rw (s) refl)

start-refused :
    (flags : ApplicationFlags) (t : Settings) (g : Host) (x : Bytes)
    → g.run_dir_error ≡ none
    → check_pid g ≡ some x
    → start flags t g false ≡ failed x
unfolding start
start-refused flags t g x d e = ground (arith, d, e)

stop_run-err :
    {W : Type 0} (run : Runner W) (c : Connection W) (k : Killer) (pid_file : Result Bytes Bytes)
    (w v : W) (e : c.Error)
    → Connects run c
    → c.call node (record { command = codes "shutdown"; args = [] }) w ≡ (err e, v)
    → stop_run run k pid_file w ≡ (killed (kill_server k pid_file), v)
unfolding stop_run shutdown
stop_run-err {W} run c k pid_file w v e conn refused =
    ap (λ r. stopped r) (conn Bytes (λ d. shutdown d false) w)
    ∙ ap (λ r. stopped (wrapped c r)) refused
    ∙ refl
  where
    stopped : Result Failure Bytes × W → Effect × W
    stopped r =
        (elim r.0 [ ok content ↦ prints content | err x ↦ killed (kill_server k pid_file) ], r.1)

-- What a start left in the pid file is the pid of the process that it launched. While that process
-- lives and its pid stands in the file, another start, but for a restart, launches nothing and
-- fails; and 'stop' signals that process where the node replies an error to the shutdown, if the command
-- kill starts. Pids fit
-- 64 bits, and the client that is found is a connection to the node.
pub started_process :
    {W : Type 0} (flags : ApplicationFlags) (t : Settings) (h g : Host) (restart : Bool)
    (text : Bytes) (run : Runner W) (c : Connection W) (k : Killer) (w v : W) (e : c.Error)
    → ((path : Bytes) (args : List Bytes) (pid : ℤ)
        → h.launch path args ≡ ok pid
        → IsInt pid × (g.is_alive pid ≡ true))
    → (start flags t h restart).pid_text ≡ some text
    → g.pid_file ≡ some (ok text)
    → g.run_dir_error ≡ none
    → k.start_error ≡ none
    → Connects run c
    → c.call node (record { command = codes "shutdown"; args = [] }) w ≡ (err e, v)
    → (start flags t g false ≡ failed (codes "found already running process"))
      × (stop_run run k (ok text) w ≡ (kills text (kill_error k), v))
unfolding killed
started_process flags t h g restart text run c k w v e alive s f d b conn refused =
    let (path, args, pid, l, q) = launched-pid_text flags t h restart text s in
    let (fits, lives) = alive path args pid l in
    (
      start-refused flags t g _ d (check_pid-found g pid (f ∙ ap (λ x. some (ok x)) q) fits lives),
      stop_run-err run c k (ok text) w v e conn refused
          ∙ ap (λ x. (killed (kill_server k (ok x)), v)) q
          ∙ ap (λ r. (killed r, v)) (kill_server-itoa k pid fits b)
          ∙ ap (λ x. (kills x (kill_error k), v)) (sym q),
    )
