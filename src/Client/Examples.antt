-- ===== src/Client/Examples.antt =====
-- A client whose worker has a database that knows one user.
use itba_os_tp1_ipc_2016_q.Base.{
  ℕ, ◌+◌, suc, ◌≡◌, ◌≤◌, refl, arith, Bool, true, false, List, [], ◌∷◌, ◌++◌, none, some, Bytes,
  codes, str_eq, if◌then◌else◌, length, Lacks,
}
use itba_os_tp1_ipc_2016_q.Base.Words.{pos}
use itba_os_tp1_ipc_2016_q.Base.Decimal.{decimal}
use itba_os_tp1_ipc_2016_q.Address.{address_ok, Addr}
use itba_os_tp1_ipc_2016_q.Json.Instance.{list_json}
use itba_os_tp1_ipc_2016_q.Channel.{c_str}
use itba_os_tp1_ipc_2016_q.Sql.Process.{Row}
use itba_os_tp1_ipc_2016_q.Sql.Protocol.{at_rest}
use itba_os_tp1_ipc_2016_q.Sql.Texts.{login_text}
use itba_os_tp1_ipc_2016_q.Sql.Helpers.{FsUser}
use itba_os_tp1_ipc_2016_q.Server.{CommError, Server}
use itba_os_tp1_ipc_2016_q.Server.Frame.{Always}
use itba_os_tp1_ipc_2016_q.Client.{ConnectionState, is_connection_open, Client, Env}
use itba_os_tp1_ipc_2016_q.Client.Guards.{not_logged_in}
use itba_os_tp1_ipc_2016_q.Client.Quiet.{Quiet}
use itba_os_tp1_ipc_2016_q.Client.Link.{Link, worker_peer, Settled}
use itba_os_tp1_ipc_2016_q.Client.Agreement.{agreement}
use itba_os_tp1_ipc_2016_q.Client.Parse
use itba_os_tp1_ipc_2016_q.Client.Parse.{run_command}
use itba_os_tp1_ipc_2016_q.Client.Shell.{Shell, shell_size, new_shell, shell, read_keys}
use itba_os_tp1_ipc_2016_q.Client.Shell.Editing.{typed_line, last_backspace, line_of}
use itba_os_tp1_ipc_2016_q.Client.Shell.Rounds.{Typed, Ready, input_of, commands, shell-commands}

abbrev ana_row : Row
ana_row = some (codes "/fs/ana") ∷ some (decimal 7) ∷ some (decimal 1) ∷ []

abbrev exec : ℕ → Bytes → List Row × ℕ
exec n query =
    if str_eq query (login_text (codes "ana") (codes "x1"))
    then (ana_row ∷ [], suc n)
    else ([], suc n)

abbrev fresh : CommError
fresh = record { code = 9; msg = [] }

abbrev opens : Bytes → Bool
opens path = true

abbrev spares : ℕ → ℕ → Bool
spares size i = true

abbrev behind : Bytes → Bytes
behind bytes = []

abbrev margin : Bytes → ℕ
margin text = 12

abbrev twice : list_json.Double → list_json.Double
twice d = d

abbrev connect :
    Addr → Addr → ConnectionState → Link list_json ℕ → ℕ × ConnectionState × Link list_json ℕ
connect client server state link = (0, ConnectionState.open_, link)

abbrev worker : Server list_json ℕ
worker = record {
  pipes = at_rest exec 0 [];
  user = none;
  files = λ p. none;
  folders = [];
  sent = [];
  closed = false;
  err = fresh;
  statuses = [];
}

abbrev nowhere : Addr
nowhere = record { url = none; protocol = none; host = none; valid = false; port = none }

abbrev env : Env list_json
env = record {
  address_from_url = λ url addr. (address_ok, addr);
  fresh = nowhere;
  atoi = λ s. pos (length s);
  atof = λ s. length s;
}

abbrev client :
    ConnectionState
    → Client list_json
        (worker_peer list_json exec opens [] spares twice false fresh 100 behind margin connect)
client state = record {
  state = state;
  client_addr = nowhere;
  server_addr = nowhere;
  logged = false;
  listeners = 0;
  files = λ p. none;
  other = record {
    worker = some worker;
    read = 0;
    slots = record { current = 0; size = 10 };
    parting = [];
  };
  printed = [];
}

not_logged_in_example :
    Quiet
      (client ConnectionState.open_)
      (run_command env Parse.get (codes "a" ∷ []) (client ConnectionState.open_))
not_logged_in_example =
    not_logged_in env Parse.get (codes "a" ∷ []) (client ConnectionState.open_) tt refl

agreement_example :
    Always
      (λ r. Settled r.1.logged r.1.other.read r.1.other.worker)
      (run_command env Parse.login (codes "bob" ∷ codes "b" ∷ []) (client ConnectionState.open_))
unfolding is_connection_open
agreement_example =
    agreement list_json exec opens [] spares twice false fresh 100 behind margin connect env
      Parse.login (codes "bob" ∷ codes "b" ∷ []) (client ConnectionState.open_) (λ bytes. refl)
      (λ e. cc) refl (tt, refl)

abbrev ana : FsUser
ana = record { name = codes "ana"; home = codes "/fs/ana"; id = 7; is_admin = 1 }

slip_room : length (codes "commanx" ++ 8 ∷ codes "d") + 2 ≤ shell_size
unfolding shell_size
slip_room = omega arith

slip_Lacks_0 : Lacks 0 (codes "commanx" ++ 8 ∷ codes "d")
slip_Lacks_0 = ground arith

slip_Lacks_10 : Lacks 10 ((codes "commanx" ++ 8 ∷ codes "d") ++ b's' ∷ [])
slip_Lacks_10 = ground arith

slip_Lacks_255 : Lacks 255 ((codes "commanx" ++ 8 ∷ codes "d") ++ b's' ∷ [])
slip_Lacks_255 = ground arith

-- The keys of `commands`, with one slip.
abbrev slip : Typed
slip = record {
  keys = codes "commanx" ++ 8 ∷ codes "d";
  last = b's';
  stored = (
    (λ e. omega (arith, e)),
    (λ e. omega (arith, e)),
    (λ e. omega (arith, e)),
    (λ e. omega (arith, e)),
  );
  no_zero = slip_Lacks_0;
  no_newline = slip_Lacks_10;
  no_end = slip_Lacks_255;
  room = slip_room;
}

ready : Ready new_shell
unfolding new_shell shell_size
ready = record { cells = refl; first = refl }

typed_line_example :
    (s' : Shell) × (read_keys ((slip.keys ++ b's' ∷ []) ++ 10 ∷ []) new_shell ≡ some (s', []))
    × (c_str s'.shell_buffer ≡ codes "commands")
    × (length s'.shell_buffer ≡ shell_size)
typed_line_example =
    typed_line slip.keys [] b's' new_shell slip.stored slip.no_zero slip.no_newline slip.no_end
      slip.room ready.cells ready.first

last_backspace_example :
    line_of (codes "ab" ++ 8 ∷ 10 ∷ []) new_shell ≡ line_of (codes "ab" ++ 10 ∷ []) new_shell
last_backspace_example = last_backspace (codes "ab") [] new_shell (ground arith) (ground arith)

shell-commands_example :
    shell env 2 (input_of (slip ∷ slip ∷ [])) new_shell (client ConnectionState.open_)
    ≡ commands env (codes "commands" ∷ codes "commands" ∷ []) (client ConnectionState.open_)
shell-commands_example =
    shell-commands env (slip ∷ slip ∷ []) new_shell (client ConnectionState.open_) ready
