-- ===== src/Client.antt =====
-- client/commands.c and the loop of client/main.c: the state of a client, the checks that the commands
-- share, and the exchange of a message with the server. The texts of INFO are left out.
pub mod Commands
pub mod Parse
pub mod Shell
pub mod Quiet
pub mod Guards
pub mod Link
pub mod Session
pub mod Exchange
pub mod Agreement
pub mod Login
mod Examples
use itba_os_tp1_ipc_2016_q.Base.{
  ℕ, Bool, true, false, List, [], ◌∷◌, ◌++◌, Option, none, some, Bytes, codes, ◌==◌, if◌then◌else◌,
  str_eq,
}
use itba_os_tp1_ipc_2016_q.Base.Words.{ℤ}
use itba_os_tp1_ipc_2016_q.Address.{AddrError, Addr}
use itba_os_tp1_ipc_2016_q.FileUtils.{FileSystem}
use itba_os_tp1_ipc_2016_q.Json.{Json}
use itba_os_tp1_ipc_2016_q.Serialization.Commands.{Message}
use itba_os_tp1_ipc_2016_q.Serialization.Parse.{Parsed}

-- `connection_state_t`.
pub data ConnectionState : Type 0 where
  idle : ConnectionState
  open_ : ConnectionState
  closed : ConnectionState

-- What `receive` gives: a message, an error, or nothing at all (a wait for ever, or a fault).
pub data Reply (json : Json) (State : Type 0) : Type 0 where
  reply : Parsed json → State → Reply json State
  failed : ℕ → State → Reply json State
  stuck : Reply json State

-- The other side of a connection, as the client uses it: `connection_open` with the addresses of the
-- client and the server, the `send_…` functions and `receive`, each with its error.
pub record Peer (json : Json) : Type 1 where
  pub State : Type 0
  pub connect : Addr → Addr → ConnectionState → State → ℕ × ConnectionState × State
  pub send : Message json → State → ℕ × State
  pub receive : State → Reply json State

-- What a command prints, and the loop behind it; a failure to send or receive has the message of the
-- error, too.
pub data Line (json : Json) : Type 0 where
  text : Bytes → Line json
  says : Bytes → Line json
  says_int : ℤ → Line json
  says_double : json.Double → Line json
  contents : Bytes → Line json
  send_failed : ℕ → Line json
  receive_failed : ℕ → Line json
  command_failed : ℕ → Line json

-- The connection, the flag `logged`, the threads that wait for the answer to a `get`, the files of the
-- client, the other side, and what was printed.
pub record Client (json : Json) (peer : Peer json) : Type 0 where
  pub state : ConnectionState
  pub client_addr : Addr
  pub server_addr : Addr
  pub logged : Bool
  pub listeners : ℕ
  pub files : FileSystem
  pub other : peer.State
  pub printed : List (Line json)

-- The outcome of a command: its code, or `none` for a fault or a wait for ever.
abbrev pub Outcome : (json : Json) → Peer json → Type 0
Outcome json peer = Option (ℕ × Client json peer)

-- `client_command_info_t`.
pub record Info : Type 0 where
  pub correct_use : Bytes
  pub help : Bytes

-- `address_from_url` of the build, what the block that `cmd_open` allocates for an address holds before,
-- and the C library's readings of numbers.
pub record Env (json : Json) : Type 0 where
  pub address_from_url : Bytes → Addr → AddrError × Addr
  pub fresh : Addr
  pub atoi : Bytes → ℤ
  pub atof : Bytes → json.Double

unfoldable pub is_connection_open : ConnectionState → Bool
is_connection_open idle = false
is_connection_open open_ = true
is_connection_open closed = false

-- `argc == 1 && show_help_for_command(argv[0], info)`.
unfoldable pub asks_help : List Bytes → Bool
asks_help [] = false
asks_help (arg ∷ []) = str_eq (codes "help") arg
asks_help (arg ∷ brg ∷ args) = false

module _ {json : Json} {peer : Peer json} where
  unfoldable pub print : Line json → Client json peer → Client json peer
  print line c = record c { printed = c.printed ++ line ∷ [] }

  -- A message to the user and an error code.
  unfoldable pub refuse : ℕ → Bytes → Client json peer → Outcome json peer
  unfolding print
  refuse code msg c = some (code, print (text msg) c)

  unfoldable pub wrong_use : ℕ → Info → Client json peer → Outcome json peer
  unfolding refuse
  wrong_use code info c = refuse code (codes "Correct use: " ++ info.correct_use) c

  unfoldable pub unless_help :
      Info
      → List Bytes
      → (Client json peer → Outcome json peer)
      → Client json peer
      → Outcome json peer
  unfolding asks_help print
  unless_help info argv command c =
      if asks_help argv then some (0, print (text info.help) c) else command c

  unfoldable pub when_open :
      (Client json peer → Outcome json peer) → Client json peer → Outcome json peer
  unfolding is_connection_open refuse
  when_open command c =
      if is_connection_open c.state
      then command c
      else refuse 102 (codes "Please open connection first") c

  -- Only with a certain value of `logged`.
  unfoldable pub when_logged :
      Bool
      → ℕ
      → Bytes
      → (Client json peer → Outcome json peer)
      → Client json peer
      → Outcome json peer
  unfolding refuse
  when_logged wanted code msg command c =
      if c.logged
      then (if wanted then command c else refuse code msg c)
      else (if wanted then refuse code msg c else command c)

  -- How the commands begin that need a connection.
  unfoldable pub connected :
      Info
      → List Bytes
      → (Client json peer → Outcome json peer)
      → Client json peer
      → Outcome json peer
  unfolding unless_help when_open
  connected info argv command c = unless_help info argv (when_open command) c

  -- How those begin that need a login.
  unfoldable pub for_user :
      Info
      → List Bytes
      → Bytes
      → (Client json peer → Outcome json peer)
      → Client json peer
      → Outcome json peer
  unfolding connected when_logged
  for_user info argv msg command c = connected info argv (when_logged true 104 msg command) c

  -- What follows a `send_…`, unless it gives an error.
  unfoldable pub after_send :
      (Client json peer → Outcome json peer) → Client json peer → ℕ × peer.State → Outcome json peer
  unfolding print
  after_send next c (code, other) =
      let c' = record c { other = other } in
      if code == 0 then next c' else some (code, print (send_failed code) c')

  -- What follows `receive`.
  unfoldable pub after_receive :
      (Parsed json → Client json peer → Outcome json peer)
      → Client json peer
      → Reply json peer.State
      → Outcome json peer
  unfolding print
  after_receive next c (reply presult other) = next presult (record c { other = other })
  after_receive next c (failed code other) =
      some (code, print (receive_failed code) (record c { other = other }))
  after_receive next c stuck = none

  -- A command of one argument.
  unfoldable pub with_one :
      Info
      → List Bytes
      → (Bytes → Client json peer → Outcome json peer)
      → Client json peer
      → Outcome json peer
  unfolding wrong_use
  with_one info [] command c = wrong_use 103 info c
  with_one info (arg ∷ []) command c = command arg c
  with_one info (arg ∷ brg ∷ argv) command c = wrong_use 103 info c

  unfoldable pub with_two :
      Info
      → List Bytes
      → (Bytes → Bytes → Client json peer → Outcome json peer)
      → Client json peer
      → Outcome json peer
  unfolding wrong_use
  with_two info [] command c = wrong_use 103 info c
  with_two info (arg ∷ []) command c = wrong_use 103 info c
  with_two info (arg ∷ brg ∷ []) command c = command arg brg c
  with_two info (arg ∷ brg ∷ crg ∷ argv) command c = wrong_use 103 info c

  unfoldable pub with_none :
      Info
      → List Bytes
      → (Client json peer → Outcome json peer)
      → Client json peer
      → Outcome json peer
  unfolding wrong_use
  with_none info [] command c = command c
  with_none info (arg ∷ argv) command c = wrong_use 103 info c

  -- A message is sent and the answer is received.
  unfoldable pub exchange :
      Message json
      → (Parsed json → Client json peer → Outcome json peer)
      → Client json peer
      → Outcome json peer
  unfolding after_send after_receive
  exchange m next c =
      after_send (λ c'. after_receive next c' (peer.receive c'.other)) c (peer.send m c.other)

  -- An answer of the kind `data` is shown; the command has succeeded.
  unfoldable pub show_data : Parsed json → Client json peer → Client json peer
  unfolding print
  show_data (Parsed.raw bytes) c = print (says bytes) c
  show_data presult c = c

  unfoldable pub done : Parsed json → Client json peer → Outcome json peer
  unfolding show_data
  done presult c = some (0, show_data presult c)
