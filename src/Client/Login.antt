-- ===== src/Client/Login.antt =====
-- A login of client/commands.c, from the command to the database of the worker and back.
use itba_os_tp1_ipc_2016_q.Base.{ℕ, suc, Bool, true, false, List, Option, none, some, Bytes}
use itba_os_tp1_ipc_2016_q.Address.{Addr}
use itba_os_tp1_ipc_2016_q.Json.{Json}
use itba_os_tp1_ipc_2016_q.Sql.Process.{Row}
use itba_os_tp1_ipc_2016_q.Sql.Helpers.{FsUser}
use itba_os_tp1_ipc_2016_q.Server.{CommError, Server}
use itba_os_tp1_ipc_2016_q.Client.{ConnectionState, Client}
use itba_os_tp1_ipc_2016_q.Server.Slots.{Slots}
use itba_os_tp1_ipc_2016_q.Client.Link.{Link, worker_peer}

-- The code of the command, and the flag behind it.
abbrev pub login_code : Option FsUser → ℕ
login_code none = 107
login_code (some user) = 0

abbrev pub is_some : {A : Type 0} → Option A → Bool
is_some none = false
is_some (some a) = true

module _ (json : Json) {Database : Type 0} (exec : Database → Bytes → List Row × Database)
    (opens : Bytes → Bool) (accepts : List ℕ) (spares : ℕ → ℕ → Bool)
    (twice : json.Double → json.Double) (fifo : Bool) (fresh : CommError) (max_threads : ℕ)
    (behind : Bytes → Bytes) (margin : Bytes → ℕ)
    (connect : Addr
      → Addr
      → ConnectionState
      → Link json Database
      → ℕ × ConnectionState × Link json Database) where
  abbrev OurClient : Type 0
  OurClient = Client json (
      worker_peer json exec opens accepts spares twice fifo fresh max_threads behind margin connect)

  abbrev linked : OurClient → Server json Database → Slots → OurClient
  linked c s slots = record c {
    other = record c.other { worker = some s; read = suc c.other.read; slots = slots };
  }
