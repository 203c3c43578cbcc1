-- ===== src/Client/Link.antt =====
-- A client and the worker of server/main.c that it is connected to: the messages of client/commands.c
-- reach the worker, and its answers come back in their order. The channel between them is that of
-- Channel and Serialization: a message that fits the block of the receiver arrives as `received_as` says.
-- The worker needs a place for the thread of each message; without one it says so and ends.
use itba_os_tp1_ipc_2016_q.Base.{
  ℕ, ◌+◌, ◌++◌, [], ◌∷◌, ltb, codes, if◌then◌else◌, ◌≡◌, suc, Bool, true, false, List, Option, none,
  some, Bytes, length, get_elem?,
}
use itba_os_tp1_ipc_2016_q.Address.{Addr}
use itba_os_tp1_ipc_2016_q.Channel.{buffer_length}
use itba_os_tp1_ipc_2016_q.Json.{Json}
use itba_os_tp1_ipc_2016_q.Serialization.Commands.{Message, serialized}
use itba_os_tp1_ipc_2016_q.Serialization.Parse.{Parsed}
use itba_os_tp1_ipc_2016_q.Serialization.RoundTrip.{received_as}
use itba_os_tp1_ipc_2016_q.Sql.Process.{Row}
use itba_os_tp1_ipc_2016_q.Sql.Helpers.{FsUser}
use itba_os_tp1_ipc_2016_q.Server.{CommError, Server, server_responder}
use itba_os_tp1_ipc_2016_q.Server.Slots.{Slots, Slot, placed, maxed, fault, take_slot}
use itba_os_tp1_ipc_2016_q.Client.{ConnectionState, Reply, reply, stuck, Peer}

-- The worker, unless it has ended or faulted, how many of its messages the client has read, its array of
-- threads, and the messages that a worker leaves that has no place for one more.
pub record Link (json : Json) (Database : Type 0) : Type 0 where
  pub worker : Option (Server json Database)
  pub read : ℕ
  pub slots : Slots
  pub parting : List (Message json)

-- The text of a message fits the block of its receiver together with the boundary behind it, which is
-- as long as `margin` says for the text.
unfoldable pub fits_block : (json : Json) → (Bytes → ℕ) → Message json → Bool
fits_block json margin m =
    let text = serialized json m in ltb (length text + margin text) buffer_length

-- The block of a message of the kind `data` has no terminator: what the text of it is for its readers
-- also depends on `behind`, what they find behind the bytes up to a zero byte.
unfoldable pub with_behind : {json : Json} → (Bytes → Bytes) → Parsed json → Parsed json
with_behind behind (Parsed.raw bytes) = Parsed.raw (bytes ++ behind bytes)
with_behind behind (Parsed.int x) = Parsed.int x
with_behind behind (Parsed.double x) = Parsed.double x
with_behind behind (Parsed.string x) = Parsed.string x
with_behind behind (Parsed.get_cmd x) = Parsed.get_cmd x
with_behind behind (Parsed.post_cmd x) = Parsed.post_cmd x
with_behind behind (Parsed.login_cmd x) = Parsed.login_cmd x
with_behind behind Parsed.logout_cmd = Parsed.logout_cmd
with_behind behind Parsed.close_cmd = Parsed.close_cmd
with_behind behind (Parsed.new_user_cmd x) = Parsed.new_user_cmd x
with_behind behind (Parsed.change_pass_cmd x) = Parsed.change_pass_cmd x
with_behind behind (Parsed.unknown x) = Parsed.unknown x

module _ {json : Json} {Database : Type 0} (behind : Bytes → Bytes) (margin : Bytes → ℕ) where
  -- The next message, if there is one; else the client waits for ever. One that does not fit is written
  -- behind the block of the client.
  unfoldable pub read_answer :
      Link json Database → Option (Message json) → Reply json (Link json Database)
  unfolding fits_block with_behind
  read_answer l none = stuck
  read_answer l (some m) =
      if fits_block json margin m
      then reply (with_behind behind (received_as json m)) (record l { read = suc l.read })
      else stuck

  unfoldable pub receive_answer :
      Link json Database → Option (Server json Database) → Reply json (Link json Database)
  unfolding read_answer
  receive_answer l none = read_answer l (get_elem? l.parting l.read)
  receive_answer l (some s) = read_answer l (get_elem? s.sent l.read)

-- `connect` makes the connection, which is a matter of the processes and the operating system.
module _ (json : Json) {Database : Type 0} (exec : Database → Bytes → List Row × Database)
    (opens : Bytes → Bool) (accepts : List ℕ) (spares : ℕ → ℕ → Bool)
    (twice : json.Double → json.Double) (fifo : Bool) (fresh : CommError) (max_threads : ℕ)
    (behind : Bytes → Bytes) (margin : Bytes → ℕ)
    (connect : Addr
      → Addr
      → ConnectionState
      → Link json Database
      → ℕ × ConnectionState × Link json Database) where
  abbrev pub respond : Message json → Server json Database → Option (Server json Database)
  respond m = server_responder json exec opens accepts spares twice fifo fresh (received_as json m)

  -- With a place for its thread, the message is answered, and the client waits for that. Else the
  -- worker says that it is full and leaves its loop, which ends the process.
  unfoldable pub take_message :
      Message json → Link json Database → Server json Database → Slot → Link json Database
  take_message m l s (placed slots) = record l { worker = respond m s; slots = slots }
  take_message m l s maxed = record l {
    worker = none;
    parting = s.sent ++ Message.raw (codes "Server maxed capacity") 21 ∷ [];
  }
  take_message m l s fault = record l { worker = none }

  -- A message that does not fit is written behind the block of the worker.
  unfoldable pub receive_message :
      Message json → Link json Database → Option (Server json Database) → Link json Database
  unfolding fits_block take_message
  receive_message m l none = l
  receive_message m l (some s) =
      if fits_block json margin m
      then take_message m l s (take_slot max_threads l.slots)
      else record l { worker = none }

  unfoldable pub deliver : Message json → Link json Database → Link json Database
  unfolding receive_message
  deliver m l = receive_message m l l.worker

  abbrev pub worker_peer : Peer json
  worker_peer = record {
    State = Link json Database;
    connect = connect;
    send = λ m l. (0, deliver m l);
    receive = λ l. receive_answer behind margin l l.worker;
  }

-- What the client believes of its login is what the worker has.
abbrev pub Agree : Bool → Option FsUser → Type 0
Agree true (some user) = Unit
Agree false none = Unit
Agree true none = ⊥
Agree false (some user) = ⊥

module _ {json : Json} {Database : Type 0} where
  -- The client agrees with the worker, and every answer is read.
  abbrev pub Settled : Bool → ℕ → Option (Server json Database) → Type 0
  Settled logged read none = Unit
  Settled logged read (some s) = Agree logged s.user × (read ≡ length s.sent)
