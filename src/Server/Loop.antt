-- ===== src/Server/Loop.antt =====
-- The loop of a worker in listen_connections of server/main.c with the threads that it starts, as moves
-- of one process: whoever runs next makes the next move. A thread takes the lock, reads what the threads
-- share, writes what its answer makes of that, and gives the lock back: four moves.
pub mod Effects
pub mod Threads
pub mod Moves
pub mod Runs
pub mod Lock
pub mod Order
mod Examples
use itba_os_tp1_ipc_2016_q.Base.{
  ℕ, Bool, true, false, List, [], ◌∷◌, ◌++◌, Option, none, some, ◌>>=◌, Bytes, codes, ◌==◌,
  if◌then◌else◌, length, get_elem?, set,
}
use itba_os_tp1_ipc_2016_q.Json.{Json}
use itba_os_tp1_ipc_2016_q.Serialization.Commands.{Message}
use itba_os_tp1_ipc_2016_q.Serialization.Parse.{Parsed, parse_encoded}
use itba_os_tp1_ipc_2016_q.Sql.Process.{Row}
use itba_os_tp1_ipc_2016_q.Server.{
  CommError, Status, status_ok, status_error, status_down, status_warn, status_idle, Server, send,
  dispatch,
}
use itba_os_tp1_ipc_2016_q.Server.Slots.{Slots, Slot, placed, maxed, fault, take_slot, first_slots}

-- A status that the thread of this number posts, or the loop itself.
pub record Post : Type 0 where
  pub thread : Option ℕ
  pub status : Status

-- What can happen next: the loop looks at the state of the connection, receives a request or fails to;
-- or the thread of a number begins, locks, loads what is shared, stores its answer, unlocks, or finishes. The Boolean of a request says
-- whether its thread could be created.
pub data Move : Type 0 where
  look : Move
  receive : Bytes → Bool → Move
  receive_error : Move
  begin : ℕ → Move
  lock : ℕ → Move
  load : ℕ → Move
  store : ℕ → Move
  unlock : ℕ → Move
  finish : ℕ → Move

module _ (json : Json) (Database : Type 0) where
  -- How far a thread has come: with its request parsed, with the lock, with what it has read of the
  -- shared state, and with the error that was filled in, before and behind the unlocking.
  pub data Phase : Type 0 where
    waiting : Phase
    begun : Parsed json → Phase
    locked : Parsed json → Phase
    loaded : Parsed json → Server json Database → Phase
    stored : CommError → Phase
    answered : CommError → Phase
    finished : CommError → Phase

  pub record Thread : Type 0 where
    pub input : Bytes
    pub phase : Phase

-- The process: what the threads share, the number of the thread that holds the lock, the array of threads, the threads that were started, the
-- statuses that were posted, whether the loop waits for data, and whether the process still runs.
pub record WorkerProcess (json : Json) (Database : Type 0) : Type 0 where
  pub server : Server json Database
  pub mutex : Option ℕ
  pub slots : Slots
  pub threads : List (Thread json Database)
  pub posts : List Post
  pub receiving : Bool
  pub running : Bool

-- `none` is a move that cannot be made, or a fault in it.
module _ (json : Json) {Database : Type 0} (exec : Database → Bytes → List Row × Database)
    (opens : Bytes → Bool) (accepts : List ℕ) (spares : ℕ → ℕ → Bool)
    (twice : json.Double → json.Double) (fifo : Bool) (fresh : ℕ → CommError)
    (max_threads : ℕ) where
  abbrev pub Proc : Type 0
  Proc = WorkerProcess json Database

  abbrev post_loop : Status → Proc → Proc
  post_loop status p = record p {
    posts = p.posts ++ record { thread = none; status = status } ∷ [];
  }

  abbrev post_thread : ℕ → Status → Proc → Proc
  post_thread i status p = record p {
    posts = p.posts ++ record { thread = some i; status = status } ∷ [];
  }

  -- The end of the loop, which ends the process and all threads in it.
  unfoldable pub leave_loop : Proc → Proc
  leave_loop p =
      post_loop status_down
        (record p { server = record p.server { closed = true }; running = false })

  -- The request has a place, and a thread is started for it; or the client is told that there is none.
  unfoldable pub start_thread : Bytes → Bool → Proc → Slot → Option Proc
  unfolding leave_loop send
  start_thread input true p (placed slots) = some (record p {
    slots = slots;
    threads = p.threads ++ record { input = input; phase = waiting } ∷ [];
  })
  start_thread input false p (placed slots) =
      some (post_loop status_warn (record p { slots = slots }))
  start_thread input created p maxed = some (
      leave_loop
        (record p { server = send fifo (Message.raw (codes "Server maxed capacity") 21) p.server }))
  start_thread input created p fault = none

  -- The condition of the loop, which is not tested again before the next request has come.
  unfoldable pub look_at : Bool → Proc → Proc
  unfolding leave_loop
  look_at true p = leave_loop p
  look_at false p = record (post_loop status_idle p) { receiving = true }

  unfoldable pub receive_request : Bytes → Bool → Proc → Option Proc
  unfolding start_thread
  receive_request input created p =
      start_thread input created (record (post_loop status_ok p) { receiving = false })
        (take_slot max_threads p.slots)

  -- The thread of that number has come so far.
  unfoldable pub set_phase : ℕ → Thread json Database → Phase json Database → Proc → Proc
  set_phase i t phase p = record p { threads = set p.threads i (record t { phase = phase }) }

  unfoldable pub begin_thread : ℕ → Proc → Thread json Database → Phase json Database → Option Proc
  unfolding set_phase
  begin_thread i p t waiting = do
    result ← parse_encoded json t.input
    some (post_thread i status_ok (set_phase i t (begun result) p))
  begin_thread i p t (begun result) = none
  begin_thread i p t (locked result) = none
  begin_thread i p t (loaded result s) = none
  begin_thread i p t (stored err) = none
  begin_thread i p t (answered err) = none
  begin_thread i p t (finished err) = none

  -- A thread waits as long as another one has the lock.
  unfoldable pub take_lock : ℕ → Proc → Option ℕ → Option Proc
  take_lock i p none = some (record p { mutex = some i })
  take_lock i p (some j) = none

  unfoldable pub lock_thread : ℕ → Proc → Thread json Database → Phase json Database → Option Proc
  unfolding set_phase take_lock
  lock_thread i p t waiting = none
  lock_thread i p t (begun result) = take_lock i (set_phase i t (locked result) p) p.mutex
  lock_thread i p t (locked result) = none
  lock_thread i p t (loaded result s) = none
  lock_thread i p t (stored err) = none
  lock_thread i p t (answered err) = none
  lock_thread i p t (finished err) = none

  unfoldable pub load_thread : ℕ → Proc → Thread json Database → Phase json Database → Option Proc
  unfolding set_phase
  load_thread i p t waiting = none
  load_thread i p t (begun result) = none
  load_thread i p t (locked result) = some (set_phase i t (loaded result p.server) p)
  load_thread i p t (loaded result s) = none
  load_thread i p t (stored err) = none
  load_thread i p t (answered err) = none
  load_thread i p t (finished err) = none

  -- The answer to what was loaded, with a new error, is what the threads share from then on.
  unfoldable pub store_thread : ℕ → Proc → Thread json Database → Phase json Database → Option Proc
  unfolding set_phase
  store_thread i p t waiting = none
  store_thread i p t (begun result) = none
  store_thread i p t (locked result) = none
  store_thread i p t (loaded result s) = do
    s' ← dispatch json exec opens accepts spares twice fifo result (record s { err = fresh i })
    some (set_phase i t (stored s'.err) (record p { server = s' }))
  store_thread i p t (stored err) = none
  store_thread i p t (answered err) = none
  store_thread i p t (finished err) = none

  unfoldable pub unlock_thread : ℕ → Proc → Thread json Database → Phase json Database → Option Proc
  unfolding set_phase
  unlock_thread i p t waiting = none
  unlock_thread i p t (begun result) = none
  unlock_thread i p t (locked result) = none
  unlock_thread i p t (loaded result s) = none
  unlock_thread i p t (stored err) = some (set_phase i t (answered err) (record p { mutex = none }))
  unlock_thread i p t (answered err) = none
  unlock_thread i p t (finished err) = none

  -- An error is posted before the thread is down.
  unfoldable pub finish_thread : ℕ → Proc → Thread json Database → Phase json Database → Option Proc
  unfolding set_phase
  finish_thread i p t waiting = none
  finish_thread i p t (begun result) = none
  finish_thread i p t (locked result) = none
  finish_thread i p t (loaded result s) = none
  finish_thread i p t (stored err) = none
  finish_thread i p t (answered err) = some (
      post_thread i status_down (
        if err.code == 0
        then set_phase i t (finished err) p
        else post_thread i status_error (set_phase i t (finished err) p)))
  finish_thread i p t (finished err) = none

  unfoldable pub make_move : Move → Proc → Option Proc
  unfolding receive_request look_at begin_thread lock_thread load_thread store_thread unlock_thread
      finish_thread
  make_move look p = if p.receiving then none else some (look_at p.server.closed p)
  make_move (receive input created) p =
      if p.receiving then receive_request input created p else none
  make_move receive_error p =
      if p.receiving
      then some (record (post_loop status_warn (post_loop status_error p)) { running = false })
      else none
  make_move (begin i) p = get_elem? p.threads i >>= λ t. begin_thread i p t t.phase
  make_move (lock i) p = get_elem? p.threads i >>= λ t. lock_thread i p t t.phase
  make_move (load i) p = get_elem? p.threads i >>= λ t. load_thread i p t t.phase
  make_move (store i) p = get_elem? p.threads i >>= λ t. store_thread i p t t.phase
  make_move (unlock i) p = get_elem? p.threads i >>= λ t. unlock_thread i p t t.phase
  make_move (finish i) p = get_elem? p.threads i >>= λ t. finish_thread i p t t.phase

  -- Moves one after the other, as long as the process runs.
  unfoldable pub make_moves : List Move → Proc → Option Proc
  unfolding make_move
  make_moves [] p = some p
  make_moves (move ∷ moves) p =
      let rest = make_move move p >>= λ p'. make_moves moves p' in if p.running then rest else none

  -- The process behind the `fork`.
  unfoldable pub first_process : ℕ → Server json Database → Proc
  unfolding first_slots
  first_process min_threads s = record {
    server = s;
    mutex = none;
    slots = first_slots min_threads;
    threads = [];
    posts = record { thread = none; status = status_ok } ∷ [];
    receiving = false;
    running = true;
  }
