-- ===== src/Server/Loop/Examples.antt =====
-- A worker with two threads, the second of which is the first to have the lock.
use itba_os_tp1_ipc_2016_q.Base.{ℕ, ◌≡◌, refl, [], ◌∷◌, List, Bool, true, false, none, some, Bytes}
use itba_os_tp1_ipc_2016_q.Base.Words.{pos}
use itba_os_tp1_ipc_2016_q.Json.Instance.{
  list_json, get_entry, find_entry, add_entry, code_int, read_int,
}
use itba_os_tp1_ipc_2016_q.Serialization.Commands.{
  Message, serialized, message_object, stringify_int, of_kind,
}
use itba_os_tp1_ipc_2016_q.Serialization.Parse.{parse_encoded, string_member}
use itba_os_tp1_ipc_2016_q.Sql.Process.{Row}
use itba_os_tp1_ipc_2016_q.Server.{
  CommError, Status, status_ok, status_idle, status_down, Server, dispatch, send,
}
use itba_os_tp1_ipc_2016_q.Server.Slots.{take_slot, put_thread, first_slots}
use itba_os_tp1_ipc_2016_q.Server.Loop.{
  Post, Move, look, receive, begin, lock, load, store, unlock, finish, answered, finished,
  WorkerProcess, start_thread, look_at, receive_request, set_phase, begin_thread, lock_thread,
  load_thread, store_thread, unlock_thread, take_lock, finish_thread, make_move, make_moves,
  first_process,
}
use itba_os_tp1_ipc_2016_q.Server.Loop.Order.{received, answers, serve, threads-serve}

abbrev exec : Bool → Bytes → List Row × Bool
exec database query = ([], database)

abbrev fresh : ℕ → CommError
fresh i = record { code = 0; msg = [] }

-- Two requests.
abbrev first_text : Bytes
first_text = serialized list_json (Message.int (pos 5))

abbrev second_text : Bytes
second_text = serialized list_json (Message.int (pos 7))

abbrev server : List (Message list_json) → CommError → Server list_json Bool
server sent err = record {
  pipes = record { database = true; queries = []; answers = []; running = true };
  user = none;
  files = λ p. none;
  folders = [];
  sent = sent;
  closed = false;
  err = err;
  statuses = [];
}

abbrev moves : List Move
moves =
    look
    ∷ receive first_text true
    ∷ look
    ∷ receive second_text true
    ∷ begin 0
    ∷ begin 1
    ∷ lock 1
    ∷ load 1
    ∷ store 1
    ∷ unlock 1
    ∷ lock 0
    ∷ load 0
    ∷ finish 1
    ∷ store 0
    ∷ unlock 0
    ∷ []

abbrev by_loop : Status → Post
by_loop s = record { thread = none; status = s }

abbrev by : ℕ → Status → Post
by i s = record { thread = some i; status = s }

abbrev process : WorkerProcess list_json Bool
process = record {
  server = server (Message.int (pos 14) ∷ Message.int (pos 10) ∷ []) (fresh 0);
  mutex = none;
  slots = record { current = 2; size = 10 };
  threads =
      record { input = first_text; phase = answered (fresh 0) }
      ∷ record { input = second_text; phase = finished (fresh 1) }
      ∷ [];
  posts =
      by_loop status_ok
      ∷ by_loop status_idle
      ∷ by_loop status_ok
      ∷ by_loop status_idle
      ∷ by_loop status_ok
      ∷ by 0 status_ok
      ∷ by 1 status_ok
      ∷ by 1 status_down
      ∷ [];
  receiving = false;
  running = true;
}

run :
    make_moves list_json exec
      (λ p. true)
      []
      (λ size i. true)
      (λ d. d)
      false
      fresh
      100
      moves
      (first_process list_json exec
        (λ p. true)
        []
        (λ size i. true)
        (λ d. d)
        false
        fresh
        100
        10
        (server [] (fresh 0)))
    ≡ some process
unfolding make_moves make_move first_process look_at receive_request start_thread take_slot
    put_thread begin_thread set_phase lock_thread load_thread store_thread unlock_thread take_lock
    finish_thread dispatch send first_slots parse_encoded string_member get_entry find_entry
    serialized message_object stringify_int add_entry code_int of_kind read_int
run = refl

threads-serve_example :
    serve list_json exec
      (λ p. true)
      []
      (λ size i. true)
      (λ d. d)
      false
      fresh
      100
      (received moves)
      (answers moves)
      (server [] (fresh 0))
    ≡ some process.server
threads-serve_example =
    threads-serve list_json exec (λ p. true) [] (λ size i. true) (λ d. d) false fresh 100 10
      (server [] (fresh 0)) moves process run refl
