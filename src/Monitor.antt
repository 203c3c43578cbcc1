-- ===== src/Monitor.antt =====
-- monitor/main.c and post_status of server/monitor_helper.c: the shared message, the table of workers
-- and threads, and the screen.
pub mod Threads
pub mod Table
pub mod Again
pub mod Screen
pub mod Polls
mod Examples
use itba_os_tp1_ipc_2016_q.Base.{
  ℕ, zero, suc, ◌+◌, ◌-◌, Bool, true, false, List, [], ◌∷◌, ◌++◌, Option, none, some, ◌==◌, ◌>>=◌,
  ltb, if◌then◌else◌, length,
}
use itba_os_tp1_ipc_2016_q.Base.Words.{ℤ, pos, negsuc, int_eq, int_of_long}

-- `shared_data_t`, where the thread is a `long`; the monitor reads an `int`.
pub record SharedData : Type 0 where
  pub worker : ℤ
  pub thread : ℤ
  pub status : ℤ

-- `thread_t` and `worker_t`; the number of threads is the length of the list.
pub record Thread : Type 0 where
  pub id : ℤ
  pub status : ℤ

pub record Worker : Type 0 where
  pub id : ℤ
  pub threads : List Thread

-- What a search comes to: nothing is found, or the place that is found is changed; or a block is
-- written behind its end.
pub data Search (A : Type 0) : Type 0 where
  missing : Search A
  changed : A → Search A
  fault : Search A

-- `STATUS_DOWN`, and the worker before the first message.
abbrev pub minus_one : ℤ
minus_one = negsuc 0

-- The pointers in each of the two kinds of blocks.
unfoldable pub places : ℕ
places = 100

-- The place of one more, with a null pointer behind it.
unfoldable pub append_place : {A : Type 0} → A → List A → Option (List A)
unfolding places
append_place x xs = if ltb (suc (length xs)) places then some (xs ++ x ∷ []) else none

-- The loop over the threads of a worker: `none` if it comes to the end.
unfoldable pub mark_thread : ℤ → ℤ → List Thread → Option (List Thread)
mark_thread thread status [] = none
mark_thread thread status (t ∷ threads) =
    let rest = mark_thread thread status threads in
    if int_eq t.id thread
    then some (record t { status = status } ∷ threads)
    else rest >>= λ threads'. some (t ∷ threads')

unfoldable pub add_thread : ℤ → ℤ → List Thread → Option (List Thread) → Option (List Thread)
unfolding append_place
add_thread thread status threads none =
    append_place (record { id = thread; status = status }) threads
add_thread thread status threads (some threads') = some threads'

unfoldable pub set_thread : ℤ → ℤ → List Thread → Option (List Thread)
unfolding mark_thread add_thread
set_thread thread status threads =
    add_thread thread status threads (mark_thread thread status threads)

-- The worker that is found has this result for its threads.
unfoldable pub found_worker : Worker → List Worker → Option (List Thread) → Search (List Worker)
found_worker w workers none = fault
found_worker w workers (some threads) = changed (record w { threads = threads } ∷ workers)

unfoldable pub behind_worker : Worker → Search (List Worker) → Search (List Worker)
behind_worker w missing = missing
behind_worker w (changed workers) = changed (w ∷ workers)
behind_worker w fault = fault

-- The loop over the workers.
unfoldable pub mark_worker : SharedData → List Worker → Search (List Worker)
unfolding set_thread found_worker behind_worker
mark_worker msg [] = missing
mark_worker msg (w ∷ workers) =
    let rest = mark_worker msg workers in
    if int_eq w.id msg.worker
    then found_worker w workers (set_thread msg.thread msg.status w.threads)
    else behind_worker w rest

-- A worker that is not found is added, with its thread.
unfoldable pub add_worker : SharedData → List Worker → Search (List Worker) → Option (List Worker)
unfolding append_place
add_worker msg workers missing =
    append_place
      (record { id = msg.worker; threads = record { id = msg.thread; status = msg.status } ∷ [] })
      workers
add_worker msg workers (changed workers') = some workers'
add_worker msg workers fault = none

-- What a message makes of the table; `none` is a write behind a block.
unfoldable pub record_status : SharedData → List Worker → Option (List Worker)
unfolding mark_worker add_worker
record_status msg workers = add_worker msg workers (mark_worker msg workers)

-- A row of the screen. A worker's row has at most 18 characters, so that the 24 blanks that are
-- printed over it leave nothing of it.
pub data Row : Type 0 where
  blank : Row
  worker_row : ℤ → Row
  thread_row : ℤ → ℤ → Row

-- The screen behind `clear`, and a row that is printed. It has as many rows as are needed.
abbrev pub Rows : Type 0
Rows = ℕ → Row

abbrev pub clear : Rows
clear = λ i. blank

abbrev pub put_row : ℕ → Row → Rows → Rows
put_row j row rows = λ i. if i == j then row else rows i

-- The threads of a worker from the row `j` on, but for those that are down; `l` counts them.
unfoldable pub draw_threads : List Thread → ℕ → ℕ → Rows → ℕ × ℕ × Rows
draw_threads [] j l rows = (j, l, rows)
draw_threads (t ∷ threads) j l rows =
    let live = draw_threads threads (suc j) (suc l) (put_row j (thread_row t.status t.id) rows) in
    let down = draw_threads threads j l rows in if int_eq t.status minus_one then down else live

-- A worker without a thread that is up is blotted out, and its row is used again.
unfoldable pub end_worker : ℕ × ℕ × Rows → ℕ × Rows
end_worker (j, zero, rows) = (j - 1, put_row (j - 1) blank rows)
end_worker (j, suc l, rows) = (j, rows)

unfoldable pub draw_workers : List Worker → ℕ → Rows → ℕ × Rows
unfolding draw_threads end_worker
draw_workers [] j rows = (j, rows)
draw_workers (w ∷ workers) j rows =
    let (j', rows') =
      end_worker (draw_threads w.threads (suc j) 0 (put_row j (worker_row w.id) rows)) in
    draw_workers workers j' rows'

unfoldable pub draw : List Worker → Rows
unfolding draw_workers
draw workers = (draw_workers workers 0 clear).1

-- How far the monitor's loop has come: it tests whether there was a message, and then reads the three
-- fields one after the other into `current_worker`, `current_thread` and `current_status`.
pub data Stage : Type 0 where
  testing : Stage
  passed : Stage
  has_worker : ℤ → Stage
  has_thread : ℤ → ℤ → Stage

-- The memory that the server and the monitor share, and the table of the monitor.
pub record Monitor : Type 0 where
  pub shared : SharedData
  pub workers : List Worker
  pub stage : Stage

-- What happens next: `post_status` writes a field, or the monitor reads one. The semaphore keeps two
-- writers apart, and the monitor does not wait for it: a read can stand between two writes, and a write
-- between two reads.
pub data Turn : Type 0 where
  write_worker : ℤ → Turn
  write_thread : ℤ → Turn
  write_status : ℤ → Turn
  look : Turn

-- The three fields are there; the search through the table works on the monitor's own memory.
unfoldable pub search : SharedData → Monitor → Option Monitor
unfolding record_status
search current m = record_status current m.workers >>= λ workers.
    some (record m { workers = workers; stage = testing })

-- The next read of the monitor.
unfoldable pub read_field : Stage → Monitor → Option Monitor
unfolding search
read_field testing m =
    if int_eq m.shared.worker minus_one then some m else some (record m { stage = passed })
read_field passed m = some (record m { stage = has_worker m.shared.worker })
read_field (has_worker worker) m =
    some (record m { stage = has_thread worker (int_of_long m.shared.thread) })
read_field (has_thread worker thread) m =
    search (record { worker = worker; thread = thread; status = m.shared.status }) m

unfoldable pub take_turn : Turn → Monitor → Option Monitor
unfolding read_field
take_turn (write_worker worker) m = some (record m { shared = record m.shared { worker = worker } })
take_turn (write_thread thread) m = some (record m { shared = record m.shared { thread = thread } })
take_turn (write_status status) m = some (record m { shared = record m.shared { status = status } })
take_turn look m = read_field m.stage m

unfoldable pub take_turns : List Turn → Monitor → Option Monitor
unfolding take_turn
take_turns [] m = some m
take_turns (turn ∷ turns) m = take_turn turn m >>= λ m'. take_turns turns m'

unfoldable pub first_monitor : Monitor
first_monitor = record {
  shared = record { worker = minus_one; thread = minus_one; status = minus_one };
  workers = [];
  stage = testing;
}
