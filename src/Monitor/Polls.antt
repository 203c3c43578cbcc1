-- ===== src/Monitor/Polls.antt =====
-- The server posts statuses and monitor/main.c takes them from the shared memory.
use mathlib.Core.Path.{fun_ext}
use itba_os_tp1_ipc_2016_q.Base.{
  ℕ, zero, suc, ◌+◌, ◌≤◌, ◌<◌, ◌≡◌, refl, ◌∙◌, ap, arith, inl, inr, false, List, [], ◌∷◌, ◌++◌,
  Option, none, some, ltb, length, All,
}
use itba_os_tp1_ipc_2016_q.Base.Words.{ℤ, int_eq, int_eq_refl, int_of_long}
use itba_os_tp1_ipc_2016_q.Monitor.{
  SharedData, Thread, Worker, places, minus_one, append_place, mark_thread, add_thread, set_thread,
  found_worker, behind_worker, fault, mark_worker, add_worker, record_status, Monitor, Turn,
  write_worker, write_thread, write_status, look, testing, search, read_field, take_turn,
  take_turns, first_monitor,
}
use itba_os_tp1_ipc_2016_q.Monitor.Threads.{thread_status, none_else}
use itba_os_tp1_ipc_2016_q.Monitor.Table.{
  status_of, with_status, Small, Recorded, record_status-Recorded,
}
use itba_os_tp1_ipc_2016_q.Monitor.Again.{RecordedAgain, record_status-again}

-- What the monitor makes of a message that it reads whole: the number of the thread as an `int`.
abbrev pub read_shared : SharedData → SharedData
read_shared shared = record shared { thread = int_of_long shared.thread }

-- The writes of a message, and the reads of so many whole messages.
abbrev pub post : SharedData → List Turn
post msg = write_worker msg.worker ∷ write_thread msg.thread ∷ write_status msg.status ∷ []

abbrev pub polls : ℕ → List Turn
polls zero = []
polls (suc n) = look ∷ look ∷ look ∷ look ∷ polls n

-- Messages, each posted, and read once and then so many times more before the next one is posted.
abbrev pub turns_of : List (SharedData × ℕ) → List Turn
turns_of [] = []
turns_of ((msg, again) ∷ posts) = post msg ++ (polls (suc again) ++ turns_of posts)

-- The map after these messages: the last status of each thread, by the number that is read of it.
abbrev pub posted : List (SharedData × ℕ) → (ℤ → ℤ → Option ℤ) → ℤ → ℤ → Option ℤ
posted [] f = f
posted ((msg, again) ∷ posts) f = posted posts (with_status (read_shared msg) f)

-- No message is for the worker -1, which stands for no message.
abbrev pub Named : List (SharedData × ℕ) → Type 0
Named [] = Unit
Named ((msg, again) ∷ posts) = (int_eq msg.worker minus_one ≡ false) × Named posts

-- The monitor between two rounds of its loop.
abbrev between : SharedData → List Worker → Monitor
between msg workers = record { shared = msg; workers = workers; stage = testing }

poll-records :
    (msg : SharedData) (before workers : List Worker) (rest : List Turn)
    → int_eq msg.worker minus_one ≡ false
    → record_status (read_shared msg) before ≡ some workers
    → take_turns (look ∷ look ∷ look ∷ look ∷ rest) (between msg before)
      ≡ take_turns rest (between msg workers)
unfolding take_turns take_turn read_field search
poll-records msg before workers rest e q = rw (e, q) refl

polls-again :
    (again : ℕ) (msg : SharedData) (workers : List Worker) (rest : List Turn)
    → int_eq msg.worker minus_one ≡ false
    → record_status (read_shared msg) workers ≡ some workers
    → take_turns (polls again ++ rest) (between msg workers) ≡ take_turns rest (between msg workers)
polls-again zero msg workers rest e q = refl
polls-again (suc again) msg workers rest e q =
    poll-records msg workers workers (polls again ++ rest) e q
    ∙ polls-again again msg workers rest e q

post-writes :
    (msg shared : SharedData) (workers : List Worker) (rest : List Turn)
    → take_turns (post msg ++ rest) (between shared workers) ≡ take_turns rest (between msg workers)
unfolding take_turns take_turn
post-writes msg shared workers rest = refl

one_message :
    (msg shared : SharedData) (again : ℕ) (rest : List Turn) (before workers : List Worker)
    → int_eq msg.worker minus_one ≡ false
    → record_status (read_shared msg) before ≡ some workers
    → record_status (read_shared msg) workers ≡ some workers
    → take_turns (post msg ++ (polls (suc again) ++ rest)) (between shared before)
      ≡ take_turns rest (between msg workers)
one_message msg shared again rest before workers e first second =
    post-writes msg shared before (polls (suc again) ++ rest)
    ∙ poll-records msg before workers (polls again ++ rest) e first
    ∙ polls-again again msg workers rest e second

table_goes_on :
    (posts : List (SharedData × ℕ)) (n : ℕ) (shared : SharedData) (known : List Worker)
    → Named posts
    → Small known n
    → length known ≤ n
    → n + length posts < places
    → (m' : Monitor) × (take_turns (turns_of posts) (between shared known) ≡ some m')
      × (status_of m'.workers ≡ posted posts (status_of known))
unfolding take_turns
table_goes_on [] n shared known e s l r = (between shared known, refl, refl)
table_goes_on ((msg, again) ∷ posts) n shared known (e, es) s l r =
    after (record_status (read_shared msg) known) refl
      (record_status-Recorded (read_shared msg) known n s)
      (record_status-again (read_shared msg) known)
      (λ workers. table_goes_on posts (suc n) msg workers es)
  where
    after :
        (o : Option (List Worker))
        → record_status (read_shared msg) known ≡ o
        → Recorded (read_shared msg) known n o
        → RecordedAgain (read_shared msg) o
        → ((workers : List Worker)
            → Small workers (suc n)
            → length workers ≤ suc n
            → suc n + length posts < places
            → (m' : Monitor) × (take_turns (turns_of posts) (between msg workers) ≡ some m')
              × (status_of m'.workers ≡ posted posts (status_of workers)))
        → (m' : Monitor) × (take_turns (turns_of ((msg, again) ∷ posts)) (between shared known)
            ≡ some m')
          × (status_of m'.workers ≡ posted ((msg, again) ∷ posts) (status_of known))
    after none q (inl full) g next = absurd (omega (arith, full, r))
    after none q (inr full) g next = absurd (omega (arith, full, l, r))
    after (some workers) q (same, longer, small) g next =
        let (m', run, status) = next workers small (omega (arith, longer, l)) (omega (arith, r)) in
        (
          m',
          one_message msg shared again (turns_of posts) known workers e q g ∙ run,
          status ∙ ap (posted posts) (fun_ext λ w. fun_ext λ t. same w t),
        )

-- Up to 99 messages, none of them for the worker -1, on a schedule where each is written whole, with no
-- read of the monitor between the writes, and is then read whole, at least once, before the next is
-- written: the monitor does not run out of room, and its table then has the last status that was posted
-- of each thread of each worker, and no other, where threads with the same low 32 bits are one thread.
-- Nothing in the program keeps the reads and the writes apart like that.
pub table_follows :
    (posts : List (SharedData × ℕ))
    → Named posts
    → length posts < places
    → (m : Monitor) × (take_turns (turns_of posts) first_monitor ≡ some m)
      × (status_of m.workers ≡ posted posts (λ worker thread. none))
unfolding first_monitor
table_follows posts e r =
    table_goes_on posts 0 (record { worker = minus_one; thread = minus_one; status = minus_one }) []
      e tt (omega arith) (omega (arith, r))

unknown_thread :
    (thread status : ℤ) (threads : List Thread)
    → thread_status threads thread ≡ none
    → mark_thread thread status threads ≡ none
unfolding mark_thread
unknown_thread thread status [] e = refl
unknown_thread thread status (t ∷ threads) e =
    let (k, rest) = none_else (int_eq t.id thread) t.status (thread_status threads thread) e in
    rw (k, unknown_thread thread status threads rest) refl

no_room :
    (thread status : ℤ) (threads : List Thread)
    → thread_status threads thread ≡ none
    → places ≤ suc (length threads)
    → set_thread thread status threads ≡ none
unfolding set_thread add_thread append_place
no_room thread status threads e full =
    let over : ltb (suc (length threads)) places ≡ false = ground (arith, full) in
    rw (unknown_thread thread status threads e, over) refl

worker_fault :
    (msg : SharedData) (threads : List Thread) (before behind : List Worker)
    → All (λ w. int_eq w.id msg.worker ≡ false) before
    → set_thread msg.thread msg.status threads ≡ none
    → mark_worker msg (before ++ record { id = msg.worker; threads = threads } ∷ behind) ≡ fault
unfolding mark_worker found_worker behind_worker
worker_fault msg threads [] behind a e = rw (int_eq_refl msg.worker, e) refl
worker_fault msg threads (w ∷ before) behind (d, a) e =
    rw (d, worker_fault msg threads before behind a e) refl

-- A worker in the table with 99 threads or more that posts the status of another thread makes the
-- monitor write behind the block of the worker's threads.
pub worker_full :
    (msg : SharedData) (threads : List Thread) (before behind : List Worker)
    → All (λ w. int_eq w.id msg.worker ≡ false) before
    → thread_status threads msg.thread ≡ none
    → places ≤ suc (length threads)
    → record_status msg (before ++ record { id = msg.worker; threads = threads } ∷ behind) ≡ none
unfolding record_status add_worker
worker_full msg threads before behind a e full =
    let lost : mark_worker msg (before ++ record { id = msg.worker; threads = threads } ∷ behind)
        ≡ fault =
      worker_fault msg threads before behind a (no_room msg.thread msg.status threads e full) in
    rw lost refl
