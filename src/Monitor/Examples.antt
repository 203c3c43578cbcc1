-- ===== src/Monitor/Examples.antt =====
-- Tests of the table and the screen of monitor/main.c.
use itba_os_tp1_ipc_2016_q.Base.{ℕ, ◌≡◌, refl, arith, List, [], ◌∷◌, ◌++◌, none, some, replicate}
use itba_os_tp1_ipc_2016_q.Base.Words.{pos}
use itba_os_tp1_ipc_2016_q.Monitor.{
  SharedData, Thread, Worker, places, minus_one, record_status, Monitor, take_turns, first_monitor,
  blank, thread_row, draw,
}
use itba_os_tp1_ipc_2016_q.Monitor.Table.{status_of}
use itba_os_tp1_ipc_2016_q.Monitor.Polls.{turns_of, posted, table_follows, worker_full}
use itba_os_tp1_ipc_2016_q.Monitor.Screen.{row_at, worker_rows, draw-rows}

abbrev ready : SharedData
ready = record { worker = pos 7; thread = pos 3; status = pos 2 }

abbrev posts : List (SharedData × ℕ)
posts =
    (ready, 2)
    ∷ (record ready { thread = pos 4 }, 0)
    ∷ (record ready { status = minus_one }, 1)
    ∷ []

abbrev busy : List Thread
busy = replicate 99 (record { id = pos 5; status = pos 2 })

abbrev workers : List Worker
workers =
    record { id = pos 7; threads = record { id = pos 3; status = minus_one } ∷ [] }
    ∷ record { id = pos 8; threads = record { id = pos 4; status = pos 2 } ∷ [] }
    ∷ []

second_row : draw workers 1 ≡ thread_row (pos 2) (pos 4)
unfolding draw
second_row = refl

third_row : draw workers 2 ≡ blank
unfolding draw
third_row = refl

table_follows_example :
    (m : Monitor) × (take_turns (turns_of posts) first_monitor ≡ some m)
    × (status_of m.workers ≡ posted posts (λ worker thread. none))
unfolding places
table_follows_example = table_follows posts (refl, (refl, (refl, tt))) (omega arith)

-- The status of a thread of the worker 9 is written while the monitor reads that of the worker 7.
abbrev other : SharedData
other = record { worker = pos 9; thread = pos 4; status = minus_one }

worker_full_example : record_status ready ([] ++ record { id = pos 7; threads = busy } ∷ []) ≡ none
unfolding places
worker_full_example = worker_full ready busy [] [] tt refl (omega arith)

draw-rows_example : draw workers ≡ row_at (worker_rows workers)
draw-rows_example = draw-rows workers
