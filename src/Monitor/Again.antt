-- ===== src/Monitor/Again.antt =====
-- A message that monitor/main.c takes from the shared memory a second time.
use itba_os_tp1_ipc_2016_q.Base.{
  suc, ◌≡◌, refl, inl, inr, Bool-cases, true, false, List, [], ◌∷◌, ◌++◌, Option, none, some, ◌>>=◌,
  ltb, length,
}
use itba_os_tp1_ipc_2016_q.Base.Words.{ℤ, int_eq, int_eq_refl}
use itba_os_tp1_ipc_2016_q.Monitor.{
  SharedData, Thread, Worker, Search, missing, changed, fault, places, append_place, mark_thread,
  add_thread, set_thread, found_worker, behind_worker, mark_worker, add_worker, record_status,
}

-- The thread has its status already; or it has it once it is added.
abbrev MarkedAgain : ℤ → ℤ → List Thread → Option (List Thread) → Type 0
MarkedAgain thread status threads none =
    let more = threads ++ record { id = thread; status = status } ∷ [] in
    mark_thread thread status more ≡ some more
MarkedAgain thread status threads (some threads') =
    mark_thread thread status threads' ≡ some threads'

skip-again :
    (thread status : ℤ) (t : Thread) (threads : List Thread) (o : Option (List Thread))
    → int_eq t.id thread ≡ false
    → MarkedAgain thread status threads o
    → MarkedAgain thread status (t ∷ threads) (o >>= λ threads'. some (t ∷ threads'))
unfolding mark_thread
skip-again thread status t threads none e m = rw (e, m) refl
skip-again thread status t threads (some threads') e m = rw (e, m) refl

mark_thread-again :
    (thread status : ℤ) (threads : List Thread)
    → MarkedAgain thread status threads (mark_thread thread status threads)
unfolding mark_thread
mark_thread-again thread status [] = rw (int_eq_refl thread) refl
mark_thread-again thread status (t ∷ threads) = elim (Bool-cases (int_eq t.id thread)) [
  | inl e ↦ rw (e) (rw (e) refl)
  | inr e ↦ rw e (
      skip-again thread status t threads (mark_thread thread status threads) e
        (mark_thread-again thread status threads))
]

-- The same of what `set_thread` gives, if it gives anything.
abbrev SetAgain : ℤ → ℤ → Option (List Thread) → Type 0
SetAgain thread status none = Unit
SetAgain thread status (some threads) = set_thread thread status threads ≡ some threads

add_thread-again :
    (thread status : ℤ) (threads : List Thread) (o : Option (List Thread))
    → MarkedAgain thread status threads o
    → SetAgain thread status (add_thread thread status threads o)
unfolding set_thread add_thread append_place
add_thread-again thread status threads (some threads') m = rw m refl
add_thread-again thread status threads none m =
    elim (Bool-cases (ltb (suc (length threads)) places)) [
      | inl e ↦ rw e (rw m refl)
      | inr e ↦ rw e tt
    ]

set_thread-again :
    (thread status : ℤ) (threads : List Thread)
    → SetAgain thread status (set_thread thread status threads)
unfolding set_thread
set_thread-again thread status threads =
    add_thread-again thread status threads (mark_thread thread status threads)
      (mark_thread-again thread status threads)

abbrev pub new_worker : SharedData → Worker
new_worker msg = record {
  id = msg.worker;
  threads = record { id = msg.thread; status = msg.status } ∷ [];
}

abbrev SearchedAgain : SharedData → List Worker → Search (List Worker) → Type 0
SearchedAgain msg workers missing =
    let more = workers ++ new_worker msg ∷ [] in mark_worker msg more ≡ changed more
SearchedAgain msg workers (changed workers') = mark_worker msg workers' ≡ changed workers'
SearchedAgain msg workers fault = Unit

found-again :
    (msg : SharedData) (w : Worker) (workers : List Worker) (o : Option (List Thread))
    → int_eq w.id msg.worker ≡ true
    → SetAgain msg.thread msg.status o
    → SearchedAgain msg (w ∷ workers) (found_worker w workers o)
unfolding mark_worker found_worker
found-again msg w workers none e m = tt
found-again msg w workers (some threads) e m = rw (e, m) refl

behind-again :
    (msg : SharedData) (w : Worker) (workers : List Worker) (r : Search (List Worker))
    → int_eq w.id msg.worker ≡ false
    → SearchedAgain msg workers r
    → SearchedAgain msg (w ∷ workers) (behind_worker w r)
unfolding mark_worker behind_worker
behind-again msg w workers missing e m = rw (e, m) refl
behind-again msg w workers (changed workers') e m = rw (e, m) refl
behind-again msg w workers fault e m = tt

mark_worker-again :
    (msg : SharedData) (workers : List Worker) → SearchedAgain msg workers (mark_worker msg workers)
unfolding mark_worker found_worker set_thread mark_thread add_thread
mark_worker-again msg [] = rw (int_eq_refl msg.worker, int_eq_refl msg.thread) refl
mark_worker-again msg (w ∷ workers) = elim (Bool-cases (int_eq w.id msg.worker)) [
  | inl e ↦ rw e (
      found-again msg w workers (set_thread msg.thread msg.status w.threads) e
        (set_thread-again msg.thread msg.status w.threads))
  | inr e ↦
      rw e (behind-again msg w workers (mark_worker msg workers) e (mark_worker-again msg workers))
]

-- The same message changes the table no more.
abbrev pub RecordedAgain : SharedData → Option (List Worker) → Type 0
RecordedAgain msg none = Unit
RecordedAgain msg (some workers) = record_status msg workers ≡ some workers

add_worker-again :
    (msg : SharedData) (workers : List Worker) (r : Search (List Worker))
    → SearchedAgain msg workers r
    → RecordedAgain msg (add_worker msg workers r)
unfolding record_status add_worker append_place
add_worker-again msg workers missing m = elim (Bool-cases (ltb (suc (length workers)) places)) [
  | inl e ↦ rw e (rw m refl)
  | inr e ↦ rw e tt
]
add_worker-again msg workers (changed workers') m = rw m refl
add_worker-again msg workers fault m = tt

pub record_status-again :
    (msg : SharedData) (workers : List Worker) → RecordedAgain msg (record_status msg workers)
unfolding record_status
record_status-again msg workers =
    add_worker-again msg workers (mark_worker msg workers) (mark_worker-again msg workers)
