-- ===== src/Monitor/Table.antt =====
-- The table of monitor/main.c as a map from workers and threads to statuses.
use itba_os_tp1_ipc_2016_q.Base.{
  ℕ, suc, ◌≤◌, ◌≡◌, refl, ◌∙◌, sym, ap, arith, inl, inr, ◌⊎◌, Bool-cases, true, false, List, [],
  ◌∷◌, ◌++◌, Option, none, some, ltb, if◌then◌else◌, length, length-append, All,
}
use itba_os_tp1_ipc_2016_q.Base.Words.{ℤ, int_eq, int_eq→eq}
use itba_os_tp1_ipc_2016_q.Monitor.{
  SharedData, Thread, Worker, Search, missing, changed, fault, places, append_place, set_thread,
  found_worker, behind_worker, mark_worker, add_worker, record_status,
}
use itba_os_tp1_ipc_2016_q.Monitor.Threads.{
  thread_status, with_thread, differs, room, Stored, set_thread-Stored,
}

-- The status of a thread of a worker.
abbrev pub status_of : List Worker → ℤ → ℤ → Option ℤ
status_of [] worker thread = none
status_of (w ∷ workers) worker thread =
    let rest = status_of workers worker thread in
    if int_eq w.id worker then thread_status w.threads thread else rest

-- The map, changed at one thread of one worker.
abbrev pub with_status : SharedData → (ℤ → ℤ → Option ℤ) → ℤ → ℤ → Option ℤ
with_status msg f worker thread =
    if int_eq msg.worker worker
    then with_thread msg.thread msg.status (f worker) thread
    else f worker thread

abbrev pub Small : List Worker → ℕ → Type 0
Small [] n = Unit
Small (w ∷ workers) n = (length w.threads ≤ n) × Small workers n

Small-mono : (workers : List Worker) (n : ℕ) → Small workers n → Small workers (suc n)
Small-mono [] n s = tt
Small-mono (w ∷ workers) n (l, s) = (omega (arith, l), Small-mono workers n s)

abbrev Absent : ℤ → List Worker → Type 0
Absent id workers = All (λ w. int_eq w.id id ≡ false) workers

-- The search of a worker: there is none, or its threads are changed, or
-- they have no room. There are no more than `n` threads at one worker.
abbrev Searched : SharedData → List Worker → ℕ → Search (List Worker) → Type 0
Searched msg workers n missing = Absent msg.worker workers
Searched msg workers n (changed workers') =
    ((w t : ℤ) → status_of workers' w t ≡ with_status msg (status_of workers) w t)
    × (length workers' ≡ length workers)
    × Small workers' (suc n)
Searched msg workers n fault = places ≤ suc n

found-Searched :
    (msg : SharedData) (w : Worker) (workers : List Worker) (n : ℕ) (o : Option (List Thread))
    → int_eq w.id msg.worker ≡ true
    → Small (w ∷ workers) n
    → Stored msg.thread msg.status w.threads o
    → Searched msg (w ∷ workers) n (found_worker w workers o)
unfolding found_worker
found-Searched msg w workers n none e (l, s) m = omega (arith, l, m)
found-Searched msg w workers n (some threads') e (l, s) (m, k) =
    (found, refl, (omega (arith, k, l), Small-mono workers n s))
  where
    same : w.id ≡ msg.worker
    same = int_eq→eq w.id msg.worker e

    found :
        (v t : ℤ)
        → status_of (record w { threads = threads' } ∷ workers) v t
          ≡ with_status msg (status_of (w ∷ workers)) v t
    found v t = elim (Bool-cases (int_eq w.id v)) [
      | inl h ↦ rw (h, ap (λ c. int_eq c v) (sym same) ∙ h) (m t)
      | inr h ↦ rw (h, ap (λ c. int_eq c v) (sym same) ∙ h) refl
    ]

behind-Searched :
    (msg : SharedData) (w : Worker) (workers : List Worker) (n : ℕ) (r : Search (List Worker))
    → int_eq w.id msg.worker ≡ false
    → length w.threads ≤ n
    → Searched msg workers n r
    → Searched msg (w ∷ workers) n (behind_worker w r)
unfolding behind_worker
behind-Searched msg w workers n missing e l m = (e, m)
behind-Searched msg w workers n (changed workers') e l (m, k, s) = (
  (λ v t. elim (Bool-cases (int_eq w.id v)) [
    | inl h ↦ rw (h, differs w.id msg.worker v e h) refl
    | inr h ↦ rw h (m v t)
  ]),
  ap suc k,
  (omega (arith, l), s),
)
behind-Searched msg w workers n fault e l m = m

mark_worker-Searched :
    (msg : SharedData) (workers : List Worker) (n : ℕ)
    → Small workers n
    → Searched msg workers n (mark_worker msg workers)
unfolding mark_worker
mark_worker-Searched msg [] n s = tt
mark_worker-Searched msg (w ∷ workers) n s = elim (Bool-cases (int_eq w.id msg.worker)) [
  | inl e ↦ rw e (
      found-Searched msg w workers n (set_thread msg.thread msg.status w.threads) e s
        (set_thread-Stored msg.thread msg.status w.threads))
  | inr e ↦ rw e (
      behind-Searched msg w workers n (mark_worker msg workers) e s.0
        (mark_worker-Searched msg workers n s.1))
]

-- What a message makes of the table: it has no room, or the map is changed at the one thread.
abbrev pub Recorded : SharedData → List Worker → ℕ → Option (List Worker) → Type 0
Recorded msg workers n none = (places ≤ suc n) ⊎ (places ≤ suc (length workers))
Recorded msg workers n (some workers') =
    ((w t : ℤ) → status_of workers' w t ≡ with_status msg (status_of workers) w t)
    × (length workers' ≤ suc (length workers))
    × Small workers' (suc n)

abbrev new_worker : SharedData → Worker
new_worker msg = record {
  id = msg.worker;
  threads = record { id = msg.thread; status = msg.status } ∷ [];
}

added :
    (msg : SharedData) (workers : List Worker) (w t : ℤ)
    → Absent msg.worker workers
    → status_of (workers ++ new_worker msg ∷ []) w t ≡ with_status msg (status_of workers) w t
added msg [] w t m = refl
added msg (v ∷ workers) w t (e, m) = elim (Bool-cases (int_eq v.id w)) [
  | inl h ↦ rw (h, differs v.id msg.worker w e h) refl
  | inr h ↦ rw h (added msg workers w t m)
]

added-Small :
    (msg : SharedData) (workers : List Worker) (n : ℕ)
    → Small workers n
    → Small (workers ++ new_worker msg ∷ []) (suc n)
added-Small msg [] n s = (omega arith, tt)
added-Small msg (v ∷ workers) n (l, s) = (omega (arith, l), added-Small msg workers n s)

add_worker-Recorded :
    (msg : SharedData) (workers : List Worker) (n : ℕ) (r : Search (List Worker))
    → Small workers n
    → Searched msg workers n r
    → Recorded msg workers n (add_worker msg workers r)
unfolding add_worker append_place
add_worker-Recorded msg workers n (changed workers') s (m, k, l) = (m, omega (arith, k), l)
add_worker-Recorded msg workers n fault s m = inl m
add_worker-Recorded msg workers n missing s m =
    elim (Bool-cases (ltb (suc (length workers)) places)) [
      | inl h ↦ rw h (
        (λ w t. added msg workers w t m),
        omega (arith, length-append workers (new_worker msg ∷ [])),
        added-Small msg workers n s,
      )
      | inr h ↦ rw h (inr ((room (length workers)).1 h))
    ]

pub record_status-Recorded :
    (msg : SharedData) (workers : List Worker) (n : ℕ)
    → Small workers n
    → Recorded msg workers n (record_status msg workers)
unfolding record_status
record_status-Recorded msg workers n s =
    add_worker-Recorded msg workers n (mark_worker msg workers) s
      (mark_worker-Searched msg workers n s)
