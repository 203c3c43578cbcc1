-- ===== src/Server/Loop/Threads.antt =====
-- What each move of a thread of a worker process changes.
use itba_os_tp1_ipc_2016_q.Base.{
  ℕ, ◌≡◌, refl, ◌∙◌, sym, ap, inl, inr, Bool, Bool-cases, List, [], ◌∷◌, ◌++◌, Option, none, some,
  ◌>>=◌, Bytes, ◌==◌, get_elem?, set,
}
use itba_os_tp1_ipc_2016_q.Json.{Json}
use itba_os_tp1_ipc_2016_q.Serialization.Parse.{Parsed, parse_encoded}
use itba_os_tp1_ipc_2016_q.Sql.Process.{Row}
use itba_os_tp1_ipc_2016_q.Server.{CommError, status_ok, Server}
use itba_os_tp1_ipc_2016_q.Server.Loop.{
  Move, begin, lock, load, store, unlock, finish, Phase, waiting, begun, locked, loaded, stored,
  answered, finished, Thread, WorkerProcess, set_phase, take_lock, begin_thread, lock_thread,
  load_thread, store_thread, unlock_thread, finish_thread,
}
use itba_os_tp1_ipc_2016_q.Server.Loop.Effects.{answer, EffectIf}

module _ (json : Json) {Database : Type 0} (exec : Database → Bytes → List Row × Database)
    (opens : Bytes → Bool) (accepts : List ℕ) (spares : ℕ → ℕ → Bool)
    (twice : json.Double → json.Double) (fifo : Bool) (fresh : ℕ → CommError)
    (max_threads : ℕ) where
  abbrev Proc : Type 0
  Proc = WorkerProcess json Database

  abbrev Leaves : Move → Proc → Option Proc → Type 0
  Leaves = EffectIf json exec opens accepts spares twice fifo fresh max_threads

  abbrev answers : ℕ → Parsed json → Server json Database → Option (Server json Database)
  answers = answer json exec opens accepts spares twice fifo fresh max_threads

  pub begin-Effect :
      (i : ℕ) (p : Proc) (t : Thread json Database) (phase : Phase json Database)
      → get_elem? p.threads i ≡ some t
      → t.phase ≡ phase
      → Leaves
          (begin i)
          p
          (begin_thread json exec opens accepts spares twice fifo fresh max_threads i p t phase)
  unfolding begin_thread set_phase
  begin-Effect i p t waiting g e = parsed (parse_encoded json t.input) refl
    where
      parsed :
          (o : Option (Parsed json))
          → parse_encoded json t.input ≡ o
          → Leaves (begin i) p (
              o >>= λ result. some (record p {
                threads = set p.threads i (record t { phase = begun result });
                posts = p.posts ++ record { thread = some i; status = status_ok } ∷ [];
              }))
      parsed none q = tt
      parsed (some result) q = (
        result,
        (t, g, e, refl),
        refl,
        refl,
        λ t' g'. ap (λ o. o >>= λ t. parse_encoded json t.input) (sym g' ∙ g) ∙ q,
      )
  begin-Effect i p t (begun result) g e = tt
  begin-Effect i p t (locked result) g e = tt
  begin-Effect i p t (loaded result s) g e = tt
  begin-Effect i p t (stored err) g e = tt
  begin-Effect i p t (answered err) g e = tt
  begin-Effect i p t (finished err) g e = tt

  pub lock-Effect :
      (i : ℕ) (p : Proc) (t : Thread json Database) (phase : Phase json Database)
      → get_elem? p.threads i ≡ some t
      → t.phase ≡ phase
      → Leaves
          (lock i)
          p
          (lock_thread json exec opens accepts spares twice fifo fresh max_threads i p t phase)
  unfolding lock_thread set_phase take_lock
  lock-Effect i p t waiting g e = tt
  lock-Effect i p t (begun result) g e = free p.mutex refl
    where
      free :
          (m : Option ℕ)
          → p.mutex ≡ m
          → Leaves (lock i) p (
              take_lock json exec opens accepts spares twice fifo fresh max_threads i
                (record p { threads = set p.threads i (record t { phase = locked result }) })
                m)
      free none q = (result, (t, g, e, refl), refl, q, refl)
      free (some j) q = tt
  lock-Effect i p t (locked result) g e = tt
  lock-Effect i p t (loaded result s) g e = tt
  lock-Effect i p t (stored err) g e = tt
  lock-Effect i p t (answered err) g e = tt
  lock-Effect i p t (finished err) g e = tt

  pub load-Effect :
      (i : ℕ) (p : Proc) (t : Thread json Database) (phase : Phase json Database)
      → get_elem? p.threads i ≡ some t
      → t.phase ≡ phase
      → Leaves
          (load i)
          p
          (load_thread json exec opens accepts spares twice fifo fresh max_threads i p t phase)
  unfolding load_thread set_phase
  load-Effect i p t waiting g e = tt
  load-Effect i p t (begun result) g e = tt
  load-Effect i p t (locked result) g e = (result, (t, g, e, refl), refl, refl)
  load-Effect i p t (loaded result s) g e = tt
  load-Effect i p t (stored err) g e = tt
  load-Effect i p t (answered err) g e = tt
  load-Effect i p t (finished err) g e = tt

  pub store-Effect :
      (i : ℕ) (p : Proc) (t : Thread json Database) (phase : Phase json Database)
      → get_elem? p.threads i ≡ some t
      → t.phase ≡ phase
      → Leaves
          (store i)
          p
          (store_thread json exec opens accepts spares twice fifo fresh max_threads i p t phase)
  unfolding store_thread set_phase
  store-Effect i p t waiting g e = tt
  store-Effect i p t (begun result) g e = tt
  store-Effect i p t (locked result) g e = tt
  store-Effect i p t (loaded result s) g e = done (answers i result s) refl
    where
      done :
          (o : Option (Server json Database))
          → answers i result s ≡ o
          → Leaves (store i) p (
              o >>= λ s'. some (record p {
                server = s';
                threads = set p.threads i (record t { phase = stored s'.err });
              }))
      done none q = tt
      done (some s') q = (result, s, (t, g, e, refl), q, refl)
  store-Effect i p t (stored err) g e = tt
  store-Effect i p t (answered err) g e = tt
  store-Effect i p t (finished err) g e = tt

  pub unlock-Effect :
      (i : ℕ) (p : Proc) (t : Thread json Database) (phase : Phase json Database)
      → get_elem? p.threads i ≡ some t
      → t.phase ≡ phase
      → Leaves
          (unlock i)
          p
          (unlock_thread json exec opens accepts spares twice fifo fresh max_threads i p t phase)
  unfolding unlock_thread set_phase
  unlock-Effect i p t waiting g e = tt
  unlock-Effect i p t (begun result) g e = tt
  unlock-Effect i p t (locked result) g e = tt
  unlock-Effect i p t (loaded result s) g e = tt
  unlock-Effect i p t (stored err) g e = (err, (t, g, e, refl), refl, refl)
  unlock-Effect i p t (answered err) g e = tt
  unlock-Effect i p t (finished err) g e = tt

  pub finish-Effect :
      (i : ℕ) (p : Proc) (t : Thread json Database) (phase : Phase json Database)
      → get_elem? p.threads i ≡ some t
      → t.phase ≡ phase
      → Leaves
          (finish i)
          p
          (finish_thread json exec opens accepts spares twice fifo fresh max_threads i p t phase)
  unfolding finish_thread set_phase
  finish-Effect i p t waiting g e = tt
  finish-Effect i p t (begun result) g e = tt
  finish-Effect i p t (locked result) g e = tt
  finish-Effect i p t (loaded result s) g e = tt
  finish-Effect i p t (stored err) g e = tt
  finish-Effect i p t (answered err) g e = elim (Bool-cases (err.code == 0)) [
    | inl q ↦ rw q (err, (t, g, e, refl), refl, refl)
    | inr q ↦ rw q (err, (t, g, e, refl), refl, refl)
  ]
  finish-Effect i p t (finished err) g e = tt
