-- ===== src/Server/Loop/Effects.antt =====
-- What each move of a worker process changes.
use itba_os_tp1_ipc_2016_q.Base.{
  ℕ, ◌≡◌, Bool, true, false, List, [], ◌∷◌, ◌++◌, Option, none, some, Bytes, get_elem?, set,
}
use itba_os_tp1_ipc_2016_q.Json.{Json}
use itba_os_tp1_ipc_2016_q.Serialization.Parse.{Parsed, parse_encoded}
use itba_os_tp1_ipc_2016_q.Sql.Process.{Row}
use itba_os_tp1_ipc_2016_q.Server.{dispatch, CommError, Server}
use itba_os_tp1_ipc_2016_q.Server.Loop.{
  Move, look, receive, receive_error, begin, lock, load, store, unlock, finish, Phase, waiting,
  begun, locked, loaded, stored, answered, finished, Thread, WorkerProcess,
}

module _ {json : Json} {Database : Type 0} where
  -- A move of the loop: what the threads share, the lock and the threads themselves stay as they are.
  abbrev pub Kept :
      WorkerProcess json Database
      → WorkerProcess json Database
      → List (Thread json Database)
      → Type 0
  Kept p p' threads = (p'.server ≡ p.server) × (p'.mutex ≡ p.mutex) × (p'.threads ≡ threads)

  -- A move of a thread, from one phase to another.
  abbrev pub Moved :
      ℕ
      → Phase json Database
      → Phase json Database
      → WorkerProcess json Database
      → WorkerProcess json Database
      → Type 0
  Moved i old new p p' =
      (t : Thread json Database) × (get_elem? p.threads i ≡ some t)
      × (t.phase ≡ old)
      × (p'.threads ≡ set p.threads i (record t { phase = new }))

module _ (json : Json) {Database : Type 0} (exec : Database → Bytes → List Row × Database)
    (opens : Bytes → Bool) (accepts : List ℕ) (spares : ℕ → ℕ → Bool)
    (twice : json.Double → json.Double) (fifo : Bool) (fresh : ℕ → CommError)
    (max_threads : ℕ) where
  abbrev Proc : Type 0
  Proc = WorkerProcess json Database

  -- A whole request.
  abbrev pub answer : ℕ → Parsed json → Server json Database → Option (Server json Database)
  answer i result s =
      dispatch json exec opens accepts spares twice fifo result (record s { err = fresh i })

  abbrev pub Effect : Move → Proc → Proc → Type 0
  Effect look p p' = p'.running ≡ true → Kept p p' p.threads
  Effect receive_error p p' = p'.running ≡ true → Kept p p' p.threads
  Effect (receive input true) p p' =
      p'.running ≡ true → Kept p p' (p.threads ++ record { input = input; phase = waiting } ∷ [])
  Effect (receive input false) p p' = p'.running ≡ true → Kept p p' p.threads
  Effect (begin i) p p' =
      (result : Parsed json) × Moved i waiting (begun result) p p'
      × (p'.server ≡ p.server)
      × (p'.mutex ≡ p.mutex)
      × ((t : Thread json Database)
          → get_elem? p.threads i ≡ some t
          → parse_encoded json t.input ≡ some result)
  Effect (lock i) p p' =
      (result : Parsed json) × Moved i (begun result) (locked result) p p'
      × (p'.server ≡ p.server)
      × (p.mutex ≡ none)
      × (p'.mutex ≡ some i)
  Effect (load i) p p' =
      (result : Parsed json) × Moved i (locked result) (loaded result p.server) p p'
      × (p'.server ≡ p.server)
      × (p'.mutex ≡ p.mutex)
  Effect (store i) p p' =
      (result : Parsed json) × (s : Server json Database) × Moved i (loaded result s)
        (stored p'.server.err) p p'
      × (answer i result s ≡ some p'.server)
      × (p'.mutex ≡ p.mutex)
  Effect (unlock i) p p' =
      (err : CommError) × Moved i (stored err) (answered err) p p'
      × (p'.server ≡ p.server)
      × (p'.mutex ≡ none)
  Effect (finish i) p p' =
      (err : CommError) × Moved i (answered err) (finished err) p p'
      × (p'.server ≡ p.server)
      × (p'.mutex ≡ p.mutex)

  abbrev pub EffectIf : Move → Proc → Option Proc → Type 0
  EffectIf move p none = Unit
  EffectIf move p (some p') = Effect move p p'
