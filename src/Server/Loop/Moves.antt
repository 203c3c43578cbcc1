-- ===== src/Server/Loop/Moves.antt =====
-- What each move of a worker process changes.
use itba_os_tp1_ipc_2016_q.Base.{
  ℕ, ◌≡◌, refl, Bool, true, false, List, [], ◌∷◌, ◌++◌, Option, none, some, ◌>>=◌, Bytes,
  if◌then◌else◌, get_elem?,
}
use itba_os_tp1_ipc_2016_q.Json.{Json}
use itba_os_tp1_ipc_2016_q.Sql.Process.{Row}
use itba_os_tp1_ipc_2016_q.Server.{CommError, status_ok}
use itba_os_tp1_ipc_2016_q.Server.Slots.{Slot, placed, maxed, fault, take_slot}
use itba_os_tp1_ipc_2016_q.Server.Loop.{
  Move, look, receive, receive_error, begin, lock, load, store, unlock, finish, Thread,
  WorkerProcess, leave_loop, start_thread, look_at, receive_request, begin_thread, lock_thread,
  load_thread, store_thread, unlock_thread, finish_thread, make_move,
}
use itba_os_tp1_ipc_2016_q.Server.Loop.Effects.{Effect, EffectIf}
use itba_os_tp1_ipc_2016_q.Server.Loop.Threads.{
  begin-Effect, lock-Effect, load-Effect, store-Effect, unlock-Effect, finish-Effect,
}

module _ (json : Json) {Database : Type 0} (exec : Database → Bytes → List Row × Database)
    (opens : Bytes → Bool) (accepts : List ℕ) (spares : ℕ → ℕ → Bool)
    (twice : json.Double → json.Double) (fifo : Bool) (fresh : ℕ → CommError)
    (max_threads : ℕ) where
  abbrev Proc : Type 0
  Proc = WorkerProcess json Database

  abbrev Leaves : Move → Proc → Option Proc → Type 0
  Leaves = EffectIf json exec opens accepts spares twice fifo fresh max_threads

  look-Effect :
      (closed : Bool) (p : Proc)
      → Effect json exec opens accepts spares twice fifo fresh max_threads look p
          (look_at json exec opens accepts spares twice fifo fresh max_threads closed p)
  unfolding look_at leave_loop
  look-Effect true p r = cc
  look-Effect false p r = (refl, refl, refl)

  start-Effect :
      (input : Bytes) (created : Bool) (p : Proc) (slot : Slot)
      → Leaves (receive input created) p (
          start_thread json exec opens accepts spares twice fifo fresh max_threads input created
            (record p {
              posts = p.posts ++ record { thread = none; status = status_ok } ∷ [];
              receiving = false;
            })
            slot)
  unfolding start_thread leave_loop
  start-Effect input true p (placed slots) = λ r. (refl, refl, refl)
  start-Effect input false p (placed slots) = λ r. (refl, refl, refl)
  start-Effect input true p maxed = λ r. cc
  start-Effect input false p maxed = λ r. cc
  start-Effect input true p fault = tt
  start-Effect input false p fault = tt

  either :
      (move : Move) (p : Proc) (b : Bool) (o o' : Option Proc)
      → Leaves move p o
      → Leaves move p o'
      → Leaves move p (if b then o else o')
  either move p true o o' e e' = e
  either move p false o o' e e' = e'

  -- The thread of a number is looked up.
  of_thread :
      (move : Move) (p : Proc) (next : Thread json Database → Option Proc)
      (o : Option (Thread json Database))
      → ((t : Thread json Database) → o ≡ some t → Leaves move p (next t))
      → Leaves move p (o >>= next)
  of_thread move p next none f = tt
  of_thread move p next (some t) f = f t refl

  pub move-Effect :
      (move : Move) (p : Proc)
      → Leaves move p (make_move json exec opens accepts spares twice fifo fresh max_threads move p)
  unfolding make_move receive_request
  move-Effect look p =
      either look p p.receiving none
        (some
          (look_at json exec opens accepts spares twice fifo fresh max_threads p.server.closed p))
        tt (look-Effect p.server.closed p)
  move-Effect receive_error p = either receive_error p p.receiving _ none (λ r. cc) tt
  move-Effect (receive input created) p =
      either (receive input created) p p.receiving
        (receive_request json exec opens accepts spares twice fifo fresh max_threads input created
          p)
        none (start-Effect input created p (take_slot max_threads p.slots)) tt
  move-Effect (begin i) p =
      of_thread (begin i) p
        (λ t.
          begin_thread json exec opens accepts spares twice fifo fresh max_threads i p t t.phase)
        (get_elem? p.threads i)
        (λ t g.
          begin-Effect json exec opens accepts spares twice fifo fresh max_threads i p t t.phase g
            refl)
  move-Effect (lock i) p =
      of_thread (lock i) p
        (λ t. lock_thread json exec opens accepts spares twice fifo fresh max_threads i p t t.phase)
        (get_elem? p.threads i)
        (λ t g.
          lock-Effect json exec opens accepts spares twice fifo fresh max_threads i p t t.phase g
            refl)
  move-Effect (load i) p =
      of_thread (load i) p
        (λ t. load_thread json exec opens accepts spares twice fifo fresh max_threads i p t t.phase)
        (get_elem? p.threads i)
        (λ t g.
          load-Effect json exec opens accepts spares twice fifo fresh max_threads i p t t.phase g
            refl)
  move-Effect (store i) p =
      of_thread (store i) p
        (λ t.
          store_thread json exec opens accepts spares twice fifo fresh max_threads i p t t.phase)
        (get_elem? p.threads i)
        (λ t g.
          store-Effect json exec opens accepts spares twice fifo fresh max_threads i p t t.phase g
            refl)
  move-Effect (unlock i) p =
      of_thread (unlock i) p
        (λ t.
          unlock_thread json exec opens accepts spares twice fifo fresh max_threads i p t t.phase)
        (get_elem? p.threads i)
        (λ t g.
          unlock-Effect json exec opens accepts spares twice fifo fresh max_threads i p t t.phase g
            refl)
  move-Effect (finish i) p =
      of_thread (finish i) p
        (λ t.
          finish_thread json exec opens accepts spares twice fifo fresh max_threads i p t t.phase)
        (get_elem? p.threads i)
        (λ t g.
          finish-Effect json exec opens accepts spares twice fifo fresh max_threads i p t t.phase g
            refl)
