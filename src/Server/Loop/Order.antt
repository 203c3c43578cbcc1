-- ===== src/Server/Loop/Order.antt =====
-- The requests that the threads of a worker answer, as one after the other.
use mathlib.Core.Path.{subst}
use itba_os_tp1_ipc_2016_q.Base.{
  ℕ, ◌≡◌, refl, ◌∙◌, sym, ap, Bool, true, false, List, [], ◌∷◌, ◌++◌, Option, some, ◌>>=◌, Bytes,
  map, get_elem?, set,
}
use itba_os_tp1_ipc_2016_q.Base.Places.{get-append, get-map, set-map}
use itba_os_tp1_ipc_2016_q.Json.{Json}
use itba_os_tp1_ipc_2016_q.Serialization.Parse.{Parsed, parse_encoded}
use itba_os_tp1_ipc_2016_q.Sql.Process.{Row}
use itba_os_tp1_ipc_2016_q.Server.{CommError, Server, dispatch}
use itba_os_tp1_ipc_2016_q.Server.Loop.{
  Move, look, receive, receive_error, begin, lock, load, store, unlock, finish, Phase, waiting,
  begun, locked, loaded, stored, answered, finished, Thread, WorkerProcess, make_moves,
  first_process,
}
use itba_os_tp1_ipc_2016_q.Server.Loop.Effects.{Kept, answer, Effect}
use itba_os_tp1_ipc_2016_q.Server.Loop.Lock.{IsSound, works, step-IsSound}
use itba_os_tp1_ipc_2016_q.Server.Loop.Runs.{moves-running, first_move}

-- The texts that were received and have a thread, and the numbers of the threads in the order of their answers.
abbrev pub received : List Move → List Bytes
received [] = []
received (receive input true ∷ moves) = input ∷ received moves
received (receive input false ∷ moves) = received moves
received (look ∷ moves) = received moves
received (receive_error ∷ moves) = received moves
received (begin i ∷ moves) = received moves
received (lock i ∷ moves) = received moves
received (load i ∷ moves) = received moves
received (store i ∷ moves) = received moves
received (unlock i ∷ moves) = received moves
received (finish i ∷ moves) = received moves

abbrev pub answers : List Move → List ℕ
answers [] = []
answers (store i ∷ moves) = i ∷ answers moves
answers (lock i ∷ moves) = answers moves
answers (load i ∷ moves) = answers moves
answers (unlock i ∷ moves) = answers moves
answers (receive input created ∷ moves) = answers moves
answers (look ∷ moves) = answers moves
answers (receive_error ∷ moves) = answers moves
answers (begin i ∷ moves) = answers moves
answers (finish i ∷ moves) = answers moves

module _ (json : Json) {Database : Type 0} (exec : Database → Bytes → List Row × Database)
    (opens : Bytes → Bool) (accepts : List ℕ) (spares : ℕ → ℕ → Bool)
    (twice : json.Double → json.Double) (fifo : Bool) (fresh : ℕ → CommError)
    (max_threads : ℕ) where
  abbrev Proc : Type 0
  Proc = WorkerProcess json Database

  -- The requests of these numbers, each parsed and answered whole with a new error, one after the other.
  abbrev pub serve : List Bytes → List ℕ → Server json Database → Option (Server json Database)
  serve inputs [] s = some s
  serve inputs (i ∷ order) s = get_elem? inputs i >>= λ input.
      parse_encoded json input >>= λ result.
      dispatch json exec opens accepts spares twice fifo result (record s { err = fresh i })
      >>= λ s'. serve inputs order s'

  abbrev inputs : Proc → List Bytes
  inputs p = map (λ t. t.input) p.threads

  abbrev Sound : Proc → Type 0
  Sound = IsSound json exec opens accepts spares twice fifo fresh max_threads

  set-inputs :
      (i : ℕ) (t : Thread json Database) (new : Phase json Database) (p p' : Proc)
      → get_elem? p.threads i ≡ some t
      → p'.threads ≡ set p.threads i (record t { phase = new })
      → inputs p' ≡ inputs p
  set-inputs i t new p p' g e =
      ap (map (λ t. t.input)) e
      ∙ set-map (λ t. t.input) p.threads i t (record t { phase = new }) g refl

  carry :
      (ins ins' : List Bytes) (order : List ℕ) (s s' : Server json Database)
      (o : Option (Server json Database))
      → ins' ≡ ins
      → s' ≡ s
      → serve ins' order s' ≡ o
      → serve ins order s ≡ o
  carry ins ins' order s s' o e f k =
      ap (λ l. serve l order s) (sym e) ∙ ap (λ t. serve ins' order t) (sym f) ∙ k

  Kept-serve :
      (moves : List Move) (p p' : Proc) (threads : List (Thread json Database))
      (s : Server json Database)
      → Kept p p' threads
      → serve (inputs p' ++ received moves) (answers moves) p'.server ≡ some s
      → serve (map (λ t. t.input) threads ++ received moves) (answers moves) p.server ≡ some s
  Kept-serve moves p p' threads s (same, m, e) k =
      carry (map (λ t. t.input) threads ++ received moves) (inputs p' ++ received moves)
        (answers moves) p.server p'.server (some s)
        (ap (λ l. map (λ t. t.input) l ++ received moves) e) same k

  answered_next :
      (ins : List Bytes) (i : ℕ) (order : List ℕ) (s s' : Server json Database) (input : Bytes)
      (result : Parsed json)
      → get_elem? ins i ≡ some input
      → parse_encoded json input ≡ some result
      → answer json exec opens accepts spares twice fifo fresh max_threads i result s ≡ some s'
      → serve ins (i ∷ order) s ≡ serve ins order s'
  answered_next ins i order s s' input result g q a =
      let third : Server json Database → Option (Server json Database) = serve ins order in
      let second : Parsed json → Option (Server json Database) =
        λ r. answer json exec opens accepts spares twice fifo fresh max_threads i r s >>= third in
      let first : Bytes → Option (Server json Database) = λ t. parse_encoded json t >>= second in
      ap (λ o. o >>= first) g ∙ ap (λ o. o >>= second) q ∙ ap (λ o. o >>= third) a

  map-snoc :
      (threads : List (Thread json Database)) (t : Thread json Database) (more : List Bytes)
      → map (λ t. t.input) (threads ++ t ∷ []) ++ more
        ≡ map (λ t. t.input) threads ++ t.input ∷ more
  map-snoc [] t more = refl
  map-snoc (u ∷ threads) t more = ap (λ l. u.input ∷ l) (map-snoc threads t more)

  -- A move of a thread that changes nothing that is shared.
  same_serve :
      (i : ℕ) (t : Thread json Database) (new : Phase json Database) (moves : List Move)
      (p p' : Proc) (s : Server json Database)
      → get_elem? p.threads i ≡ some t
      → p'.threads ≡ set p.threads i (record t { phase = new })
      → p'.server ≡ p.server
      → serve (inputs p' ++ received moves) (answers moves) p'.server ≡ some s
      → serve (inputs p ++ received moves) (answers moves) p.server ≡ some s
  same_serve i t new moves p p' s g e same k =
      carry (inputs p ++ received moves) (inputs p' ++ received moves) (answers moves) p.server
        p'.server (some s) (ap (λ l. l ++ received moves) (set-inputs i t new p p' g e)) same k

  step-serve :
      (move : Move) (moves : List Move) (p p' : Proc) (s : Server json Database)
      → p'.running ≡ true
      → Effect json exec opens accepts spares twice fifo fresh max_threads move p p'
      → Sound p
      → serve (inputs p' ++ received moves) (answers moves) p'.server ≡ some s
      → serve (inputs p ++ received (move ∷ moves)) (answers (move ∷ moves)) p.server ≡ some s
  step-serve look moves p p' s r e h k = Kept-serve moves p p' p.threads s (e r) k
  step-serve receive_error moves p p' s r e h k = Kept-serve moves p p' p.threads s (e r) k
  step-serve (receive input true) moves p p' s r e h k =
      let new : Thread json Database = record { input = input; phase = waiting } in
      ap (λ l. serve l (answers moves) p.server) (sym (map-snoc p.threads new (received moves)))
      ∙ Kept-serve moves p p' (p.threads ++ new ∷ []) s (e r) k
  step-serve (receive input false) moves p p' s r e h k = Kept-serve moves p p' p.threads s (e r) k
  step-serve (begin i) moves p p' s r (result, (t, g, ph, e), same, m, parses) h k =
      same_serve i t (begun result) moves p p' s g e same k
  step-serve (lock i) moves p p' s r (result, (t, g, ph, e), same, m, m') h k =
      same_serve i t (locked result) moves p p' s g e same k
  step-serve (load i) moves p p' s r (result, (t, g, ph, e), same, m) h k =
      same_serve i t (loaded result p.server) moves p p' s g e same k
  step-serve (store i) moves p p' s r (result, old, (t, g, ph, e), a, m) h k =
      let (w, holds, now) =
        works json exec opens accepts spares twice fifo fresh max_threads p i t (loaded result old)
          h g ph in
      answered_next (inputs p ++ received moves) i (answers moves) p.server p'.server t.input result
        (get-append (inputs p) (received moves) i t.input (get-map (λ t. t.input) p.threads i t g))
        w
        (subst
          (λ v.
            answer json exec opens accepts spares twice fifo fresh max_threads i result v
            ≡ some p'.server)
          now a)
      ∙ carry (inputs p ++ received moves) (inputs p' ++ received moves) (answers moves) p'.server
          p'.server (some s)
          (ap (λ l. l ++ received moves) (set-inputs i t (stored p'.server.err) p p' g e)) refl k
  step-serve (unlock i) moves p p' s r (err, (t, g, ph, e), same, m) h k =
      same_serve i t (answered err) moves p p' s g e same k
  step-serve (finish i) moves p p' s r (err, (t, g, ph, e), same, m) h k =
      same_serve i t (finished err) moves p p' s g e same k

  moves-serve :
      (moves : List Move) (p p' : Proc)
      → Sound p
      → make_moves json exec opens accepts spares twice fifo fresh max_threads moves p ≡ some p'
      → p'.running ≡ true
      → serve (inputs p ++ received moves) (answers moves) p.server ≡ some p'.server
  unfolding make_moves
  moves-serve [] p p' h e r = ap (λ o. o >>= λ q. some q.server) e
  moves-serve (move ∷ moves) p p' h e r =
      let (p₁, effect, rest) =
        first_move json exec opens accepts spares twice fifo fresh max_threads move moves p p' e in
      let run : p₁.running ≡ true =
        moves-running json exec opens accepts spares twice fifo fresh max_threads moves p₁ p' rest
          r in
      step-serve move moves p p₁ p'.server run effect h (
        moves-serve moves p₁ p'
          (step-IsSound json exec opens accepts spares twice fifo fresh max_threads move p p₁ run
            effect h)
          rest r)

  -- However the threads of a worker and its loop are interleaved, each thread taking the lock, loading
  -- what is shared, storing its answer and giving the lock back in four moves: as long as the process
  -- runs, the state that the threads share is that of a worker which parses and answers whole requests
  -- one after the other, the requests being those, in the order of reception, for which a thread was
  -- created, taken in the order in which their threads stored, so that no answer is lost.
  pub threads-serve :
      (min_threads : ℕ) (s : Server json Database) (moves : List Move) (p : Proc)
      → make_moves json exec opens accepts spares twice fifo fresh max_threads moves
          (first_process json exec opens accepts spares twice fifo fresh max_threads min_threads s)
        ≡ some p
      → p.running ≡ true
      → serve (received moves) (answers moves) s ≡ some p.server
  unfolding first_process
  threads-serve min_threads s moves p e r =
      moves-serve moves
        (first_process json exec opens accepts spares twice fifo fresh max_threads min_threads s) p
        (λ i t g. cc) e r
