-- ===== src/Server/Loop/Lock.antt =====
-- The lock of a worker process: from locking to unlocking, what a thread has loaded is what is shared.
use mathlib.Core.Path.{subst}
use itba_os_tp1_ipc_2016_q.Base.{
  ℕ, ◌≡◌, ◌∙◌, sym, ap, Bool, true, false, List, [], ◌∷◌, ◌++◌, Option, some, Bytes, ◌==◌,
  get_elem?, set, none, ◌≢◌, arith, inl, inr, Bool-cases,
}
use itba_os_tp1_ipc_2016_q.Base.Places.{get-snoc, set-same, set-other}
use itba_os_tp1_ipc_2016_q.Json.{Json}
use itba_os_tp1_ipc_2016_q.Serialization.Parse.{parse_encoded}
use itba_os_tp1_ipc_2016_q.Sql.Process.{Row}
use itba_os_tp1_ipc_2016_q.Server.{CommError, Server}
use itba_os_tp1_ipc_2016_q.Server.Loop.{
  Move, look, receive, receive_error, begin, lock, load, store, unlock, finish, Phase, waiting,
  begun, locked, loaded, stored, answered, finished, Thread, WorkerProcess,
}
use itba_os_tp1_ipc_2016_q.Server.Loop.Effects.{Kept, Effect}
use itba_os_tp1_ipc_2016_q.Server.Loop.Runs.{some-eq}

module _ (json : Json) {Database : Type 0} (exec : Database → Bytes → List Row × Database)
    (opens : Bytes → Bool) (accepts : List ℕ) (spares : ℕ → ℕ → Bool)
    (twice : json.Double → json.Double) (fifo : Bool) (fresh : ℕ → CommError)
    (max_threads : ℕ) where
  abbrev Proc : Type 0
  Proc = WorkerProcess json Database

  -- A thread works on the request that its text is; from locking to unlocking it has the lock, and what
  -- it has loaded is what is shared.
  abbrev pub Works : Option ℕ → Server json Database → ℕ → Bytes → Phase json Database → Type 0
  Works m now i input waiting = Unit
  Works m now i input (begun result) = parse_encoded json input ≡ some result
  Works m now i input (locked result) = (parse_encoded json input ≡ some result) × (m ≡ some i)
  Works m now i input (loaded result s) =
      (parse_encoded json input ≡ some result) × (m ≡ some i) × (s ≡ now)
  Works m now i input (stored err) = m ≡ some i
  Works m now i input (answered err) = Unit
  Works m now i input (finished err) = Unit

  -- A thread that does not have the lock does not care who has it, and what is shared.
  without_lock :
      (m m' : Option ℕ) (now now' : Server json Database) (i : ℕ) (input : Bytes)
      (phase : Phase json Database)
      → m ≢ some i
      → Works m now i input phase
      → Works m' now' i input phase
  without_lock m m' now now' i input waiting h w = tt
  without_lock m m' now now' i input (begun result) h w = w
  without_lock m m' now now' i input (locked result) h (w, e) = absurd (h e)
  without_lock m m' now now' i input (loaded result s) h (w, e, same) = absurd (h e)
  without_lock m m' now now' i input (stored err) h e = absurd (h e)
  without_lock m m' now now' i input (answered err) h w = tt
  without_lock m m' now now' i input (finished err) h w = tt

  other_holds : (m : Option ℕ) (i j : ℕ) → m ≡ some i → (i == j) ≡ false → m ≢ some j
  other_holds m i j e d f = let same : i ≡ j = some-eq i j (sym e ∙ f) in ground (arith, d, same)

  nobody_holds : (m : Option ℕ) (j : ℕ) → m ≡ none → m ≢ some j
  nobody_holds m j e f = let g : none ≡ some j = sym e ∙ f in cc

  kept :
      (m m' : Option ℕ) (now now' : Server json Database) (i : ℕ) (input : Bytes)
      (phase : Phase json Database)
      → m' ≡ m
      → now' ≡ now
      → Works m now i input phase
      → Works m' now' i input phase
  kept m m' now now' i input phase e f w =
      subst (λ k. Works k now' i input phase) (sym e)
        (subst (λ s. Works m s i input phase) (sym f) w)

  abbrev pub IsSound : Proc → Type 0
  IsSound p =
      (i : ℕ) (t : Thread json Database)
      → get_elem? p.threads i ≡ some t
      → Works p.mutex p.server i t.input t.phase

  -- A move of a thread is sound if it is for the thread, and for the others as they are.
  set-IsSound :
      (i : ℕ) (t : Thread json Database) (new : Phase json Database) (p p' : Proc)
      → get_elem? p.threads i ≡ some t
      → p'.threads ≡ set p.threads i (record t { phase = new })
      → Works p'.mutex p'.server i t.input new
      → ((j : ℕ) (u : Thread json Database)
          → (i == j) ≡ false
          → Works p.mutex p.server j u.input u.phase
          → Works p'.mutex p'.server j u.input u.phase)
      → IsSound p
      → IsSound p'
  set-IsSound i t new p p' g e w others h j u k =
      let new_t : Thread json Database = record t { phase = new } in
      let at : get_elem? (set p.threads i new_t) j ≡ some u = ap (λ l. get_elem? l j) (sym e) ∙ k in
      elim (Bool-cases (i == j)) [
        | inl same ↦
            let i_j : i ≡ j = ground (arith, same) in
            let there : get_elem? (set p.threads i new_t) j ≡ some new_t =
              ap (get_elem? (set p.threads i new_t)) (sym i_j) ∙ set-same p.threads i t new_t g in
            let u_t : new_t ≡ u = some-eq new_t u (sym there ∙ at) in
            subst (λ v. Works p'.mutex p'.server j v.input v.phase) u_t
              (subst (λ n. Works p'.mutex p'.server n t.input new) i_j w)
        | inr other ↦ others j u other (h j u (sym (set-other p.threads i j new_t other) ∙ at))
      ]

  Kept-IsSound : (p p' : Proc) → IsSound p → Kept p p' p.threads → IsSound p'
  Kept-IsSound p p' h (s, m, e) j u k =
      kept p.mutex p'.mutex p.server p'.server j u.input u.phase m s
        (h j u (ap (λ l. get_elem? l j) (sym e) ∙ k))

  new-IsSound :
      (p p' : Proc) (input : Bytes)
      → IsSound p
      → Kept p p' (p.threads ++ record { input = input; phase = waiting } ∷ [])
      → IsSound p'
  new-IsSound p p' input h (s, m, e) j u k =
      let new : Thread json Database = record { input = input; phase = waiting } in
      elim (get-snoc p.threads new j u (ap (λ l. get_elem? l j) (sym e) ∙ k)) [
        | inl old ↦ kept p.mutex p'.mutex p.server p'.server j u.input u.phase m s (h j u old)
        | inr is_new ↦ subst (λ v. Works p'.mutex p'.server j v.input v.phase) (sym is_new) tt
      ]

  -- What is known of the thread of a number in its phase.
  pub works :
      (p : Proc) (i : ℕ) (t : Thread json Database) (phase : Phase json Database)
      → IsSound p
      → get_elem? p.threads i ≡ some t
      → t.phase ≡ phase
      → Works p.mutex p.server i t.input phase
  works p i t phase h g ph = subst (Works p.mutex p.server i t.input) ph (h i t g)

  pub step-IsSound :
      (move : Move) (p p' : Proc)
      → p'.running ≡ true
      → Effect json exec opens accepts spares twice fifo fresh max_threads move p p'
      → IsSound p
      → IsSound p'
  step-IsSound look p p' r e h = Kept-IsSound p p' h (e r)
  step-IsSound receive_error p p' r e h = Kept-IsSound p p' h (e r)
  step-IsSound (receive input true) p p' r e h = new-IsSound p p' input h (e r)
  step-IsSound (receive input false) p p' r e h = Kept-IsSound p p' h (e r)
  step-IsSound (begin i) p p' r (result, (t, g, ph, e), s, m, parses) h =
      set-IsSound i t (begun result) p p' g e (parses t g)
        (λ j u d. kept p.mutex p'.mutex p.server p'.server j u.input u.phase m s) h
  step-IsSound (lock i) p p' r (result, (t, g, ph, e), s, m, m') h =
      set-IsSound i t (locked result) p p' g e (works p i t (begun result) h g ph, m')
        (λ j u d.
          without_lock p.mutex p'.mutex p.server p'.server j u.input u.phase
            (nobody_holds p.mutex j m))
        h
  step-IsSound (load i) p p' r (result, (t, g, ph, e), s, m) h =
      let (w, holds) = works p i t (locked result) h g ph in
      set-IsSound i t (loaded result p.server) p p' g e (w, m ∙ holds, sym s)
        (λ j u d. kept p.mutex p'.mutex p.server p'.server j u.input u.phase m s) h
  step-IsSound (store i) p p' r (result, s, (t, g, ph, e), a, m) h =
      let (w, holds, now) = works p i t (loaded result s) h g ph in
      set-IsSound i t (stored p'.server.err) p p' g e (m ∙ holds)
        (λ j u d.
          without_lock p.mutex p'.mutex p.server p'.server j u.input u.phase
            (other_holds p.mutex i j holds d))
        h
  step-IsSound (unlock i) p p' r (err, (t, g, ph, e), s, m) h =
      let holds : p.mutex ≡ some i = works p i t (stored err) h g ph in
      set-IsSound i t (answered err) p p' g e tt
        (λ j u d.
          without_lock p.mutex p'.mutex p.server p'.server j u.input u.phase
            (other_holds p.mutex i j holds d))
        h
  step-IsSound (finish i) p p' r (err, (t, g, ph, e), s, m) h =
      set-IsSound i t (finished err) p p' g e tt
        (λ j u d. kept p.mutex p'.mutex p.server p'.server j u.input u.phase m s) h
