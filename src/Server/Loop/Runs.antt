-- ===== src/Server/Loop/Runs.antt =====
-- The moves of a worker process one by one.
use mathlib.Core.Path.{subst}
use itba_os_tp1_ipc_2016_q.Base.{
  ℕ, ◌≡◌, refl, ◌∙◌, ap, Bool, true, false, List, [], ◌∷◌, Option, none, some, ◌>>=◌, Bytes,
  if◌then◌else◌,
}
use itba_os_tp1_ipc_2016_q.Json.{Json}
use itba_os_tp1_ipc_2016_q.Sql.Process.{Row}
use itba_os_tp1_ipc_2016_q.Server.{CommError}
use itba_os_tp1_ipc_2016_q.Server.Loop.{Move, WorkerProcess, make_move, make_moves}
use itba_os_tp1_ipc_2016_q.Server.Loop.Effects.{Effect, EffectIf}
use itba_os_tp1_ipc_2016_q.Server.Loop.Moves.{move-Effect}

module _ {A : Type 0} where
  guard_some :
      (b : Bool) (o : Option A) (x : A)
      → (if b then o else none) ≡ some x
      → (b ≡ true) × (o ≡ some x)
  guard_some true o x e = (refl, e)
  guard_some false o x e = cc

module _ {A B : Type 0} where
  bind_some :
      (o : Option A) (f : A → Option B) (y : B)
      → (o >>= f) ≡ some y
      → (x : A) × (o ≡ some x) × (f x ≡ some y)
  bind_some none f y e = cc
  bind_some (some x) f y e = (x, refl, e)

pub some-eq : {A : Type 0} (x y : A) → some x ≡ some y → x ≡ y
some-eq {A} x y e = let value : Option A → A = λ o. elim o [ none ↦ x | some z ↦ z ] in ap value e

module _ (json : Json) {Database : Type 0} (exec : Database → Bytes → List Row × Database)
    (opens : Bytes → Bool) (accepts : List ℕ) (spares : ℕ → ℕ → Bool)
    (twice : json.Double → json.Double) (fifo : Bool) (fresh : ℕ → CommError)
    (max_threads : ℕ) where
  abbrev Proc : Type 0
  Proc = WorkerProcess json Database

  -- Moves are made by a process that runs, or there are none.
  pub moves-running :
      (moves : List Move) (p p' : Proc)
      → make_moves json exec opens accepts spares twice fifo fresh max_threads moves p ≡ some p'
      → p'.running ≡ true
      → p.running ≡ true
  unfolding make_moves
  moves-running [] p p' e r = ap (λ q. q.running) (some-eq p p' e) ∙ r
  moves-running (move ∷ moves) p p' e r = (guard_some p.running _ p' e).0

  -- The first move, and what the others go on with.
  pub first_move :
      (move : Move) (moves : List Move) (p p' : Proc)
      → make_moves json exec opens accepts spares twice fifo fresh max_threads (move ∷ moves) p
        ≡ some p'
      → (p₁ : Proc) × Effect json exec opens accepts spares twice fifo fresh max_threads move p p₁
        × (make_moves json exec opens accepts spares twice fifo fresh max_threads moves p₁
            ≡ some p')
  unfolding make_moves
  first_move move moves p p' e =
      let (p₁, first, rest) =
        bind_some (make_move json exec opens accepts spares twice fifo fresh max_threads move p)
          (make_moves json exec opens accepts spares twice fifo fresh max_threads moves) p'
          (guard_some p.running _ p' e).1 in
      (
        p₁,
        subst (EffectIf json exec opens accepts spares twice fifo fresh max_threads move p) first
            (move-Effect json exec opens accepts spares twice fifo fresh max_threads move p),
        rest,
      )
