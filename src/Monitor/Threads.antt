-- ===== src/Monitor/Threads.antt =====
-- The threads of a worker in the table of monitor/main.c.
use itba_os_tp1_ipc_2016_q.Base.{
  ℕ, suc, ◌≤◌, ◌<◌, ◌≡◌, refl, ◌∙◌, sym, ap, arith, inl, inr, Bool, Bool-cases, true, false, List,
  [], ◌∷◌, ◌++◌, Option, none, some, ◌>>=◌, ltb, if◌then◌else◌, length, length-append,
}
use itba_os_tp1_ipc_2016_q.Base.Words.{ℤ, int_eq, int_eq_refl, int_eq→eq}
use itba_os_tp1_ipc_2016_q.Monitor.{
  Thread, places, append_place, mark_thread, add_thread, set_thread,
}

-- The status of a thread of that worker.
abbrev pub thread_status : List Thread → ℤ → Option ℤ
thread_status [] thread = none
thread_status (t ∷ threads) thread =
    let rest = thread_status threads thread in if int_eq t.id thread then some t.status else rest

-- The map, changed at one thread.
abbrev pub with_thread : ℤ → ℤ → (ℤ → Option ℤ) → ℤ → Option ℤ
with_thread thread status f u = if int_eq thread u then some status else f u

pub differs : (a b u : ℤ) → int_eq a b ≡ false → int_eq a u ≡ true → int_eq b u ≡ false
differs a b u e h = elim (Bool-cases (int_eq b u)) [
  | inl t ↦
      let back : b ≡ a = int_eq→eq b u t ∙ sym (int_eq→eq a u h) in
      let same : int_eq a b ≡ true = ap (λ c. int_eq a c) back ∙ int_eq_refl a in cc
  | inr f ↦ f
]

here :
    (a u s t : ℤ) (o : Option ℤ)
    → (if int_eq a u then some s else o)
      ≡ (if int_eq a u then some s else (if int_eq a u then some t else o))
here a u s t o = elim (Bool-cases (int_eq a u)) [ inl e ↦ rw e refl | inr e ↦ rw e refl ]

-- What the search of a thread comes to.
abbrev Marked : ℤ → ℤ → List Thread → Option (List Thread) → Type 0
Marked thread status threads none = thread_status threads thread ≡ none
Marked thread status threads (some threads') =
    ((u : ℤ) → thread_status threads' u ≡ with_thread thread status (thread_status threads) u)
    × (length threads' ≡ length threads)

-- A thread with another number in front.
skip-Marked :
    (thread status : ℤ) (t : Thread) (threads : List Thread) (o : Option (List Thread))
    → int_eq t.id thread ≡ false
    → Marked thread status threads o
    → Marked thread status (t ∷ threads) (o >>= λ threads'. some (t ∷ threads'))
skip-Marked thread status t threads none e m = rw e m
skip-Marked thread status t threads (some threads') e (m, n) = (
  (λ u. elim (Bool-cases (int_eq t.id u)) [
    | inl h ↦ let other : int_eq thread u ≡ false = differs t.id thread u e h in rw (h, other) refl
    | inr h ↦ rw h (m u)
  ]),
  ap suc n,
)

mark_thread-Marked :
    (thread status : ℤ) (threads : List Thread)
    → Marked thread status threads (mark_thread thread status threads)
unfolding mark_thread
mark_thread-Marked thread status [] = refl
mark_thread-Marked thread status (t ∷ threads) = elim (Bool-cases (int_eq t.id thread)) [
  | inl h ↦ rw h (
    (λ u. rw (int_eq→eq t.id thread h) (here thread u status t.status (thread_status threads u))),
    refl,
  )
  | inr h ↦ rw h (
      skip-Marked thread status t threads (mark_thread thread status threads) h
        (mark_thread-Marked thread status threads))
]

pub none_else :
    (b : Bool) (s : ℤ) (o : Option ℤ) → (if b then some s else o) ≡ none → (b ≡ false) × (o ≡ none)
none_else true s o e = cc
none_else false s o e = (refl, e)

status-append :
    (threads : List Thread) (thread status u : ℤ)
    → thread_status threads thread ≡ none
    → thread_status (threads ++ record { id = thread; status = status } ∷ []) u
      ≡ with_thread thread status (thread_status threads) u
status-append [] thread status u e = refl
status-append (t ∷ threads) thread status u e =
    let (k, rest) = none_else (int_eq t.id thread) t.status (thread_status threads thread) e in
    elim (Bool-cases (int_eq t.id u)) [
      | inl h ↦ rw (h, differs t.id thread u k h) refl
      | inr h ↦ rw h (status-append threads thread status u rest)
    ]

-- The bound of a block: the null pointer needs a place, too.
pub room :
    (n : ℕ)
    → (ltb (suc n) places ≡ true → suc n < places) × (ltb (suc n) places ≡ false → places ≤ suc n)
room n = (λ e. ground (arith, e), λ e. ground (arith, e))

-- What a status makes of the threads of a worker.
abbrev pub Stored : ℤ → ℤ → List Thread → Option (List Thread) → Type 0
Stored thread status threads none = places ≤ suc (length threads)
Stored thread status threads (some threads') =
    ((u : ℤ) → thread_status threads' u ≡ with_thread thread status (thread_status threads) u)
    × (length threads' ≤ suc (length threads))

add_thread-Stored :
    (thread status : ℤ) (threads : List Thread) (o : Option (List Thread))
    → Marked thread status threads o
    → Stored thread status threads (add_thread thread status threads o)
unfolding add_thread append_place
add_thread-Stored thread status threads (some threads') (m, n) = (m, omega (arith, n))
add_thread-Stored thread status threads none e =
    elim (Bool-cases (ltb (suc (length threads)) places)) [
      | inl h ↦ rw h (
        (λ u. status-append threads thread status u e),
        omega (arith, length-append threads (record { id = thread; status = status } ∷ [])),
      )
      | inr h ↦ rw h ((room (length threads)).1 h)
    ]

pub set_thread-Stored :
    (thread status : ℤ) (threads : List Thread)
    → Stored thread status threads (set_thread thread status threads)
unfolding set_thread
set_thread-Stored thread status threads =
    add_thread-Stored thread status threads (mark_thread thread status threads)
      (mark_thread-Marked thread status threads)
