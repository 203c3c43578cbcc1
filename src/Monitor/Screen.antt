-- ===== src/Monitor/Screen.antt =====
-- The screen that monitor/main.c draws of its table.
use mathlib.Core.Path.{fun_ext, subst}
use itba_os_tp1_ipc_2016_q.Base.{
  ℕ, zero, suc, ◌+◌, ◌-◌, ◌≡◌, refl, ◌∙◌, sym, ap, arith, inl, inr, Bool-cases, List, [], ◌∷◌, ◌++◌,
  append-nil, append_assoc, ◌==◌, if◌then◌else◌, length, length-append,
}
use itba_os_tp1_ipc_2016_q.Base.Words.{ℤ, int_eq}
use itba_os_tp1_ipc_2016_q.Monitor.{
  Thread, Worker, Row, blank, worker_row, thread_row, Rows, clear, put_row, minus_one, draw_threads,
  end_worker, draw_workers, draw,
}

-- The row of that number of these rows, and blank ones behind them.
abbrev pub row_at : List Row → ℕ → Row
row_at [] i = blank
row_at (r ∷ rows) zero = r
row_at (r ∷ rows) (suc i) = row_at rows i

-- The rows of the threads that are not down.
abbrev pub thread_rows : List Thread → List Row
thread_rows [] = []
thread_rows (t ∷ threads) =
    let rest = thread_rows threads in
    if int_eq t.status minus_one then rest else (thread_row t.status t.id ∷ rest)

abbrev under : ℤ → List Row → List Row
under id [] = []
under id (r ∷ rows) = worker_row id ∷ r ∷ rows

-- The workers that have such threads, each above its own.
abbrev pub worker_rows : List Worker → List Row
worker_rows [] = []
worker_rows (w ∷ workers) = under w.id (thread_rows w.threads) ++ worker_rows workers

-- The screen has these rows and the next one is behind them.
abbrev Shown : List Row → ℕ × Rows → Type 0
Shown shown (j, rows) = (j ≡ length shown) × ((i : ℕ) → rows i ≡ row_at shown i)

row_at-snoc :
    (shown : List Row) (r : Row) (i : ℕ)
    → row_at (shown ++ r ∷ []) i ≡ (if i == length shown then r else row_at shown i)
row_at-snoc [] r zero = refl
row_at-snoc [] r (suc i) = ground arith
row_at-snoc (s ∷ shown) r zero = ground arith
row_at-snoc (s ∷ shown) r (suc i) = ground (arith, row_at-snoc shown r i)

row_at-end : (shown : List Row) → row_at shown (length shown) ≡ blank
row_at-end [] = refl
row_at-end (s ∷ shown) = row_at-end shown

moved : (l m : List Row) (p : ℕ × Rows) → l ≡ m → Shown l p → Shown m p
moved l m p e s = subst (λ k. Shown k p) e s

put-Shown :
    (shown : List Row) (r : Row) (j : ℕ) (rows : Rows)
    → Shown shown (j, rows)
    → Shown (shown ++ r ∷ []) (suc j, put_row j r rows)
put-Shown shown r j rows (e, s) = (
  omega (arith, e, length-append shown (r ∷ [])),
  λ i.
      ap (λ k. if i == k then r else rows i) e
      ∙ ap (λ old. if i == length shown then r else old) (s i)
      ∙ sym (row_at-snoc shown r i),
)

-- Behind the threads of a worker, of which `l` were up before.
abbrev Drawn : List Row → ℕ → ℕ × ℕ × Rows → Type 0
Drawn shown l (j, l', rows) = Shown shown (j, rows) × (l' ≡ l)

next_thread :
    (threads : List Thread) (shown : List Row) (t : Thread) (l : ℕ) (p : ℕ × ℕ × Rows)
    → Drawn
        ((shown ++ thread_row t.status t.id ∷ []) ++ thread_rows threads)
        (suc l + length (thread_rows threads))
        p
    → Drawn
        (shown ++ thread_row t.status t.id ∷ thread_rows threads)
        (l + suc (length (thread_rows threads)))
        p
next_thread threads shown t l (j, l', rows) (s, k) = (
  moved ((shown ++ thread_row t.status t.id ∷ []) ++ thread_rows threads)
      (shown ++ thread_row t.status t.id ∷ thread_rows threads) (j, rows)
      (append_assoc shown (thread_row t.status t.id ∷ []) (thread_rows threads)) s,
  omega (arith, k),
)

draw_threads-Drawn :
    (threads : List Thread) (shown : List Row) (j l : ℕ) (rows : Rows)
    → Shown shown (j, rows)
    → Drawn
        (shown ++ thread_rows threads)
        (l + length (thread_rows threads))
        (draw_threads threads j l rows)
unfolding draw_threads
draw_threads-Drawn [] shown j l rows s =
    (moved shown (shown ++ []) (j, rows) (sym (append-nil shown)) s, omega arith)
draw_threads-Drawn (t ∷ threads) shown j l rows s = elim (Bool-cases (int_eq t.status minus_one)) [
  | inl h ↦ rw h (draw_threads-Drawn threads shown j l rows s)
  | inr h ↦ rw h (
      next_thread threads shown t l
        (draw_threads threads (suc j) (suc l) (put_row j (thread_row t.status t.id) rows))
        (draw_threads-Drawn threads (shown ++ thread_row t.status t.id ∷ []) (suc j) (suc l)
          (put_row j (thread_row t.status t.id) rows)
          (put-Shown shown (thread_row t.status t.id) j rows s)))
]

blotted :
    (shown : List Row) (r : Row) (i : ℕ)
    → (if i == length shown then blank else (if i == length shown then r else row_at shown i))
      ≡ row_at shown i
blotted shown r i = elim (Bool-cases (i == length shown)) [
  | inl h ↦
      let last : i ≡ length shown = ground (arith, h) in
      rw h (sym (ap (λ k. row_at shown k) last ∙ row_at-end shown))
  | inr h ↦ rw h refl
]

-- The last row is blotted out.
blot-Shown :
    (shown : List Row) (r : Row) (j : ℕ) (rows : Rows)
    → Shown (shown ++ r ∷ []) (j, rows)
    → Shown shown (j - 1, put_row (j - 1) blank rows)
blot-Shown shown r j rows (e, s) =
    let last : j - 1 ≡ length shown = omega (arith, e, length-append shown (r ∷ [])) in
    (
      last,
      λ i.
          ap (λ k. if i == k then blank else rows i) last
          ∙ ap (λ old. if i == length shown then blank else old) (s i ∙ row_at-snoc shown r i)
          ∙ blotted shown r i,
    )

end_worker-Shown :
    (shown live : List Row) (id : ℤ) (p : ℕ × ℕ × Rows)
    → Drawn ((shown ++ worker_row id ∷ []) ++ live) (0 + length live) p
    → Shown (shown ++ under id live) (end_worker p)
unfolding end_worker
end_worker-Shown shown [] id (j, zero, rows) ((e, s), k) =
    moved shown (shown ++ []) (j - 1, put_row (j - 1) blank rows) (sym (append-nil shown))
      (blot-Shown shown (worker_row id) j rows (
        moved ((shown ++ worker_row id ∷ []) ++ []) (shown ++ worker_row id ∷ []) (j, rows)
          (append-nil (shown ++ worker_row id ∷ [])) (e, s)))
end_worker-Shown shown [] id (j, suc l, rows) ((e, s), k) = absurd (omega (arith, k))
end_worker-Shown shown (r ∷ live) id (j, zero, rows) ((e, s), k) = absurd (omega (arith, k))
end_worker-Shown shown (r ∷ live) id (j, suc l, rows) (s, k) =
    moved ((shown ++ worker_row id ∷ []) ++ r ∷ live) (shown ++ worker_row id ∷ r ∷ live) (j, rows)
      (append_assoc shown (worker_row id ∷ []) (r ∷ live)) s

draw_workers-Shown :
    (workers : List Worker) (shown : List Row) (j : ℕ) (rows : Rows)
    → Shown shown (j, rows)
    → Shown (shown ++ worker_rows workers) (draw_workers workers j rows)
unfolding draw_workers
draw_workers-Shown [] shown j rows s =
    moved shown (shown ++ []) (j, rows) (sym (append-nil shown)) s
draw_workers-Shown (w ∷ workers) shown j rows s =
    let drawn : ℕ × ℕ × Rows =
      draw_threads w.threads (suc j) 0 (put_row j (worker_row w.id) rows) in
    let up : List Row = under w.id (thread_rows w.threads) in
    moved ((shown ++ up) ++ worker_rows workers) (shown ++ (up ++ worker_rows workers))
      (draw_workers workers (end_worker drawn).0 (end_worker drawn).1)
      (append_assoc shown up (worker_rows workers))
      (draw_workers-Shown workers (shown ++ up) (end_worker drawn).0 (end_worker drawn).1 (
        end_worker-Shown shown (thread_rows w.threads) w.id drawn (
          draw_threads-Drawn w.threads (shown ++ worker_row w.id ∷ []) (suc j) 0
            (put_row j (worker_row w.id) rows) (put-Shown shown (worker_row w.id) j rows s))))

-- The screen has a row for each worker with a thread that is not down, in the order of the table, with
-- the rows of these threads below it, and nothing else: what is drawn for the other workers is blotted
-- out, and the rows behind are blank.
pub draw-rows : (workers : List Worker) → draw workers ≡ row_at (worker_rows workers)
unfolding draw
draw-rows workers = fun_ext λ i. (draw_workers-Shown workers [] 0 clear (refl, λ i. refl)).1 i
