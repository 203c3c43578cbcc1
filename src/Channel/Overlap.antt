-- ===== src/Channel/Overlap.antt =====
-- Where a boundary can begin inside of a payload and the boundary behind it.
use mathlib.Core.Path.{subst}
use itba_os_tp1_ipc_2016_q.Base.{
  All-drop, ℕ, zero, suc, ◌+◌, ◌-◌, ◌≤◌, ◌<◌, ◌≡◌, refl, ◌≢◌, ◌∙◌, sym, ap, arith, inl, inr, [],
  ◌∷◌, ◌++◌, Bytes, Bool-cases, ◌==◌, leb, if◌then◌else◌, length, take, drop, length-append,
  length-drop, drop-append_le, drop-append, take-append_le, take-append_ge, Lacks,
}
use itba_os_tp1_ipc_2016_q.Channel.Boundary.{IsBoundary}
use itba_os_tp1_ipc_2016_q.Channel.Delivery.{NoEarly}

-- The payload does not contain the boundary.
abbrev pub Absent : Bytes → Bytes → Type 0
Absent b payload = (k : ℕ) → take (length b) (drop k payload) ≢ b

-- The number of underscores.
marks : Bytes → ℕ
marks [] = 0
marks (c ∷ s) = if c == b'_' then marks s + 1 else marks s

abbrev tail_marks : Bytes
tail_marks = b'_' ∷ b'_' ∷ []

take-split_at : (n : ℕ) (s : Bytes) → take n s ++ drop n s ≡ s
take-split_at zero s = refl
take-split_at (suc n) [] = refl
take-split_at (suc n) (c ∷ s) = ap (λ t. c ∷ t) (take-split_at n s)

marks-append : (s t : Bytes) → marks (s ++ t) ≡ marks s + marks t
unfolding marks
marks-append [] t = omega arith
marks-append (c ∷ s) t = ground (arith, marks-append s t)

marks-Lacks : (s : Bytes) → Lacks b'_' s → marks s ≡ 0
unfolding marks
marks-Lacks [] h = refl
marks-Lacks (c ∷ s) h = ground (arith, marks-Lacks s h.1)

marks-body : (body : Bytes) → Lacks b'_' body → marks (body ++ tail_marks) ≡ 2
marks-body body h = marks-append body tail_marks ∙ unfold marks in omega (arith, marks-Lacks body h)

marks-drop :
    (n : ℕ) (body : Bytes)
    → Lacks b'_' body
    → n ≤ length body
    → marks (drop n (body ++ tail_marks)) ≡ 2
marks-drop zero body h le = marks-body body h
marks-drop (suc n) [] h le = absurd (omega arith)
marks-drop (suc n) (c ∷ body) h le = marks-drop n body h.1 (omega arith)

marks-drop_pos :
    (n : ℕ) (body : Bytes) → n < length body + 2 → 0 < marks (drop n (body ++ tail_marks))
unfolding marks
marks-drop_pos zero [] lt = omega arith
marks-drop_pos (suc zero) [] lt = omega arith
marks-drop_pos (suc (suc n)) [] lt = absurd (omega arith)
marks-drop_pos zero (c ∷ body) lt = ground (arith, marks-drop_pos zero body (omega arith))
marks-drop_pos (suc n) (c ∷ body) lt = marks-drop_pos n body (omega arith)

-- No proper end of a boundary is its beginning.
unbordered :
    (body : Bytes) (m j : ℕ)
    → Lacks b'_' body
    → 0 < length body
    → 0 < m
    → 0 < j
    → m + j ≡ length body + 2
    → drop m (body ++ tail_marks) ≢ take j (body ++ tail_marks)
unbordered [] m j h some m_pos j_pos sum e = absurd (omega arith)
unbordered (c ∷ body) m j h some m_pos j_pos sum e =
    let b = (c ∷ body) ++ tail_marks in
    let total : marks (take j b) + marks (drop j b) ≡ 2 =
      sym (marks-append (take j b) (drop j b))
      ∙ ap marks (take-split_at j b)
      ∙ marks-body (c ∷ body) h in
    let same : marks (drop m b) ≡ marks (take j b) = ap marks e in
    let behind : 0 < marks (drop j b) = marks-drop_pos j (c ∷ body) (omega arith) in
    elim (Bool-cases (leb m (length (c ∷ body)))) [
      | inl le ↦ absurd (omega (arith, marks-drop m (c ∷ body) h (ground arith)))
      | inr gt ↦
          let one : j ≡ 1 = ground arith in
          let first : marks (take j b) ≡ 0 = rw one (unfold marks in ground arith) in
          absurd (omega (arith, marks-drop_pos m (c ∷ body) (omega arith)))
    ]

-- If the payload does not contain the boundary, no boundary ends before the last one.
pub Absent-NoEarly : (b payload : Bytes) → IsBoundary b → Absent b payload → NoEarly b payload
Absent-NoEarly b payload ib absent k k_pos k_lt e =
    let t = drop k payload in
    let n : length t ≡ length payload - k = length-drop k payload in
    let size : length b ≡ length ib.body + 2 =
      ap length ib.shape ∙ length-append ib.body tail_marks in
    let at : take (length b) (t ++ b) ≡ b =
      ap (take (length b)) (sym (drop-append_le k payload b (omega arith))) ∙ e in
    elim (Bool-cases (leb (length b) (length t))) [
      | inl le ↦ absurd (absent k (sym (take-append_le (length b) t b (ground arith)) ∙ at))
      | inr gt ↦
          let shifted : t ++ take (length b - length t) b ≡ b =
            sym (take-append_ge (length b) t b (ground arith)) ∙ at in
          let border : take (length b - length t) b ≡ drop (length t) b =
            sym (drop-append t (take (length b - length t) b)) ∙ ap (drop (length t)) shifted in
          absurd (
            unbordered ib.body (length t) (length b - length t) ib.no_underscore ib.some_body
              (omega arith) (ground arith) (ground arith) (rw (← ib.shape) (sym border)))
    ]

take-Lacks : (c n : ℕ) (s : Bytes) → Lacks c s → Lacks c (take n s)
take-Lacks c zero s h = tt
take-Lacks c (suc n) [] h = tt
take-Lacks c (suc n) (d ∷ s) h = (h.0, take-Lacks c n s h.1)

-- A text without the first character of the boundary does not contain the boundary.
pub first-Absent : (c : ℕ) (b payload : Bytes) → Lacks c payload → Absent (c ∷ b) payload
first-Absent c b payload h k e =
    let l : Lacks c (c ∷ b) =
      subst (Lacks c) e (take-Lacks c (length (c ∷ b)) (drop k payload) (All-drop _ k payload h)) in
    l.0 refl
