-- ===== src/Client/Shell/Editing.antt =====
-- The editing of a line in client/main.c and a plain one, of a text that grows and shrinks at its end.
use mathlib.Core.Path.{subst}
use itba_os_tp1_ipc_2016_q.Base.{
  ℕ, suc, ◌+◌, ◌-◌, ◌≤◌, ◌≡◌, ◌≢◌, refl, ◌∙◌, sym, ap, arith, inl, inr, Bool-cases, false, List, [],
  ◌∷◌, ◌++◌, append_assoc, Option, some, Bytes, ◌==◌, ◌>>=◌, bind_ext, bind_assoc, if◌then◌else◌,
  length, length-append, length-take, take, drop, length-drop, take-drop, All-append, All-left, set,
  Lacks,
}
use itba_os_tp1_ipc_2016_q.Channel.{c_str}
use itba_os_tp1_ipc_2016_q.Client.Shell.{Shell, shell_size, store_cell, store_key, key, read_keys}

-- A key, and keys.
abbrev pub edit : Bytes → ℕ → Bytes
edit t c =
    if c == 8
    then take (length t - 1) t
    else if c == 13
    then t
    else if c == 9
    then t
    else t ++ c ∷ []

abbrev pub edited : Bytes → List ℕ → Bytes
edited t [] = t
edited t (c ∷ keys) = edited (edit t c) keys

abbrev pub press : List ℕ → Shell → Option Shell
press [] s = some s
press (c ∷ keys) s = key c s >>= λ s'. press keys s'

-- The block begins with the text, and the index is behind it.
pub record Held (t : Bytes) (s : Shell) : Type 0 where
  pub rest : Bytes
  pub cells : s.shell_buffer ≡ t ++ rest
  pub size : length t + length rest ≡ shell_size
  pub at : s.shell_index ≡ length t

set-append : (t : Bytes) (y x : ℕ) (ys : Bytes) → set (t ++ y ∷ ys) (length t) x ≡ t ++ x ∷ ys
set-append [] y x ys = refl
set-append (z ∷ t) y x ys = ap (λ r. z ∷ r) (set-append t y x ys)

store_cell-append :
    (t : Bytes) (y x : ℕ) (ys : Bytes) → store_cell (t ++ y ∷ ys) (length t) x ≡ some (t ++ x ∷ ys)
unfolding store_cell
store_cell-append t y x ys = ground (arith, length-append t (y ∷ ys), set-append t y x ys)

-- A character in a block with two more cells: it stands behind the text, and a zero behind it.
stored :
    (t : Bytes) (y z c : ℕ) (ys : Bytes)
    → store_key c (record { shell_buffer = t ++ y ∷ z ∷ ys; shell_index = length t })
      ≡ some (record { shell_buffer = t ++ c ∷ 0 ∷ ys; shell_index = suc (length t) })
unfolding store_key
stored t y z c ys =
    let first = store_cell-append t y c (z ∷ ys) in
    let second : store_cell (t ++ c ∷ z ∷ ys) (suc (length t)) 0 ≡ some (t ++ c ∷ 0 ∷ ys) =
      ap (λ l. store_cell l (suc (length t)) 0) (sym (append_assoc t (c ∷ []) (z ∷ ys)))
      ∙ ap (λ n. store_cell ((t ++ c ∷ []) ++ z ∷ ys) n 0) (omega (arith, length-append t (c ∷ [])))
      ∙ store_cell-append (t ++ c ∷ []) z 0 ys
      ∙ ap (λ l. some l) (append_assoc t (c ∷ []) (0 ∷ ys)) in
    ap
      (λ o. o >>= λ buffer. store_cell buffer (suc (length t)) 0 >>= λ ended.
        some (record { shell_buffer = ended; shell_index = suc (length t) }))
      first
    ∙ ap (λ o. o >>= λ ended. some (record { shell_buffer = ended; shell_index = suc (length t) }))
        second

-- A stored key ends the text in the block.
store-Held :
    (t : Bytes) (c : ℕ) (s : Shell) (rest : Bytes)
    → s.shell_buffer ≡ t ++ rest
    → length t + length rest ≡ shell_size
    → s.shell_index ≡ length t
    → length t + 2 ≤ shell_size
    → (s' : Shell) × (store_key c s ≡ some s')
      × Held (t ++ c ∷ []) s'
      × ((ys : Bytes) × (s'.shell_buffer ≡ (t ++ c ∷ []) ++ 0 ∷ ys))
store-Held t c s [] b n i room = absurd (omega arith)
store-Held t c s (y ∷ []) b n i room = absurd (omega arith)
store-Held t c s (y ∷ z ∷ ys) b n i room =
    let s' : Shell = record { shell_buffer = t ++ c ∷ 0 ∷ ys; shell_index = suc (length t) } in
    let now : s'.shell_buffer ≡ (t ++ c ∷ []) ++ 0 ∷ ys = sym (append_assoc t (c ∷ []) (0 ∷ ys)) in
    (
      s',
      ap (λ l. store_key c (record { shell_buffer = l; shell_index = s.shell_index })) b
          ∙ ap (λ n. store_key c (record { shell_buffer = t ++ y ∷ z ∷ ys; shell_index = n })) i
          ∙ stored t y z c ys,
      record {
        rest = 0 ∷ ys;
        cells = now;
        size = omega (arith, n, length-append t (c ∷ []));
        at = omega (arith, length-append t (c ∷ []));
      },
      (ys, now),
    )

erase-Held :
    (t : Bytes) (s : Shell)
    → Held t s
    → Held (take (length t - 1) t) (record s { shell_index = s.shell_index - 1 })
erase-Held t s h = record {
  rest = drop (length t - 1) t ++ h.rest;
  cells =
      h.cells
      ∙ ap (λ l. l ++ h.rest) (sym (take-drop (length t - 1) t))
      ∙ append_assoc (take (length t - 1) t) (drop (length t - 1) t) h.rest;
  size = omega (
    arith,
    h.size,
    length-take (length t - 1) t,
    length-drop (length t - 1) t,
    length-append (drop (length t - 1) t) h.rest,
  );
  at = omega (arith, h.at, length-take (length t - 1) t);
}

key-Held :
    (t : Bytes) (c : ℕ) (s : Shell)
    → Held t s
    → length t + 2 ≤ shell_size
    → (s' : Shell) × (key c s ≡ some s') × Held (edit t c) s'
unfolding key
key-Held t c s h room = elim (Bool-cases (c == 8)) [
  | inl e ↦ rw e (record s { shell_index = s.shell_index - 1 }, refl, erase-Held t s h)
  | inr e ↦ rw e (elim (Bool-cases (c == 13)) [
    | inl f ↦ rw f (s, refl, h)
    | inr f ↦ rw f (elim (Bool-cases (c == 9)) [
      | inl g ↦ rw g (s, refl, h)
      | inr g ↦
          rw g (let (s', e, k, ys) = store-Held t c s h.rest h.cells h.size h.at room in (s', e, k))
    ])
  ])
]

length-edit : (t : Bytes) (c : ℕ) → length (edit t c) ≤ length t + 1
length-edit t c = ground (arith, length-take (length t - 1) t, length-append t (c ∷ []))

press-Held :
    (t : Bytes) (keys : List ℕ) (s : Shell)
    → Held t s
    → length t + length keys + 1 ≤ shell_size
    → (s' : Shell) × (press keys s ≡ some s')
      × Held (edited t keys) s'
      × (length (edited t keys) ≤ length t + length keys)
press-Held t [] s h room = (s, refl, h, omega arith)
press-Held t (c ∷ keys) s h room =
    let (s', e, h') = key-Held t c s h (omega arith) in
    let short = length-edit t c in
    let (s'', f, k, l) = press-Held (edit t c) keys s' h' (omega (arith, short)) in
    (s'', ap (λ o. o >>= press keys) e ∙ f, k, omega (arith, short, l))

-- A line is read as its keys are pressed.
pub read-press :
    (keys rest : List ℕ) (s : Shell)
    → Lacks 10 keys
    → Lacks 255 keys
    → read_keys (keys ++ 10 ∷ rest) s ≡ (press keys s >>= λ s'. some (s', rest))
unfolding read_keys
read-press [] rest s n m = refl
read-press (c ∷ keys) rest s n m =
    let ten : (c == 10) ≡ false = ground (arith, n.0) in
    let end : (c == 255) ≡ false = ground (arith, m.0) in
    rw ten (
      bind_ext (key c s) _ (λ s'. press keys s' >>= λ t. some (t, rest))
        (λ s'. rw end (read-press keys rest s' n.1 m.1))
      ∙ sym (bind_assoc (key c s) (press keys) (λ t. some (t, rest))))

Lacks-take : (b n : ℕ) (t : Bytes) → Lacks b t → Lacks b (take n t)
Lacks-take b n t h =
    All-left (λ c. c ≢ b) (take n t) (drop n t) (subst (Lacks b) (sym (take-drop n t)) h)

edited-Lacks :
    (b : ℕ) (t : Bytes) (keys : List ℕ) → Lacks b t → Lacks b keys → Lacks b (edited t keys)
edited-Lacks b t [] h k = h
edited-Lacks b t (c ∷ keys) h k = edited-Lacks b (edit t c) keys one k.1
  where
    one : Lacks b (edit t c)
    one = elim (Bool-cases (c == 8)) [
      | inl e ↦ rw e (Lacks-take b (length t - 1) t h)
      | inr e ↦ rw e (elim (Bool-cases (c == 13)) [
        | inl f ↦ rw f h
        | inr f ↦ rw f (elim (Bool-cases (c == 9)) [
          | inl g ↦ rw g h
          | inr g ↦ rw g (All-append (λ c. c ≢ b) t (c ∷ []) h (k.0, tt))
        ])
      ])
    ]

c_str-ended : (t ys : Bytes) → Lacks 0 t → c_str (t ++ 0 ∷ ys) ≡ t
unfolding c_str
c_str-ended [] ys h = refl
c_str-ended (c ∷ t) ys h = ground (arith, h.0, c_str-ended t ys h.1)

-- The character keys: they are stored.
abbrev pub IsStored : ℕ → Type 0
IsStored c = (c ≢ 0) × (c ≢ 8) × (c ≢ 9) × (c ≢ 13)

press-append :
    (keys more : List ℕ) (s : Shell) → press (keys ++ more) s ≡ (press keys s >>= press more)
press-append [] more s = refl
press-append (c ∷ keys) more s =
    bind_ext (key c s) (press (keys ++ more)) (λ s'. press keys s' >>= press more)
      (press-append keys more)
    ∙ sym (bind_assoc (key c s) (press keys) (press more))

key-IsStored : (c : ℕ) (s : Shell) → IsStored c → key c s ≡ store_key c s
unfolding key
key-IsStored c s k = ground (arith, k.1, k.2)

edit-IsStored : (t : Bytes) (c : ℕ) → IsStored c → edit t c ≡ t ++ c ∷ []
edit-IsStored t c k = ground (arith, k.1, k.2)

edited-append :
    (t : Bytes) (keys more : List ℕ) → edited t (keys ++ more) ≡ edited (edited t keys) more
edited-append t [] more = refl
edited-append t (c ∷ keys) more = edited-append (edit t c) keys more

-- A line whose last key before the newline is a character, which fits the block: what `cmd_parse` gets
-- is the text that a plain editor gives, for which a backspace takes the last character away.
pub typed_line :
    (keys rest : List ℕ) (c : ℕ) (s : Shell)
    → IsStored c
    → Lacks 0 keys
    → Lacks 10 (keys ++ c ∷ [])
    → Lacks 255 (keys ++ c ∷ [])
    → length keys + 2 ≤ shell_size
    → length s.shell_buffer ≡ shell_size
    → s.shell_index ≡ 0
    → (s' : Shell) × (read_keys ((keys ++ c ∷ []) ++ 10 ∷ rest) s ≡ some (s', rest))
      × (c_str s'.shell_buffer ≡ edited [] (keys ++ c ∷ []))
      × (length s'.shell_buffer ≡ shell_size)
typed_line keys rest c s k z n m room b i =
    let start : Held [] s = record {
      rest = s.shell_buffer;
      cells = refl;
      size = omega (arith, b);
      at = i;
    } in
    let (s1, e, h, short) = press-Held [] keys s start (omega arith) in
    let t = edited [] keys in
    let (s2, f, h2, last0) = store-Held t c s1 h.rest h.cells h.size h.at (omega (arith, short)) in
    let (ys, last) = last0 in
    let whole : edited [] (keys ++ c ∷ []) ≡ t ++ c ∷ [] =
      edited-append [] keys (c ∷ []) ∙ edit-IsStored t c k in
    let pressed : press (keys ++ c ∷ []) s ≡ some s2 =
      press-append keys (c ∷ []) s
      ∙ ap (λ o. o >>= press (c ∷ [])) e
      ∙ ap (λ o. o >>= λ s'. some s') (key-IsStored c s1 k ∙ f) in
    (
      s2,
      read-press (keys ++ c ∷ []) rest s n m ∙ ap (λ o. o >>= λ s'. some (s', rest)) pressed,
      ap c_str last
          ∙ c_str-ended (t ++ c ∷ []) ys
              (All-append (λ c. c ≢ 0) t (c ∷ []) (edited-Lacks 0 [] keys tt z) (k.0, tt))
          ∙ sym whole,
      ap (λ l. length l) h2.cells ∙ length-append (t ++ c ∷ []) h2.rest ∙ h2.size,
    )

-- What `cmd_parse` gets, and the rest of the input.
abbrev pub shown : Shell × List ℕ → Option (Bytes × List ℕ)
shown (s, rest) = some (c_str s.shell_buffer, rest)

abbrev pub line_of : List ℕ → Shell → Option (Bytes × List ℕ)
line_of input s = read_keys input s >>= shown

line_of-press :
    (keys rest : List ℕ) (s : Shell)
    → Lacks 10 keys
    → Lacks 255 keys
    → line_of (keys ++ 10 ∷ rest) s ≡ (press keys s >>= λ s'. shown (s', rest))
line_of-press keys rest s n m =
    ap (λ o. o >>= shown) (read-press keys rest s n m)
    ∙ bind_assoc (press keys s) (λ s'. some (s', rest)) shown

key-backspace :
    (s : Shell) (rest : List ℕ) → (press (8 ∷ []) s >>= λ s'. shown (s', rest)) ≡ shown (s, rest)
unfolding key
key-backspace s rest = refl

-- A backspace just before the newline has no effect at all on the line: it moves the index alone, and
-- the character that it ought to erase stays in the block.
pub last_backspace :
    (keys rest : List ℕ) (s : Shell)
    → Lacks 10 keys
    → Lacks 255 keys
    → line_of ((keys ++ 8 ∷ []) ++ 10 ∷ rest) s ≡ line_of (keys ++ 10 ∷ rest) s
last_backspace keys rest s n m =
    let end : Shell → Option (Bytes × List ℕ) = λ s'. shown (s', rest) in
    line_of-press (keys ++ 8 ∷ []) rest s
      (All-append (λ c. c ≢ 10) keys (8 ∷ []) n ((λ e. omega (arith, e)), tt))
      (All-append (λ c. c ≢ 255) keys (8 ∷ []) m ((λ e. omega (arith, e)), tt))
    ∙ ap (λ o. o >>= end) (press-append keys (8 ∷ []) s)
    ∙ bind_assoc (press keys s) (press (8 ∷ [])) end
    ∙ bind_ext (press keys s) (λ s'. press (8 ∷ []) s' >>= end) end (λ s'. key-backspace s' rest)
    ∙ sym (line_of-press keys rest s n m)
