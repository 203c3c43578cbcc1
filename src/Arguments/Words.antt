-- ===== src/Arguments/Words.antt =====
-- The words that `split_arguments` finds in a line, and its null pointers.
use itba_os_tp1_ipc_2016_q.Base.{
  ℕ, ◌≡◌, refl, ◌≢◌, ◌∙◌, sym, ap, arith, inl, inr, ◌↔◌, Bool, true, false, not, List, [], ◌∷◌,
  ◌++◌, Option, none, some, Bytes, Bool-cases, ◌==◌, if◌then◌else◌, length, All, All-append, Lacks,
  append_assoc,
}
use itba_os_tp1_ipc_2016_q.Arguments.{space, quote_mark, count_elements, split_arguments}
use itba_os_tp1_ipc_2016_q.Arguments.Refines.{
  Tokenizer, token_start, token_step, token_loop, token_end, tokens, with_end,
  split_arguments-tokens,
}

-- A word as a user types it: plain text, or text between two quotation marks, where spaces may
-- stand.
pub data IsWord : Bytes → Type 0 where
  plain : (w : Bytes) → w ≢ [] → Lacks space w → Lacks quote_mark w → IsWord w
  quoted :
      (body w : Bytes)
      → Lacks quote_mark body
      → w ≡ quote_mark ∷ (body ++ quote_mark ∷ [])
      → IsWord w

-- The words with one space between them.
unfoldable pub join : List Bytes → Bytes
join [] = []
join (w ∷ []) = w
join (w ∷ v ∷ ws) = w ++ space ∷ join (v ∷ ws)

abbrev at_word : List Bytes → Bytes → Bool → Bool → Tokenizer
at_word ws cur w q = record { words = ws; current = cur; in_word = w; quoted = q }

token_loop-append :
    (s r : Bytes) (t : Tokenizer) → token_loop (s ++ r) t ≡ token_loop r (token_loop s t)
unfolding token_loop
token_loop-append [] r t = refl
token_loop-append (c ∷ s) r t = token_loop-append s r (token_step c t)

-- Plain text extends the current word.
token_step-plain :
    (c : ℕ) (ws : List Bytes) (cur : Bytes) (b : Bool)
    → c ≢ space
    → c ≢ quote_mark
    → token_step c (at_word ws cur b false) ≡ at_word ws (cur ++ c ∷ []) true false
unfolding token_step
token_step-plain c ws cur b h k = ground arith

token_loop-plain :
    (w : Bytes) (ws : List Bytes) (cur : Bytes) (b : Bool)
    → w ≢ []
    → Lacks space w
    → Lacks quote_mark w
    → token_loop w (at_word ws cur b false) ≡ at_word ws (cur ++ w) true false
unfolding token_loop
token_loop-plain [] ws cur b ne h k = absurd (ne refl)
token_loop-plain (c ∷ []) ws cur b ne h k = token_step-plain c ws cur b h.0 k.0
token_loop-plain (c ∷ d ∷ w) ws cur b ne h k =
    rw (token_step-plain c ws cur b h.0 k.0)
      (rw (token_loop-plain (d ∷ w) ws (cur ++ c ∷ []) true (λ e. cc) h.1 k.1, append_assoc) refl)

token_step-quoted :
    (c : ℕ) (ws : List Bytes) (cur : Bytes) (b : Bool)
    → c ≢ quote_mark
    → (b' : Bool) × (token_step c (at_word ws cur b true) ≡ at_word ws (cur ++ c ∷ []) b' true)
unfolding token_step
token_step-quoted c ws cur b h = elim (Bool-cases (c == space)) [
  | inl e ↦ (false, ground arith)
  | inr e ↦ (true, ground arith)
]

-- Text inside of a quotation, up to the mark that closes it.
token_loop-quoted :
    (body : Bytes) (ws : List Bytes) (cur : Bytes) (b : Bool)
    → Lacks quote_mark body
    → token_loop (body ++ quote_mark ∷ []) (at_word ws cur b true)
      ≡ at_word ws (cur ++ (body ++ quote_mark ∷ [])) true false
unfolding token_loop
token_loop-quoted [] ws cur b h = unfold token_step in refl
token_loop-quoted (c ∷ body) ws cur b h =
    let (b', e) = token_step-quoted c ws cur b h.0 in
    ap (token_loop (body ++ quote_mark ∷ [])) e
    ∙ token_loop-quoted body ws (cur ++ c ∷ []) b' h.1
    ∙ ap (λ u. at_word ws u true false) (append_assoc cur (c ∷ []) (body ++ quote_mark ∷ []))

token_loop-word :
    {w : Bytes} (ws : List Bytes)
    → IsWord w
    → token_loop w (at_word ws [] false false) ≡ at_word ws w true false
token_loop-word ws (plain w ne h k) = token_loop-plain w ws [] false ne h k
token_loop-word ws (quoted body w h e) =
    rw e (unfold token_loop token_step in token_loop-quoted body ws (quote_mark ∷ []) true h)

token_loop-space :
    (r : Bytes) (ws : List Bytes) (cur : Bytes)
    → token_loop (space ∷ r) (at_word ws cur true false)
      ≡ token_loop r (at_word (ws ++ cur ∷ []) [] false false)
unfolding token_loop token_step
token_loop-space r ws cur = refl

token_end-join :
    (v : Bytes) (ws done : List Bytes)
    → All IsWord (v ∷ ws)
    → token_end (token_loop (join (v ∷ ws)) (at_word done [] false false)) ≡ some (done ++ v ∷ ws)
unfolding join
token_end-join v [] done (h, _) = rw (token_loop-word done h) (unfold token_end in refl)
token_end-join v (u ∷ ws) done (h, hs) =
    rw
      (
        token_loop-append v (space ∷ join (u ∷ ws)) (at_word done [] false false),
        token_loop-word done h,
        token_loop-space (join (u ∷ ws)) done v,
      )
      (token_end-join u ws (done ++ v ∷ []) hs ∙ ap some (append_assoc done (v ∷ []) (u ∷ ws)))

tokens-join : (ws : List Bytes) → All IsWord ws → tokens (join ws) ≡ some ws
unfolding tokens
tokens-join [] h = unfold join token_loop token_end in refl
tokens-join (v ∷ ws) h = token_end-join v ws [] h

abbrev pub NonEmpty : Bytes → Type 0
NonEmpty w = w ≢ []

count-All : (ws : List Bytes) → All NonEmpty ws → count_elements (ws ++ [] ∷ []) ≡ some (length ws)
unfolding count_elements
count-All [] h = refl
count-All ([] ∷ ws) h = absurd (h.0 refl)
count-All ((c ∷ w) ∷ ws) h = rw (count-All ws h.1)

pub IsWord-NonEmpty : {w : Bytes} → IsWord w → NonEmpty w
IsWord-NonEmpty (plain w ne h k) = ne
IsWord-NonEmpty (quoted body w h e) = rw e (λ f. cc)

IsWord-All : (ws : List Bytes) → All IsWord ws → All NonEmpty ws
IsWord-All [] h = tt
IsWord-All (w ∷ ws) (h, hs) = (IsWord-NonEmpty h, IsWord-All ws hs)

-- A line of words with one space between them, plain or in quotation marks, is cut into those words
-- and the empty string that ends the vector, and `count_elements` counts the words.
pub split-join :
    (ws : List Bytes)
    → All IsWord ws
    → (split_arguments (join ws) ≡ some (ws ++ [] ∷ []))
      × (count_elements (ws ++ [] ∷ []) ≡ some (length ws))
split-join ws h = (
  split_arguments-tokens (join ws) ∙ ap with_end (tokens-join ws h),
  count-All ws (IsWord-All ws h),
)

-- The words that are found so far, and the current one, are not empty.
record Filled (t : Tokenizer) : Type 0 where
  words : All NonEmpty t.words
  current : t.in_word ≡ true → t.current ≢ []

append-NonEmpty : (s : Bytes) (c : ℕ) → s ++ c ∷ [] ≢ []
append-NonEmpty [] c = λ e. cc
append-NonEmpty (d ∷ s) c = λ e. cc

step-Filled : (c : ℕ) (t : Tokenizer) → Filled t → Filled (token_step c t)
unfolding token_step
step-Filled c t f = record {
  words = elim (Bool-cases t.in_word) [
    | inl w ↦
        ground
          (arith, f.words, All-append NonEmpty t.words (t.current ∷ []) f.words (f.current w, tt))
    | inr w ↦ ground (arith, f.words)
  ];
  current = ground (arith, append-NonEmpty t.current c);
}

loop-Filled : (s : Bytes) (t : Tokenizer) → Filled t → Filled (token_loop s t)
unfolding token_loop
loop-Filled [] t f = f
loop-Filled (c ∷ s) t f = loop-Filled s (token_step c t) (step-Filled c t f)

end-NonEmpty :
    (t : Tokenizer) {ws : List Bytes} → Filled t → token_end t ≡ some ws → All NonEmpty ws
unfolding token_end
end-NonEmpty t f h = elim (Bool-cases t.in_word) [
  | inl w ↦
      ground
        (arith, f.words, All-append NonEmpty t.words (t.current ∷ []) f.words (f.current w, tt))
  | inr w ↦ ground (arith, f.words)
]

tokens-NonEmpty : (s : Bytes) {ws : List Bytes} → tokens s ≡ some ws → All NonEmpty ws
unfolding tokens
tokens-NonEmpty s h =
    end-NonEmpty (token_loop s token_start)
      (loop-Filled s token_start (record { words = tt; current = λ e. cc })) h

with_end-some :
    (o : Option (List Bytes)) {v : List Bytes}
    → with_end o ≡ some v
    → (ws : List Bytes) × (o ≡ some ws) × (v ≡ ws ++ [] ∷ [])
with_end-some none h = cc
with_end-some (some ws) h = (ws, refl, cc)

-- Whatever line is cut without an error, the result consists of non-empty words and one empty string
-- behind them, and `count_elements` stops at it: it finds the number of words.
pub count-split :
    (s : Bytes) (v : List Bytes)
    → split_arguments s ≡ some v
    → (ws : List Bytes) × (v ≡ ws ++ [] ∷ [])
      × All NonEmpty ws
      × (count_elements v ≡ some (length ws))
count-split s v h =
    let (ws, e, f) = with_end-some (tokens s) (sym (split_arguments-tokens s) ∙ h) in
    let filled : All NonEmpty ws = tokens-NonEmpty s e in
    (ws, f, filled, ap count_elements f ∙ count-All ws filled)

-- Whether a text has an odd number of quotation marks.
pub odd_quotes : Bytes → Bool
odd_quotes [] = false
odd_quotes (c ∷ s) = if c == quote_mark then not (odd_quotes s) else odd_quotes s

xor : Bool → Bool → Bool
xor true b = not b
xor false b = b

loop-quoted : (s : Bytes) (t : Tokenizer) → (token_loop s t).quoted ≡ xor t.quoted (odd_quotes s)
unfolding token_loop odd_quotes xor
loop-quoted [] t = ground arith
loop-quoted (c ∷ s) t = loop-quoted s (token_step c t) ∙ unfold token_step in ground arith

last-in_word :
    (s : Bytes) (c : ℕ) (t : Tokenizer) → (token_loop (s ++ c ∷ []) t).in_word ≡ not (c == space)
unfolding token_loop
last-in_word [] c t = unfold token_step in ground arith
last-in_word (d ∷ s) c t = last-in_word s c (token_step d t)

end-none :
    (t : Tokenizer) → (with_end (token_end t) ≡ none) ↔ ((t.in_word ≡ true) × (t.quoted ≡ true))
unfolding token_end
end-none t = (λ h. ground arith, λ h. ground arith)

-- A line that is not empty gives a null pointer exactly if its last character is no space and it has an odd number of
-- quotation marks. `cmd_parse` hands that pointer to `count_elements`, which reads through it.
pub split_null :
    (s : Bytes) (c : ℕ)
    → (split_arguments (s ++ c ∷ []) ≡ none) ↔ ((c ≢ space) × (odd_quotes (s ++ c ∷ []) ≡ true))
unfolding tokens xor
split_null s c =
    let line = s ++ c ∷ [] in
    let t = token_loop line token_start in
    let e : t.in_word ≡ not (c == space) = last-in_word s c token_start in
    let q : t.quoted ≡ odd_quotes line = loop-quoted line token_start in
    rw (split_arguments-tokens line)
      (λ h. ground (arith, (end-none t).0 h), λ h. (end-none t).1 (ground arith, ground arith))
