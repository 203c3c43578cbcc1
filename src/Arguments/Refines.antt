-- ===== src/Arguments/Refines.antt =====
-- A tokenizer without indices, and the index arithmetic of `split_arguments`.
use itba_os_tp1_ipc_2016_q.Base.{
  ℕ, ◌+◌, ◌-◌, ◌≤◌, ◌≡◌, refl, ◌∙◌, sym, ap, arith, Bool, true, false, not, ◌||◌, List, [], ◌∷◌,
  ◌++◌, Option, none, some, Bytes, ◌==◌, if◌then◌else◌, length, take, drop, length-append,
  length-drop, append_assoc, append-nil, drop-append_le, take-append,
}
use itba_os_tp1_ipc_2016_q.Arguments.{
  space, quote_mark, add, Scan, scan_start, close_word, scan_step, scan_loop, scan_end,
  split_arguments,
}

-- A tokenizer over the characters: the words so far, the current word, whether the last character
-- was no space, and whether a quotation is open.
pub record Tokenizer : Type 0 where
  pub words : List Bytes
  pub current : Bytes
  pub in_word : Bool
  pub quoted : Bool

abbrev pub token_start : Tokenizer
token_start = record { words = []; current = []; in_word = false; quoted = false }

-- A space outside of a quotation ends the word before it; one inside belongs to the word.
unfoldable pub token_step : ℕ → Tokenizer → Tokenizer
token_step c t =
    if c == space
    then (if t.quoted
        then record t { current = t.current ++ c ∷ []; in_word = false }
        else record t {
          words = if t.in_word then t.words ++ t.current ∷ [] else t.words;
          current = [];
          in_word = false;
        })
    else record t {
      current = t.current ++ c ∷ [];
      in_word = true;
      quoted = if c == quote_mark then not t.quoted else t.quoted;
    }

unfoldable pub token_loop : Bytes → Tokenizer → Tokenizer
token_loop [] t = t
token_loop (c ∷ rest) t = token_loop rest (token_step c t)

-- Only an end behind a character of an open quotation is an error.
unfoldable pub token_end : Tokenizer → Option (List Bytes)
token_end t =
    if t.in_word
    then (if t.quoted then none else some (t.words ++ t.current ∷ []))
    else some t.words

unfoldable pub tokens : Bytes → Option (List Bytes)
unfolding token_loop token_step token_end
tokens sentence = token_end (token_loop sentence token_start)

-- What the variables of the loop mean after the characters `pre`.
record Agrees (pre : Bytes) (st : Scan) (t : Tokenizer) : Type 0 where
  at : st.index ≡ length pre
  begun : st.last_begin ≤ length pre
  counted : st.count ≡ length t.words
  found : st.result ≡ t.words
  same_word : st.last_was_char ≡ t.in_word
  same_quote : st.quotation_open ≡ t.quoted
  current : (t.in_word || t.quoted) ≡ true → drop st.last_begin pre ≡ t.current
  outside : (t.in_word || t.quoted) ≡ false → t.current ≡ []

-- The copied range is the part of the read characters from `b` on.
range :
    (b : ℕ) (pre rest : Bytes)
    → b ≤ length pre
    → take (length pre - b) (drop b (pre ++ rest)) ≡ drop b pre
range b pre rest h =
    rw (drop-append_le b pre rest h, ← length-drop b pre) (take-append (drop b pre) rest)

drop_all : (pre : Bytes) → drop (length pre) pre ≡ []
drop_all [] = refl
drop_all (c ∷ pre) = drop_all pre

add-append :
    (str : Bytes) (vector : List Bytes) → add str vector (length vector + 1) ≡ vector ++ str ∷ []
unfolding add
add-append str vector =
    let e : length vector + 1 - 1 ≡ length vector = omega arith in
    rw e (ap (λ t. t ++ str ∷ []) (take_whole vector))
  where
    take_whole : (v : List Bytes) → take (length v) v ≡ v
    take_whole [] = refl
    take_whole (x ∷ v) = ap (λ t. x ∷ t) (take_whole v)

-- A word is closed with the characters of the current word.
close_word-Agrees :
    (pre rest : Bytes) (st : Scan) (t : Tokenizer)
    → Agrees pre st t
    → t.in_word ≡ true
    → close_word (pre ++ rest) st
      ≡ record st { count = st.count + 1; result = t.words ++ t.current ∷ [] }
unfolding close_word
close_word-Agrees pre rest st t a w = ground (
  arith,
  range st.last_begin pre rest a.begun,
  a.current (ground arith),
  add-append t.current t.words,
)

scan_step-Agrees :
    (pre rest : Bytes) (c : ℕ) (st : Scan) (t : Tokenizer)
    → Agrees pre st t
    → Agrees (pre ++ c ∷ []) (scan_step (pre ++ rest) c st) (token_step c t)
unfolding scan_step token_step
scan_step-Agrees pre rest c st t a = record {
  at = ground (arith, length-append pre (c ∷ []), close_word-Agrees pre rest st t a);
  begun = ground (arith, length-append pre (c ∷ []), close_word-Agrees pre rest st t a);
  counted =
      ground (arith, length-append t.words (t.current ∷ []), close_word-Agrees pre rest st t a);
  found = ground (arith, close_word-Agrees pre rest st t a);
  same_word = ground (arith, close_word-Agrees pre rest st t a);
  same_quote = ground (arith, close_word-Agrees pre rest st t a);
  current = ground (
    arith,
    a.current,
    drop-append_le st.last_begin pre (c ∷ []) a.begun,
    drop-append_le st.index pre (c ∷ []),
    drop_all pre,
    close_word-Agrees pre rest st t a,
  );
  outside = ground arith;
}

scan_loop-Agrees :
    (sentence rest pre : Bytes) (st : Scan) (t : Tokenizer)
    → sentence ≡ pre ++ rest
    → Agrees pre st t
    → Agrees sentence (scan_loop sentence rest st) (token_loop rest t)
unfolding scan_loop token_loop
scan_loop-Agrees sentence [] pre st t e a = let e' : sentence ≡ pre = e ∙ append-nil pre in rw e' a
scan_loop-Agrees sentence (c ∷ rest) pre st t e a =
    scan_loop-Agrees sentence rest (pre ++ c ∷ []) (scan_step sentence c st) (token_step c t)
      (e ∙ sym (append_assoc pre (c ∷ []) rest)) (rw e (scan_step-Agrees pre (c ∷ rest) c st t a))

start-Agrees : Agrees [] scan_start token_start
start-Agrees = ground arith

-- What `scan_end` makes of the words found.
abbrev pub with_end : Option (List Bytes) → Option (List Bytes)
with_end none = none
with_end (some words) = some (words ++ [] ∷ [])

scan_end-token_end :
    (sentence : Bytes) (st : Scan) (t : Tokenizer)
    → Agrees sentence st t
    → scan_end sentence st ≡ with_end (token_end t)
unfolding scan_end token_end
scan_end-token_end sentence st t a = ground (
  arith,
  close_word-Agrees sentence [] st t a,
  append-nil sentence,
  add-append [] t.words,
  add-append [] (t.words ++ t.current ∷ []),
  length-append t.words (t.current ∷ []),
)

-- `split_arguments` gives the words that the tokenizer finds, and an empty string behind them; it
-- gives a null pointer exactly where the tokenizer fails.
pub split_arguments-tokens :
    (sentence : Bytes) → split_arguments sentence ≡ with_end (tokens sentence)
unfolding split_arguments tokens
split_arguments-tokens sentence =
    scan_end-token_end sentence (scan_loop sentence sentence scan_start)
      (token_loop sentence token_start)
      (scan_loop-Agrees sentence sentence [] scan_start token_start refl start-Agrees)
