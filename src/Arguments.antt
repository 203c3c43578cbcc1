-- ===== src/Arguments.antt =====
-- utils.c: `split_arguments`, which cuts a command line or a row of the database into words, with
-- `add` and `count_elements`.
pub mod Refines
pub mod Words
mod Examples
use itba_os_tp1_ipc_2016_q.Base.{
  ℕ, zero, suc, ◌+◌, ◌-◌, ◌&&◌, not, Bool, true, false, List, [], ◌∷◌, ◌++◌, Option, none, some,
  Bytes, ◌==◌, if◌then◌else◌, length, take, drop,
}

abbrev pub space : ℕ
space = b' '

abbrev pub quote_mark : ℕ
quote_mark = b'"'

-- A vector of `cant` strings: the first `cant - 1` of `str_vector`, then `str`.
unfoldable pub add : Bytes → List Bytes → ℕ → List Bytes
add str str_vector cant = take (cant - 1) str_vector ++ str ∷ []

-- The entries before the first empty string; `none` is a read behind the vector.
unfoldable pub count_elements : List Bytes → Option ℕ
count_elements [] = none
count_elements ([] ∷ vector) = some 0
count_elements ((c ∷ s) ∷ vector) = elim (count_elements vector) [
  | none ↦ none
  | some n ↦ some (suc n)
]

-- The local variables of `split_arguments`.
pub record Scan : Type 0 where
  pub index : ℕ
  pub last_begin : ℕ
  pub count : ℕ
  pub last_was_char : Bool
  pub quotation_open : Bool
  pub result : List Bytes

abbrev pub scan_start : Scan
scan_start = record {
  index = 0;
  last_begin = 0;
  count = 0;
  last_was_char = false;
  quotation_open = false;
  result = [];
}

-- The characters of `sentence` from `last_begin` to before `index`, and the vector with them.
unfoldable pub close_word : Bytes → Scan → Scan
unfolding add
close_word sentence st = record st {
  count = st.count + 1;
  result =
      add (take (st.index - st.last_begin) (drop st.last_begin sentence)) st.result (st.count + 1);
}

-- One round of the loop, at the character `c`.
unfoldable pub scan_step : Bytes → ℕ → Scan → Scan
unfolding close_word
scan_step sentence c st =
    if c == space
    then (let closed =
          if st.last_was_char && not st.quotation_open then close_word sentence st else st in
        record closed { last_was_char = false; index = st.index + 1 })
    else record st {
      last_begin =
          if not st.quotation_open && not st.last_was_char then st.index else st.last_begin;
      last_was_char = true;
      quotation_open = if c == quote_mark then not st.quotation_open else st.quotation_open;
      index = st.index + 1;
    }

-- The loop over the characters from the current index on.
unfoldable pub scan_loop : Bytes → Bytes → Scan → Scan
scan_loop sentence [] st = st
scan_loop sentence (c ∷ rest) st = scan_loop sentence rest (scan_step sentence c st)

-- What follows the loop; `none` is the null pointer that an open quotation gives.
unfoldable pub scan_end : Bytes → Scan → Option (List Bytes)
unfolding close_word add
scan_end sentence st =
    if st.last_was_char
    then (if st.quotation_open
        then none
        else (let closed = close_word sentence st in
            some (add [] closed.result (closed.count + 1))))
    else some (add [] st.result (st.count + 1))

unfoldable pub split_arguments : Bytes → Option (List Bytes)
unfolding scan_loop scan_step scan_end
split_arguments sentence = scan_end sentence (scan_loop sentence sentence scan_start)
