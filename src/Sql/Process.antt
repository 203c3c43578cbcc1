-- ===== src/Sql/Process.antt =====
-- lib/sqlite/sqlite.c: the SQLite process, the pipes to and from it, and the client's side of them.
-- `exec` is `sqlite3_exec`: for a database and a query, the rows that it hands to `callback` (a
-- column is `none` for a null) and the database after it.
use itba_os_tp1_ipc_2016_q.Base.{
  ◌+◌, ℕ, zero, suc, Bool, false, List, [], ◌∷◌, ◌++◌, Option, none, some, Bytes, codes, ◌==◌, leb,
  if◌then◌else◌, length, str_eq,
}
use itba_os_tp1_ipc_2016_q.Sql.Query.{max_columns}

abbrev pub Row : Type 0
Row = List (Option Bytes)

abbrev pub end_str : Bytes
end_str = codes "END"

abbrev pub close_str : Bytes
close_str = codes "CLOSE CONNECTION;"

abbrev pub max_query_response_length : ℕ
max_query_response_length = 2048

abbrev pub newline : ℕ
newline = b'\n'

abbrev pub semicolon : ℕ
semicolon = b';'

-- `argv[i] ? argv[i] : NULL_STR`.
abbrev pub column_text : Option Bytes → Bytes
column_text none = codes "NULL"
column_text (some s) = s

-- The loop of `callback`: no space is put before a column while the text is still empty. (A text of
-- more than 2046 characters is written behind the block of `callback`, and behind that of the reader.)
unfoldable pub row_loop : Row → Bytes → Bytes
row_loop [] str = str
row_loop (c ∷ columns) str =
    row_loop columns
      (if length str == 0 then column_text c else str ++ (codes " " ++ column_text c))

unfoldable pub row_text : Row → Bytes
unfolding row_loop
row_text row = row_loop row []

-- What `callback` and the end of a query put on the pipe to the client.
unfoldable pub answer_bytes : List Row → Bytes
answer_bytes [] = end_str ++ newline ∷ []
answer_bytes (row ∷ rows) = row_text row ++ (newline ∷ answer_bytes rows)

-- The reads up to a semicolon, but at most `left` more after this one; the text and what is left on
-- the pipe, or `none` while the pipe holds too little.
unfoldable pub read_query : ℕ → Bytes → Bytes → Option (Bytes × Bytes)
read_query left [] text = none
read_query zero (c ∷ stream) text = some (text ++ c ∷ [], stream)
read_query (suc left) (c ∷ stream) text =
    let more = read_query left stream (text ++ c ∷ []) in
    if c == semicolon then some (text ++ c ∷ [], stream) else more

-- What the two processes share: the database, the pipe of queries, the pipe of answers, and whether
-- the SQLite process still runs.
pub record Pipes (Database : Type 0) : Type 0 where
  pub database : Database
  pub queries : Bytes
  pub answers : Bytes
  pub running : Bool

module _ {Database : Type 0} (exec : Database → Bytes → List Row × Database) where
  -- One query of the process, which it ends for the text that closes the connection.
  unfoldable pub answer_query : Bytes → Bytes → Pipes Database → Pipes Database
  answer_query text left pipes =
      if str_eq text close_str
      then record pipes { queries = left; running = false }
      else (let (rows, database) = exec pipes.database text in
          record pipes {
            database = database;
            queries = left;
            answers = pipes.answers ++ answer_bytes rows;
          })

  -- The loop of `init_sqlite_server` over what is on the pipe. Every round takes a byte or more, so
  -- that as many rounds as bytes are enough.
  unfoldable pub serve : ℕ → Pipes Database → Pipes Database
  unfolding read_query answer_query
  serve zero pipes = pipes
  serve (suc rounds) pipes =
      if pipes.running
      then elim (read_query 100 pipes.queries []) [
        | none ↦ pipes
        | some (text, left) ↦ serve rounds (answer_query text left pipes)
      ]
      else pipes

  -- The lines of an answer, up to the line `END`.
  pub data Answer : Type 0 where
    answered : List Bytes → Bytes → Answer
    waiting : Answer
    overflow : Answer

  -- A line is read to a block of `MAX_QUERY_RESPONSE_LENGTH` bytes, with the newline and the terminator,
  -- and is then stored in an array of `MAX_COLUMNS` pointers.
  unfoldable pub read_lines : Bytes → Bytes → List Bytes → Answer
  read_lines [] line lines = waiting
  read_lines (c ∷ stream) line lines =
      let more = read_lines stream (line ++ c ∷ []) lines in
      let next = read_lines stream [] (lines ++ line ∷ []) in
      if leb max_query_response_length (length line + 1)
      then overflow
      else if c == newline
      then (if leb max_columns (length lines)
          then overflow
          else if str_eq line end_str
          then answered (lines ++ line ∷ []) stream
          else next)
      else more

  -- The first line, which is what the client hands on.
  abbrev pub first_line : List Bytes → Option Bytes
  first_line [] = none
  first_line (line ∷ lines) = some line

  unfoldable pub take_answer : Pipes Database → Answer → Option Bytes × Pipes Database
  take_answer pipes (answered lines left) = (first_line lines, record pipes { answers = left })
  take_answer pipes waiting = (none, pipes)
  take_answer pipes overflow = (none, pipes)

  -- `run_sqlite_query`: the query goes to the pipe, the process works off all that is there, and the
  -- first answer on the other pipe is read. (The process may still be at work on what follows the
  -- first answer, but the pipes keep its order.) `none` is a client that waits for ever or writes
  -- behind its array.
  unfoldable pub run_sqlite_query : Bytes → Pipes Database → Option Bytes × Pipes Database
  unfolding serve read_lines take_answer
  run_sqlite_query query pipes =
      let sent = record pipes { queries = pipes.queries ++ query } in
      let served = serve (length sent.queries) sent in
      take_answer served (read_lines served.answers [] [])
