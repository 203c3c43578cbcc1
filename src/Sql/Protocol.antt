-- ===== src/Sql/Protocol.antt =====
-- The two sides of the pipes together: when the server gets the answer of its query, and when it gets
-- the answer of another one.
use mathlib.Core.Path.{subst}
use itba_os_tp1_ipc_2016_q.Base.{
  ℕ, zero, suc, ◌+◌, ◌≤◌, ◌<◌, ◌≡◌, refl, ◌≢◌, ◌∙◌, sym, ap, arith, inl, inr, Bool-cases, true,
  false, List, [], ◌∷◌, ◌++◌, some, Bytes, length, length-append, append_assoc, append-nil, All,
  Lacks, str_eq, str_eq→eq, map, codes, All-right,
}
use itba_os_tp1_ipc_2016_q.Sql.Query.{max_columns}
use itba_os_tp1_ipc_2016_q.Sql.Process.{
  Row, end_str, close_str, newline, semicolon, row_text, answer_bytes, read_query, Pipes,
  answer_query, serve, answered, read_lines, first_line, take_answer, run_sqlite_query,
}

-- A row whose text is one line of at most 2046 characters, and not the line that ends an answer.
abbrev pub IsClean : Row → Type 0
IsClean row =
    Lacks newline (row_text row) × (row_text row ≢ end_str) × (length (row_text row) ≤ 2046)

-- The rows of an answer that can be read: clean ones, and less than ten.
abbrev pub CanRead : List Row → Type 0
CanRead rows = All IsClean rows × (length rows < max_columns)

-- What the server is handed: the first row, or `END`.
abbrev pub answer_text : List Row → Bytes
answer_text [] = end_str
answer_text (row ∷ rows) = row_text row

read_query-exact :
    (body acc rest : Bytes) (left : ℕ)
    → Lacks semicolon body
    → length body ≤ left
    → read_query left (body ++ semicolon ∷ rest) acc ≡ some (acc ++ (body ++ semicolon ∷ []), rest)
unfolding read_query
read_query-exact [] acc rest zero h le = refl
read_query-exact [] acc rest (suc left) h le = refl
read_query-exact (c ∷ body) acc rest zero h le = absurd (omega arith)
read_query-exact (c ∷ body) acc rest (suc left) h le = ground (
  arith,
  read_query-exact body (acc ++ c ∷ []) rest left h.1,
  append_assoc acc (c ∷ []) (body ++ semicolon ∷ []),
)

read_query-long :
    (body acc rest : Bytes) (left : ℕ)
    → Lacks semicolon body
    → length body ≡ suc left
    → read_query left (body ++ rest) acc ≡ some (acc ++ body, rest)
unfolding read_query
read_query-long [] acc rest left h e = absurd (omega arith)
read_query-long (c ∷ []) acc rest zero h e = refl
read_query-long (c ∷ d ∷ body) acc rest zero h e = absurd (omega arith)
read_query-long (c ∷ body) acc rest (suc left) h e = ground (
  arith,
  read_query-long body (acc ++ c ∷ []) rest left h.1 (omega arith),
  append_assoc acc (c ∷ []) body,
)

module _ {Database : Type 0} (exec : Database → Bytes → List Row × Database) where
  read_lines-line :
      (s cur rest : Bytes) (lines : List Bytes)
      → Lacks newline s
      → cur ++ s ≢ end_str
      → length cur + length s ≤ 2046
      → length lines < max_columns
      → read_lines exec (s ++ newline ∷ rest) cur lines
        ≡ read_lines exec rest [] (lines ++ (cur ++ s) ∷ [])
  unfolding read_lines
  read_lines-line [] cur rest lines h ne fits lt =
      let e : cur ++ [] ≡ cur = append-nil cur in
      rw e (elim (Bool-cases (str_eq cur end_str)) [
        | inl t ↦ absurd (ne (e ∙ str_eq→eq cur end_str t))
        | inr f ↦ ground arith
      ])
  read_lines-line (c ∷ s) cur rest lines h ne fits lt =
      let n : length (cur ++ c ∷ []) ≡ length cur + 1 = length-append cur (c ∷ []) in
      let e : (cur ++ c ∷ []) ++ s ≡ cur ++ c ∷ s = append_assoc cur (c ∷ []) s in
      ground (
        arith,
        e,
        read_lines-line s (cur ++ c ∷ []) rest lines h.1 (λ f. ne (sym e ∙ f)) (omega arith) lt,
      )

  read_lines-rows :
      (rows : List Row) (rest : Bytes) (lines : List Bytes)
      → All IsClean rows
      → length lines + length rows < max_columns
      → read_lines exec (answer_bytes rows ++ rest) [] lines
        ≡ answered (lines ++ (map row_text rows ++ end_str ∷ [])) rest
  unfolding answer_bytes
  read_lines-rows [] rest lines h lt = unfold read_lines in ground arith
  read_lines-rows (row ∷ rows) rest lines (h, hs) lt =
      ap (λ t. read_lines exec t [] lines)
        (append_assoc (row_text row) (newline ∷ answer_bytes rows) rest)
      ∙ read_lines-line (row_text row) [] (answer_bytes rows ++ rest) lines h.0 h.1
          (omega (arith, h.2)) (omega arith)
      ∙ read_lines-rows rows rest (lines ++ row_text row ∷ []) hs
          (omega (arith, length-append lines (row_text row ∷ [])))
      ∙ ap (λ t. answered t rest)
          (append_assoc lines (row_text row ∷ []) (map row_text rows ++ end_str ∷ []))

  -- Nothing is on the pipe of queries, and the answer to some query, or nothing, on the other.
  abbrev pub at_rest : Database → Bytes → Pipes Database
  at_rest database answers = record {
    database = database;
    queries = [];
    answers = answers;
    running = true;
  }

  serve-at_rest :
      (n : ℕ) (db : Database) (answers : Bytes)
      → serve exec n (at_rest db answers) ≡ at_rest db answers
  unfolding serve
  serve-at_rest zero db answers = refl
  serve-at_rest (suc n) db answers = unfold read_query in refl

  -- The rows of the query and the database after it.
  abbrev pub rows_of : Database → Bytes → List Row
  rows_of db query = (exec db query).0

  abbrev pub after : Database → Bytes → Database
  after db query = (exec db query).1

  abbrev sending : Database → Bytes → Bytes → Pipes Database
  sending db queries answers = record {
    database = db;
    queries = queries;
    answers = answers;
    running = true;
  }

  serve-step :
      (n : ℕ) (text left queries answers : Bytes) (db : Database)
      → read_query 100 queries [] ≡ some (text, left)
      → str_eq text close_str ≡ false
      → serve exec (suc n) (sending db queries answers)
        ≡ serve exec n (sending (after db text) left (answers ++ answer_bytes (rows_of db text)))
  unfolding serve
  serve-step n text left queries answers db e f =
      rw (e, serve) (ap (serve exec n) (unfold answer_query in rw f))

  -- A text of some length is answered in as many rounds.
  serve-query :
      (body answers : Bytes) (db : Database)
      → Lacks semicolon body
      → length body ≤ 100
      → str_eq (body ++ semicolon ∷ []) close_str ≡ false
      → (n : ℕ) → 0 < n
      → serve exec n (sending db (body ++ semicolon ∷ []) answers)
        ≡ at_rest
            (after db (body ++ semicolon ∷ []))
            (answers ++ answer_bytes (rows_of db (body ++ semicolon ∷ [])))
  serve-query body answers db h le f zero lt = absurd (omega arith)
  serve-query body answers db h le f (suc n) lt =
      serve-step n (body ++ semicolon ∷ []) [] _ answers db (read_query-exact body [] [] 100 h le) f
      ∙ serve-at_rest n _ _

  read_lines-answer :
      (rows : List Row) (rest : Bytes)
      → CanRead rows
      → read_lines exec (answer_bytes rows ++ rest) [] []
        ≡ answered (map row_text rows ++ end_str ∷ []) rest
  read_lines-answer rows rest (h, lt) = read_lines-rows rows rest [] h (omega arith)

  first_line-rows :
      (rows : List Row)
      → first_line exec (map row_text rows ++ end_str ∷ []) ≡ some (answer_text rows)
  first_line-rows [] = refl
  first_line-rows (row ∷ rows) = refl

  take-rows :
      (p : Pipes Database) (rows : List Row) (rest : Bytes)
      → CanRead rows
      → take_answer exec p (read_lines exec (answer_bytes rows ++ rest) [] [])
        ≡ (some (answer_text rows), record p { answers = rest })
  take-rows p rows rest c =
      ap (take_answer exec p) (read_lines-answer rows rest c)
      ∙ unfold take_answer in ap (λ t. (t, record p { answers = rest })) (first_line-rows rows)

  -- A query that the process takes as one: its only semicolon is the last character, it has at most
  -- 101 characters, and it is not the text that closes the connection.
  pub record IsQuery (query : Bytes) : Type 0 where
    pub body : Bytes
    pub shape : query ≡ body ++ semicolon ∷ []
    pub one_semicolon : Lacks semicolon body
    pub short : length body ≤ 100
    pub no_close : str_eq query close_str ≡ false

  serve-IsQuery :
      (db : Database) (query answers : Bytes) (n : ℕ)
      → IsQuery query
      → 0 < n
      → serve exec n (sending db query answers)
        ≡ at_rest (after db query) (answers ++ answer_bytes (rows_of db query))
  serve-IsQuery db query answers n q pos =
      rw q.shape
        (serve-query q.body answers db q.one_semicolon q.short (rw (← q.shape) q.no_close) n pos)

  length-IsQuery : (query : Bytes) → IsQuery query → 0 < length query
  length-IsQuery query q =
      let n : length query ≡ length (q.body ++ semicolon ∷ []) = ap length q.shape in
      omega (arith, length-append q.body (semicolon ∷ []))

  -- A query is answered by the first rows on the pipe.
  run-first :
      (db : Database) (query answers : Bytes) (rows : List Row) (rest : Bytes)
      → IsQuery query
      → CanRead rows
      → answers ++ answer_bytes (rows_of db query) ≡ answer_bytes rows ++ rest
      → run_sqlite_query exec query (at_rest db answers)
        ≡ (some (answer_text rows), at_rest (after db query) rest)
  unfolding run_sqlite_query
  run-first db query answers rows rest q c e =
      ap (λ p. take_answer exec p (read_lines exec p.answers [] []))
        (serve-IsQuery db query answers (length query) q (length-IsQuery query q))
      ∙ ap (λ t. take_answer exec (at_rest (after db query) t) (read_lines exec t [] [])) e
      ∙ take-rows (at_rest (after db query) (answer_bytes rows ++ rest)) rows rest c

  -- With both pipes empty, a query that the process takes as one (at most 101 characters, of which the
  -- only semicolon is the last, and not the text that closes the connection), and that the database
  -- answers with less than ten rows, each in one line of at most 2046 characters other than `END`, is
  -- run on the database, the server gets its first row, or `END` if there is none, and both pipes are
  -- empty again.
  pub run-query :
      (db : Database) (query : Bytes)
      → IsQuery query
      → CanRead (rows_of db query)
      → run_sqlite_query exec query (at_rest db [])
        ≡ (some (answer_text (rows_of db query)), at_rest (after db query) [])
  run-query db query q c =
      run-first db query [] (rows_of db query) [] q c
        (sym (append-nil (answer_bytes (rows_of db query))))

  -- With the answer to an earlier query left on the pipe, a query is run, but the server gets the first
  -- row of the earlier answer, and the new answer is left on the pipe for the next query.
  pub run-behind :
      (db : Database) (query : Bytes) (stale : List Row)
      → IsQuery query
      → CanRead stale
      → run_sqlite_query exec query (at_rest db (answer_bytes stale))
        ≡ (some (answer_text stale), at_rest (after db query) (answer_bytes (rows_of db query)))
  run-behind db query stale q c =
      run-first db query (answer_bytes stale) stale (answer_bytes (rows_of db query)) q c refl

  close_has_semicolon : (s : Bytes) → Lacks semicolon s → str_eq s close_str ≡ false
  close_has_semicolon s h = elim (Bool-cases (str_eq s close_str)) [
    | inl t ↦
        let l : Lacks semicolon close_str = subst (Lacks semicolon) (str_eq→eq s close_str t) h in
        let r : Lacks semicolon (semicolon ∷ []) =
          All-right (λ c. c ≢ semicolon) (codes "CLOSE CONNECTION") (semicolon ∷ []) l in
        absurd (r.0 refl)
    | inr f ↦ f
  ]

  -- A query of more than 101 characters, and at most 202, is cut: the process runs its first 101
  -- characters as one query and the rest as another. The server gets the answer to the first part, and
  -- the answer to the second part is left on the pipe, for the next query.
  pub run-long :
      (db : Database) (head tail : Bytes)
      → Lacks semicolon head
      → length head ≡ 101
      → IsQuery tail
      → CanRead (rows_of db head)
      → run_sqlite_query exec (head ++ tail) (at_rest db []) ≡ (
        some (answer_text (rows_of db head)),
        at_rest (after (after db head) tail) (answer_bytes (rows_of (after db head) tail)),
      )
  unfolding run_sqlite_query
  run-long db head tail h n q c =
      let m = 100 + length tail in
      let e : length (head ++ tail) ≡ suc m = omega (arith, length-append head tail) in
      let first : serve exec (suc m) (sending db (head ++ tail) [])
          ≡ serve exec m (sending (after db head) tail (answer_bytes (rows_of db head))) =
        serve-step m head tail (head ++ tail) [] db (read_query-long head [] tail 100 h n)
          (close_has_semicolon head h) in
      let second : serve exec (length (head ++ tail)) (sending db (head ++ tail) [])
          ≡ at_rest (after (after db head) tail)
              (answer_bytes (rows_of db head) ++ answer_bytes (rows_of (after db head) tail)) =
        ap (λ k. serve exec k (sending db (head ++ tail) [])) e
        ∙ first
        ∙ serve-IsQuery (after db head) tail (answer_bytes (rows_of db head)) m q
            (omega (arith, length-IsQuery tail q)) in
      ap (λ p. take_answer exec p (read_lines exec p.answers [] [])) second
      ∙ take-rows _ (rows_of db head) (answer_bytes (rows_of (after db head) tail)) c
