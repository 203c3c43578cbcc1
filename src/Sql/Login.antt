-- ===== src/Sql/Login.antt =====
-- user_identification_in_db of server/sql_helpers.c with both processes: when it finds a user, and what
-- happens to a login that is too long.
use mathlib.Core.Path.{subst}
use itba_os_tp1_ipc_2016_q.Base.{
  true, ◌^◌, ltb, if◌then◌else◌, ℕ, ◌+◌, ◌%◌, ◌≤◌, ◌<◌, ◌≡◌, refl, ◌≢◌, ◌∙◌, sym, ap, arith, inl,
  inr, Bool-cases, List, [], ◌∷◌, ◌++◌, none, some, Bytes, codes, length, append_assoc, take, drop,
  length-take, length-drop, take-drop, take-append_le, drop-append_le, All, All-append, All-drop,
  All-left, All-right, Lacks, str_eq, str_eq→eq, ◌>>=◌,
}
use itba_os_tp1_ipc_2016_q.Base.Decimal.{
  IsDigit, decimal, atoi-text, decimal_non_empty, decimal-IsDigit,
}
use itba_os_tp1_ipc_2016_q.Arguments.{quote_mark, space}
use itba_os_tp1_ipc_2016_q.Arguments.Words.{IsWord, plain, IsWord-NonEmpty, join, split-join}
use itba_os_tp1_ipc_2016_q.Sql.Process.{
  Row, end_str, newline, semicolon, Pipes, run_sqlite_query, answer_bytes, row_text, row_loop,
}
use itba_os_tp1_ipc_2016_q.Sql.Helpers.{
  FsUser, atoi_int, row_or_end, user_of_row, with_state, run_text, identify,
  user_identification_in_db,
}
use itba_os_tp1_ipc_2016_q.Sql.Protocol.{
  IsQuery, IsClean, answer_text, at_rest, rows_of, after, run-query, run-long,
}
use itba_os_tp1_ipc_2016_q.Sql.Texts.{
  login_text, login_query-text, login_start, login_start-Lacks, login_text-start,
  length-login_start, ends-IsQuery,
}

-- The row of a user.
abbrev pub user_row : Bytes → Bytes → Bytes → Row
user_row home id admin = some home ∷ some id ∷ some admin ∷ []

user_row-text :
    (home id admin : Bytes)
    → home ≢ []
    → row_text (user_row home id admin) ≡ join (home ∷ id ∷ admin ∷ [])
unfolding row_text row_loop join
user_row-text [] id admin h = absurd (h refl)
user_row-text (c ∷ home) id admin h = ground (arith, append_assoc home (space ∷ id) (space ∷ admin))

atoi_int-text : (n : ℕ) → n < 2 ^ 31 → atoi_int (decimal n) ≡ some n
unfolding atoi_int
atoi_int-text n h =
    let e : ltb n (2 ^ 31) ≡ true = ground (arith, h) in
    ap (λ k. if ltb k (2 ^ 31) then some k else none) (atoi-text n) ∙ rw e refl

user_row-user :
    (u home id admin : Bytes) (i a : ℕ)
    → IsWord home
    → IsWord id
    → IsWord admin
    → atoi_int id ≡ some i
    → atoi_int admin ≡ some a
    → user_of_row u (join (home ∷ id ∷ admin ∷ []))
      ≡ some (record { name = u; home = home; id = i; is_admin = a % 256 })
unfolding user_of_row
user_row-user u home id admin i a v w x e f =
    rw ((split-join (home ∷ id ∷ admin ∷ []) (v, (w, (x, tt)))).0) (rw (e, f) refl)

row-IsNoEnd : (home id admin : Bytes) → join (home ∷ id ∷ admin ∷ []) ≢ end_str
unfolding join
row-IsNoEnd home id admin e =
    let h : Lacks space (home ++ space ∷ (id ++ space ∷ admin)) =
      subst (Lacks space) (sym e) (ground arith) in
    let r : Lacks space (space ∷ (id ++ space ∷ admin)) = All-right (λ c. c ≢ space) home _ h in
    r.0 refl

digits-Lacks : (x : ℕ) (s : Bytes) → All IsDigit s → x < 48 → Lacks x s
digits-Lacks x [] h lt = tt
digits-Lacks x (c ∷ s) (h, hs) lt = ((λ e. absurd (omega (arith, h.0, e))), digits-Lacks x s hs lt)

decimal-IsWord : (n : ℕ) → IsWord (decimal n)
decimal-IsWord n =
    plain (decimal n) (decimal_non_empty n)
      (digits-Lacks space (decimal n) (decimal-IsDigit n) (omega arith))
      (digits-Lacks quote_mark (decimal n) (decimal-IsDigit n) (omega arith))

identify-row :
    (u row : Bytes) (user : FsUser)
    → row ≢ end_str
    → user_of_row u row ≡ some user
    → identify u row ≡ some (some user)
unfolding identify row_or_end
identify-row u row user ne e = elim (Bool-cases (str_eq row end_str)) [
  | inl t ↦ absurd (ne (str_eq→eq row end_str t))
  | inr f ↦ ground (arith, f, e)
]

module _ {Database : Type 0} (exec : Database → Bytes → List Row × Database) where
  identification-run :
      (u p answer : Bytes) (pipes left : Pipes Database)
      → length u + length p < 800
      → run_sqlite_query exec (login_text u p) pipes ≡ (some answer, left)
      → user_identification_in_db exec u p pipes ≡ (identify u answer >>= λ a. some (a, left))
  unfolding user_identification_in_db run_text with_state
  identification-run u p answer pipes left lt e =
      ap (λ q. run_text exec q (identify u) pipes) (login_query-text u p lt)
      ∙ ap (with_state exec (identify u)) e

row-Lacks :
    (home : Bytes) (id admin : ℕ)
    → Lacks newline home
    → Lacks newline (join (home ∷ decimal id ∷ decimal admin ∷ []))
unfolding join
row-Lacks home id admin h =
    let P : ℕ → Type 0 = λ c. c ≢ newline in
    All-append P home _ h (
      (λ e. absurd (omega (arith, e))),
      All-append P (decimal id) _
          (digits-Lacks newline (decimal id) (decimal-IsDigit id) (omega arith))
          (
            (λ e. absurd (omega (arith, e))),
            digits-Lacks newline (decimal admin) (decimal-IsDigit admin) (omega arith),
          ),
    )

login_text-IsQuery :
    {Database : Type 0} (exec : Database → Bytes → List Row × Database) (u p : Bytes)
    → Lacks semicolon u
    → Lacks semicolon p
    → length u + length p ≤ 15
    → IsQuery exec (login_text u p)
login_text-IsQuery exec u p hu hp le = rw (login_text-start u p) (
    ends-IsQuery exec (login_start u p) (login_start-Lacks u p hu hp)
      (omega (arith, length-login_start u p)))

-- A name and a password of at most 15 characters together, without a semicolon, that one row of the
-- database answers, in a line of at
-- most 2046 characters, with a home that is one word and numbers below 2^31, are the user of that row: its home, its number, and
-- its right, as a byte. Both pipes are empty again.
pub login_user :
    {Database : Type 0} (exec : Database → Bytes → List Row × Database) (db : Database)
    (u p home : Bytes) (id admin : ℕ)
    → Lacks semicolon u
    → Lacks semicolon p
    → length u + length p ≤ 15
    → id < 2 ^ 31
    → admin < 2 ^ 31
    → IsWord home
    → Lacks newline home
    → length (row_text (user_row home (decimal id) (decimal admin))) ≤ 2046
    → rows_of exec db (login_text u p) ≡ user_row home (decimal id) (decimal admin) ∷ []
    → user_identification_in_db exec u p (at_rest exec db [])
      ≡ some (
        some (record { name = u; home = home; id = id; is_admin = admin % 256 }),
        at_rest exec (after exec db (login_text u p)) [],
      )
unfolding user_identification_in_db
login_user exec db u p home id admin hu hp le hi ha w nl fits e =
    let row = user_row home (decimal id) (decimal admin) in
    let text : row_text row ≡ join (home ∷ decimal id ∷ decimal admin ∷ []) =
      user_row-text home (decimal id) (decimal admin) (IsWord-NonEmpty w) in
    let c : IsClean row = (
      rw text (row-Lacks home id admin nl),
      rw text (row-IsNoEnd home (decimal id) (decimal admin)),
      fits,
    ) in
    let row_of : user_of_row u (row_text row)
        ≡ some (record { name = u; home = home; id = id; is_admin = admin % 256 }) =
      ap (user_of_row u) text
      ∙ user_row-user u home (decimal id) (decimal admin) id admin w (decimal-IsWord id)
          (decimal-IsWord admin) (atoi_int-text id hi) (atoi_int-text admin ha) in
    let run : run_sqlite_query exec (login_text u p) (at_rest exec db [])
        ≡ (some (row_text row), at_rest exec (after exec db (login_text u p)) []) =
      run-query exec db (login_text u p) (login_text-IsQuery exec u p hu hp le)
        (rw e ((c, tt), omega arith))
      ∙ ap (λ r. (some (answer_text r), at_rest exec (after exec db (login_text u p)) [])) e in
    identification-run exec u p (row_text row) _ _ (omega arith) run
    ∙ rw (identify-row u (row_text row) _ c.1 row_of) refl

-- A name and a password of 17 to 116 characters together, without a semicolon, are refused if the
-- database has no row for the first 101 characters of their query: whatever it has for the whole. The
-- answer to the rest of the query is left on the pipe, for the next query.
pub login_cut :
    {Database : Type 0} (exec : Database → Bytes → List Row × Database) (db : Database)
    (u p : Bytes)
    → Lacks semicolon u
    → Lacks semicolon p
    → 17 ≤ length u + length p
    → length u + length p ≤ 116
    → rows_of exec db (take 101 (login_text u p)) ≡ []
    → let db₁ = after exec db (take 101 (login_text u p)) in
      let rest = drop 101 (login_text u p) in
      user_identification_in_db exec u p (at_rest exec db [])
      ≡ some (none, at_rest exec (after exec db₁ rest) (answer_bytes (rows_of exec db₁ rest)))
unfolding user_identification_in_db
login_cut exec db u p hu hp ge le e =
    let w = login_start u p in
    let n : length w ≡ length u + length p + 84 = length-login_start u p in
    let t : take 101 (login_text u p) ≡ take 101 w =
      ap (take 101) (login_text-start u p)
      ∙ take-append_le 101 w (codes "\";") (omega (arith, n)) in
    let d : drop 101 (login_text u p) ≡ drop 101 w ++ codes "\";" =
      ap (drop 101) (login_text-start u p)
      ∙ drop-append_le 101 w (codes "\";") (omega (arith, n)) in
    let P : ℕ → Type 0 = λ c. c ≢ semicolon in
    let lw : Lacks semicolon w = login_start-Lacks u p hu hp in
    let lt : Lacks semicolon (take 101 (login_text u p)) =
      subst (Lacks semicolon) (sym t) (
        All-left P (take 101 w) (drop 101 w)
          (subst (Lacks semicolon) (sym (take-drop 101 w)) lw)) in
    let q : IsQuery exec (drop 101 (login_text u p)) = rw d (
      ends-IsQuery exec (drop 101 w) (All-drop P 101 w lw) (omega (arith, n, length-drop 101 w))) in
    let head = take 101 (login_text u p) in
    let rest = drop 101 (login_text u p) in
    let run : run_sqlite_query exec (login_text u p) (at_rest exec db []) ≡ _ =
      ap (λ s. run_sqlite_query exec s (at_rest exec db [])) (sym (take-drop 101 (login_text u p)))
      ∙ run-long exec db head rest lt (omega (arith, ap length t, length-take 101 w, n)) q
          (rw e (tt, omega arith)) in
    let stop : identify u (answer_text (rows_of exec db head)) ≡ some none =
      ap (λ r. identify u (answer_text r)) e ∙ unfold identify row_or_end in refl in
    identification-run exec u p (answer_text (rows_of exec db head)) (at_rest exec db []) _
      (omega arith) run
    ∙ rw stop refl
