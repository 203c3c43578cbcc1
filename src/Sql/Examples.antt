-- ===== src/Sql/Examples.antt =====
-- A database that knows one user and counts the queries.
use itba_os_tp1_ipc_2016_q.Base.{
  ◌≤◌, length, ℕ, suc, ◌≡◌, refl, arith, [], ◌∷◌, List, none, some, Bytes, codes, str_eq,
  if◌then◌else◌,
}
use itba_os_tp1_ipc_2016_q.Arguments.Words.{plain}
use itba_os_tp1_ipc_2016_q.Base.Decimal.{decimal}
use itba_os_tp1_ipc_2016_q.Sql.Process.{Row, answer_bytes, row_text, row_loop, run_sqlite_query}
use itba_os_tp1_ipc_2016_q.Sql.Helpers.{user_identification_in_db}
use itba_os_tp1_ipc_2016_q.Sql.Protocol.{IsQuery, at_rest, run-query}
use itba_os_tp1_ipc_2016_q.Sql.Texts.{login_text}
use itba_os_tp1_ipc_2016_q.Sql.Login.{user_row, login_user, login_cut}

abbrev ana_row : Row
ana_row = some (codes "/fs/ana") ∷ some (decimal 7) ∷ some (decimal 1) ∷ []

abbrev exec : ℕ → Bytes → List Row × ℕ
exec n query =
    if str_eq query (login_text (codes "ana") (codes "x1"))
    then (ana_row ∷ [], suc n)
    else ([], suc n)

abbrev count_query : Bytes
count_query = codes "DELETE FROM files;"

count-IsQuery : IsQuery exec count_query
count-IsQuery = record {
  body = codes "DELETE FROM files";
  shape = refl;
  one_semicolon = omega arith;
  short = omega arith;
  no_close = refl;
}

run-query_example :
    run_sqlite_query exec count_query (at_rest exec 4 []) ≡ (some (codes "END"), at_rest exec 5 [])
run-query_example = run-query exec 4 count_query count-IsQuery (tt, omega arith)

abbrev stale_rows : List Row
stale_rows = (some (codes "") ∷ []) ∷ []

ana_row-fits : length (row_text (user_row (codes "/fs/ana") (decimal 7) (decimal 1))) ≤ 2046
unfolding row_text row_loop decimal
ana_row-fits = omega arith

login_user_example :
    user_identification_in_db exec (codes "ana") (codes "x1") (at_rest exec 0 [])
    ≡ some (
      some (record { name = codes "ana"; home = codes "/fs/ana"; id = 7; is_admin = 1 }),
      at_rest exec 1 [],
    )
login_user_example =
    login_user exec 0 (codes "ana") (codes "x1") (codes "/fs/ana") 7 1 (omega arith) (omega arith)
      (omega arith) (omega arith) (omega arith) (plain _ (λ e. cc) (omega arith) (omega arith))
      (omega arith) ana_row-fits refl

abbrev name : Bytes
name = codes "administrator"

abbrev word : Bytes
word = codes "secret"

login_cut_example :
    user_identification_in_db exec name word (at_rest exec 0 [])
    ≡ some (none, at_rest exec 2 (answer_bytes []))
login_cut_example =
    login_cut exec 0 name word (omega arith) (omega arith) (omega arith) (omega arith) refl
