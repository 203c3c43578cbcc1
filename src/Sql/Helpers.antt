-- ===== src/Sql/Helpers.antt =====
-- server/sql_helpers.c: the queries of the server and what it makes of their answers. `none` is a step
-- behind a block or an array, a null pointer that is read through, or a wait for ever. The blocks for
-- the quoted texts of an insert are one or two bytes too short in the source; they are taken as long
-- enough here.
use itba_os_tp1_ipc_2016_q.Base.{
  ℕ, ◌%◌, ◌^◌, Bool, not, List, ◌++◌, Option, none, some, Bytes, codes, str_eq, ltb, if◌then◌else◌,
  get_elem?, ◌>>=◌,
}
use itba_os_tp1_ipc_2016_q.Base.Decimal.{decimal, atoi}
use itba_os_tp1_ipc_2016_q.Arguments.{split_arguments}
use itba_os_tp1_ipc_2016_q.Serialization.Commands.{User}
use itba_os_tp1_ipc_2016_q.Sql.Query.{
  fit, create_select_query, set_select_query_table, set_select_query_atribute,
  set_select_query_where, select_query_to_str, create_insert_query, set_insert_query_table,
  set_insert_query_value, insert_query_to_str, create_update_query, set_update_query_table,
  set_update_query_value, set_update_query_where, update_query_to_str,
}
use itba_os_tp1_ipc_2016_q.Sql.Process.{Row, Pipes, end_str, run_sqlite_query}

-- `fs_user_t`.
pub record FsUser : Type 0 where
  pub name : Bytes
  pub home : Bytes
  pub is_admin : ℕ
  pub id : ℕ

-- `sprintf(s, "\"%s\"", text)`.
abbrev pub quoted : Bytes → Bytes
quoted text = codes "\"" ++ (text ++ codes "\"")

unfoldable pub file_query : Bytes → Bytes → Option Bytes
file_query file_alias home = do
  q₁ ← set_select_query_table create_select_query (codes "files")
  q₂ ← set_select_query_atribute q₁ (codes "path")
  q₃ ← set_select_query_where q₂ (codes "alias") (codes "=") (quoted file_alias)
  q₄ ← set_select_query_where q₃ (codes "path") (codes "LIKE") (codes "'" ++ (home ++ codes "%'"))
  select_query_to_str q₄

unfoldable pub alias_query : Bytes → Bytes → Option Bytes
alias_query file_alias home = do
  q₁ ← set_insert_query_table create_insert_query (codes "files")
  q₂ ← set_insert_query_value q₁ (codes "path") (quoted (home ++ (codes "/" ++ file_alias)))
  q₃ ← set_insert_query_value q₂ (codes "owner") (codes "2")
  q₄ ← set_insert_query_value q₃ (codes "alias") (quoted file_alias)
  insert_query_to_str q₄

unfoldable pub login_query : Bytes → Bytes → Option Bytes
login_query username password = do
  q₁ ← set_select_query_table create_select_query (codes "users")
  q₂ ← set_select_query_atribute q₁ (codes "home")
  q₃ ← set_select_query_atribute q₂ (codes "user_id")
  q₄ ← set_select_query_atribute q₃ (codes "is_admin")
  q₅ ← set_select_query_where q₄ (codes "username") (codes "=") (quoted username)
  q₆ ← set_select_query_where q₅ (codes "password") (codes "=") (quoted password)
  select_query_to_str q₆

unfoldable pub user_query : Bytes → Option Bytes
user_query username = do
  q₁ ← set_select_query_table create_select_query (codes "users")
  q₂ ← set_select_query_atribute q₁ (codes "home")
  q₃ ← set_select_query_where q₂ (codes "username") (codes "=") (quoted username)
  select_query_to_str q₃

unfoldable pub new_user_query : User → Option Bytes
new_user_query user = do
  q₁ ← set_insert_query_table create_insert_query (codes "users")
  q₂ ← set_insert_query_value q₁ (codes "username") (quoted user.username)
  q₃ ← set_insert_query_value q₂ (codes "password") (quoted user.password)
  q₄ ← set_insert_query_value q₃ (codes "home") (quoted (codes "/fs/" ++ user.username))
  q₅ ←
      set_insert_query_value q₄ (codes "is_admin")
        (quoted (if ltb 0 user.admin then codes "1" else codes "0"))
  insert_query_to_str q₅

unfoldable pub pass_query : ℕ → Bytes → Option Bytes
pass_query id new_pass = do
  q₁ ← set_update_query_table create_update_query (codes "users")
  q₂ ← set_update_query_value q₁ (codes "password") (quoted new_pass)
  id_str ← fit 6 (decimal id)
  q₃ ← set_update_query_where q₂ (codes "user_id") (codes "=") id_str
  update_query_to_str q₃

-- The answer of a query, or `none` for the line `END`.
unfoldable pub row_or_end : Bytes → Option Bytes
row_or_end answer = if str_eq answer end_str then none else some answer

-- `atoi` for an `int`; of a number that does not fit its result is undefined in C, which is `none`.
unfoldable pub atoi_int : Bytes → Option ℕ
atoi_int s = if ltb (atoi s) (2 ^ 31) then some (atoi s) else none

-- The user that a row of `home`, `user_id` and `is_admin` describes.
unfoldable pub user_of_row : Bytes → Bytes → Option FsUser
unfolding atoi_int
user_of_row username response = do
  response_array ← split_arguments response
  home ← get_elem? response_array 0
  id ← get_elem? response_array 1
  admin ← get_elem? response_array 2
  user_id ← atoi_int id
  is_admin ← atoi_int admin
  some (record { name = username; home = home; id = user_id; is_admin = is_admin % 256 })

-- What the answer to the query of a login means: the user, or `none` for `EMPTY_RESPONSE`.
unfoldable pub identify : Bytes → Bytes → Option (Option FsUser)
identify username answer = elim (row_or_end answer) [
  | none ↦ some none
  | some row ↦ elim (user_of_row username row) [ none ↦ none | some user ↦ some (some user) ]
]

module _ {Database : Type 0} (exec : Database → Bytes → List Row × Database) where
  abbrev pub Db : Type 0 → Type 0
  Db A = Pipes Database → Option (A × Pipes Database)

  -- A query that could be built is run.
  unfoldable pub with_state :
      {A : Type 0}
      → (Bytes → Option A)
      → Option Bytes × Pipes Database
      → Option (A × Pipes Database)
  with_state f (none, pipes) = none
  with_state f (some answer, pipes) = f answer >>= λ a. some (a, pipes)

  unfoldable pub run_text : {A : Type 0} → Option Bytes → (Bytes → Option A) → Db A
  unfolding with_state
  run_text none f pipes = none
  run_text (some query) f pipes = with_state f (run_sqlite_query exec query pipes)

  -- The path of a file, or `none` with `errno = EMPTY_RESPONSE`.
  unfoldable pub ask_for_file_to_db : Bytes → FsUser → Db (Option Bytes)
  ask_for_file_to_db file_alias user =
      run_text (file_query file_alias user.home) (λ answer. some (row_or_end answer))

  -- An insert succeeds if its answer has no row.
  unfoldable pub insert_alias_in_db : Bytes → FsUser → Db Bool
  insert_alias_in_db file_alias user =
      run_text (alias_query file_alias user.home) (λ answer. some (str_eq answer end_str))

  -- The user with that name and password, or `none` for `EMPTY_RESPONSE`.
  unfoldable pub user_identification_in_db : Bytes → Bytes → Db (Option FsUser)
  unfolding identify
  user_identification_in_db username password =
      run_text (login_query username password) (identify username)

  unfoldable pub user_in_db : Bytes → Db Bool
  user_in_db username =
      run_text (user_query username) (λ answer. some (not (str_eq answer end_str)))

  unfoldable pub new_user_in_db : User → Db Bool
  new_user_in_db user = run_text (new_user_query user) (λ answer. some (str_eq answer end_str))

  unfoldable pub update_pass_in_db : FsUser → Bytes → Db (Unit {0})
  update_pass_in_db user new_pass = run_text (pass_query user.id new_pass) (λ answer. some tt)
