-- ===== src/Server/Examples.antt =====
-- A worker with a database that knows one file once it is inserted.
use itba_os_tp1_ipc_2016_q.Server.Slots.{
  Slots, placed, maxed, take_slots, first_slots, slots_safe, slots_limit,
}
use itba_os_tp1_ipc_2016_q.Base.{
  ◌⊎◌, ◌≤◌, ◌<◌, ℕ, ◌≡◌, refl, arith, [], ◌∷◌, List, Bool, true, false, Option, none, some, Bytes,
  codes, str_eq, if◌then◌else◌, take, replicate, ◌>>=◌, ltb,
}
use itba_os_tp1_ipc_2016_q.FileUtils.{encode_raw_data}
use itba_os_tp1_ipc_2016_q.Json.Instance.{list_json}
use itba_os_tp1_ipc_2016_q.Serialization.Commands.{Message, User}
use itba_os_tp1_ipc_2016_q.Serialization.Parse.{Parsed}
use itba_os_tp1_ipc_2016_q.Sql.Query.{
  create_select_query, set_select_query_table, set_select_query_atribute, set_select_query_where,
  select_query_to_str, create_insert_query, set_insert_query_table, set_insert_query_value,
  insert_query_to_str, some_fields, fit, and_where, to_fields_string, join_fields,
}
use itba_os_tp1_ipc_2016_q.Sql.Process.{
  Row, Pipes, run_sqlite_query, serve, read_query, answer_query, answer_bytes, row_text, row_loop,
  read_lines, take_answer,
}
use itba_os_tp1_ipc_2016_q.Sql.Helpers.{
  FsUser, file_query, alias_query, run_text, with_state, row_or_end, ask_for_file_to_db,
  insert_alias_in_db,
}
use itba_os_tp1_ipc_2016_q.Server.{
  CommError, status_ok, status_down, Server, store, server_responder,
}
use itba_os_tp1_ipc_2016_q.Server.Guards.{refused, not_logged, not_permitted}
use itba_os_tp1_ipc_2016_q.Server.Transfer.{file_path, upload, served, post-get}
use itba_os_tp1_ipc_2016_q.Server.Frame.{user_kept}
use itba_os_tp1_ipc_2016_q.Server.Answers.{answered_once}
use itba_os_tp1_ipc_2016_q.Server.Errors.{fifo-NoError}

abbrev exec : Bool → Bytes → List Row × Bool
exec there query =
    if str_eq (take 6 query) (codes "INSERT")
    then ([], true)
    else if there
    then ((some (codes "/fs/ana/a") ∷ []) ∷ [], there)
    else ([], there)

abbrev pipes_at : Bool → Pipes Bool
pipes_at there = record { database = there; queries = []; answers = []; running = true }

abbrev ana : FsUser
ana = record { name = codes "ana"; home = codes "/fs/ana"; is_admin = 0; id = 7 }

abbrev fresh : CommError
fresh = record { code = 9; msg = [] }

abbrev opens : Bytes → Bool
opens path = true

abbrev accepts : List ℕ
accepts = replicate 4 1

-- The allocator rounds the block up, and the terminator falls on the rest.
abbrev spares : ℕ → ℕ → Bool
spares size i = ltb i 24

abbrev worker : Option FsUser → Server list_json Bool
worker user = record {
  pipes = pipes_at false;
  user = user;
  files = λ p. none;
  folders = [];
  sent = [];
  closed = false;
  err = fresh;
  statuses = [];
}

not_logged_example :
    server_responder list_json exec opens accepts spares
      (λ d. d)
      false
      fresh
      Parsed.logout_cmd
      (worker none)
    ≡ some (
        refused list_json exec opens accepts spares
          (λ d. d)
          false
          (codes "NOT logged")
          10
          6004
          (worker none))
not_logged_example =
    not_logged list_json exec opens accepts spares (λ d. d) false fresh Parsed.logout_cmd
      (worker none) refl tt

abbrev bob : User
bob = record { username = codes "bob"; password = codes "b"; admin = 1 }

not_permitted_example :
    server_responder list_json exec opens accepts spares
      (λ d. d)
      false
      fresh
      (Parsed.new_user_cmd bob)
      (worker (some ana))
    ≡ some (
        refused list_json exec opens accepts spares
          (λ d. d)
          false
          (codes "HAVE NOT PERMISION")
          10
          6003
          (worker (some ana)))
not_permitted_example =
    not_permitted list_json exec opens accepts spares (λ d. d) false fresh bob ana
      (worker (some ana)) refl refl

ask_before : ask_for_file_to_db exec (codes "a") ana (pipes_at false) ≡ some (none, pipes_at false)
unfolding ask_for_file_to_db insert_alias_in_db file_query alias_query create_select_query
    set_select_query_table set_select_query_atribute set_select_query_where select_query_to_str
    create_insert_query set_insert_query_table set_insert_query_value insert_query_to_str
    some_fields fit and_where to_fields_string join_fields run_text run_sqlite_query serve
    read_query answer_query answer_bytes row_text row_loop read_lines take_answer with_state
    row_or_end
ask_before = refl

insert_now : insert_alias_in_db exec (codes "a") ana (pipes_at false) ≡ some (true, pipes_at true)
unfolding ask_for_file_to_db insert_alias_in_db file_query alias_query create_select_query
    set_select_query_table set_select_query_atribute set_select_query_where select_query_to_str
    create_insert_query set_insert_query_table set_insert_query_value insert_query_to_str
    some_fields fit and_where to_fields_string join_fields run_text run_sqlite_query serve
    read_query answer_query answer_bytes row_text row_loop read_lines take_answer with_state
    row_or_end
insert_now = refl

ask_after :
    ask_for_file_to_db exec (codes "a") ana (pipes_at true)
    ≡ some (some (codes "/fs/ana/a"), pipes_at true)
unfolding ask_for_file_to_db insert_alias_in_db file_query alias_query create_select_query
    set_select_query_table set_select_query_atribute set_select_query_where select_query_to_str
    create_insert_query set_insert_query_table set_insert_query_value insert_query_to_str
    some_fields fit and_where to_fields_string join_fields run_text run_sqlite_query serve
    read_query answer_query answer_bytes row_text row_loop read_lines take_answer with_state
    row_or_end
ask_after = refl

post-get_example :
    (server_responder list_json exec opens accepts spares
        (λ d. d)
        true
        fresh
        (Parsed.post_cmd (upload (codes "a") (1 ∷ 255 ∷ [])))
        (worker (some ana))
      >>= λ t.
          server_responder list_json exec opens accepts spares
            (λ d. d)
            true
            fresh
            (Parsed.get_cmd (record { path = codes "a" }))
            t)
    ≡ some (
        served list_json exec opens accepts spares
          (λ d. d)
          true
          (Message.raw (codes "File OK") 7 ∷ Message.raw (encode_raw_data (1 ∷ 255 ∷ [])) 2 ∷ [])
          (status_ok ∷ status_down ∷ status_ok ∷ status_down ∷ [])
          (record (worker (some ana)) {
            pipes = pipes_at true;
            files = store (λ p. none) (file_path ana (codes "a")) (1 ∷ 255 ∷ []);
          }))
post-get_example =
    post-get list_json exec opens accepts spares (λ d. d) true fresh fresh (codes "a")
      (1 ∷ 255 ∷ []) ana (worker (some ana)) (pipes_at false) (pipes_at true) (pipes_at true) true
      refl ask_before insert_now ask_after (ground arith) refl (ground arith) (omega arith) refl

-- The worker after ana has asked for a new user.
abbrev after_refusal : Bool → Server list_json Bool
after_refusal fifo =
    refused list_json exec opens accepts spares (λ d. d) fifo (codes "HAVE NOT PERMISION") 10 6003
      (worker (some ana))

user_kept_example : (after_refusal false).user ≡ some ana
user_kept_example =
    user_kept list_json exec opens accepts spares (λ d. d) false fresh (Parsed.new_user_cmd bob)
      (worker (some ana)) (after_refusal false) tt
      (not_permitted list_json exec opens accepts spares (λ d. d) false fresh bob ana
        (worker (some ana)) refl refl)

answered_once_example : (m : Message list_json) × ((after_refusal false).sent ≡ m ∷ [])
answered_once_example =
    answered_once list_json exec opens accepts spares (λ d. d) false fresh (Parsed.new_user_cmd bob)
      (worker (some ana)) (after_refusal false) tt
      (not_permitted list_json exec opens accepts spares (λ d. d) false fresh bob ana
        (worker (some ana)) refl refl)

fifo-NoError_example : (after_refusal true).err.code ≡ 0
fifo-NoError_example =
    fifo-NoError list_json exec opens accepts spares (λ d. d) fresh (Parsed.new_user_cmd bob)
      (worker (some ana)) (after_refusal true) tt
      (not_permitted list_json exec opens accepts spares (λ d. d) true fresh bob ana
        (worker (some ana)) refl refl)

slots_safe_example :
    (take_slots 8 5 (first_slots 2) ≡ maxed)
    ⊎ ((s : Slots) × (take_slots 8 5 (first_slots 2) ≡ placed s)
        × (s.current ≡ 5)
        × (5 < s.size)
        × (s.size ≤ 8))
slots_safe_example = slots_safe 2 8 5 (omega arith) (omega arith) (omega arith)

slots_limit_example : take_slots 8 9 (first_slots 2) ≡ maxed
slots_limit_example = slots_limit 2 8 9 (omega arith) (omega arith) (omega arith) (omega arith)
