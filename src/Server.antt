-- ===== src/Server.antt =====
-- server/responder.c and server_responder of server/main.c: what a worker does with a request.
pub mod Guards
pub mod Transfer
pub mod Frame
pub mod Answers
pub mod Login
pub mod Errors
pub mod Slots
pub mod Loop
mod Examples
use itba_os_tp1_ipc_2016_q.Base.{
  ℕ, ◌+◌, Bool, true, false, List, [], ◌∷◌, ◌++◌, Option, none, some, Bytes, codes, ◌==◌, leb,
  if◌then◌else◌, length, drop, ◌>>=◌, str_eq,
}
use itba_os_tp1_ipc_2016_q.Base.Words.{double_int}
use itba_os_tp1_ipc_2016_q.FileUtils.{
  Decoded, FileSystem, encode_raw_data, decode_in_memory, raw_data_from_file, file_from_raw_data,
}
use itba_os_tp1_ipc_2016_q.Json.{Json}
use itba_os_tp1_ipc_2016_q.Serialization.Commands.{
  CommandGet, CommandPost, User, CommandChangePass, Message,
}
use itba_os_tp1_ipc_2016_q.Serialization.Parse.{Parsed}
use itba_os_tp1_ipc_2016_q.Sql.Process.{Row, Pipes}
use itba_os_tp1_ipc_2016_q.Sql.Helpers.{
  FsUser, ask_for_file_to_db, insert_alias_in_db, user_identification_in_db, user_in_db,
  new_user_in_db, update_pass_in_db,
}

-- `comm_error_t`.
pub record CommError : Type 0 where
  pub code : ℕ
  pub msg : Bytes

-- The statuses of the monitor; a responder posts the first three.
pub data Status : Type 0 where
  status_ok : Status
  status_error : Status
  status_down : Status
  status_warn : Status
  status_idle : Status

-- What a worker has: the pipes to the SQLite process, the user that is logged in, the files, the
-- folders that `mkdir` was run for, the messages that were sent, the state of the connection, the error that the
-- handlers fill in and the statuses that were posted.
pub record Server (json : Json) (Database : Type 0) : Type 0 where
  pub pipes : Pipes Database
  pub user : Option FsUser
  pub files : FileSystem
  pub folders : List Bytes
  pub sent : List (Message json)
  pub closed : Bool
  pub err : CommError
  pub statuses : List Status

-- The file system with these contents at a path.
abbrev pub store : FileSystem → Bytes → Bytes → FileSystem
store files path contents = λ p. if str_eq p path then some contents else files p

module _ {json : Json} {Database : Type 0} where
  unfoldable pub with_err : ℕ → Bytes → Server json Database → Server json Database
  with_err code msg s = record s { err = record { code = code; msg = msg } }

  -- A message goes out. `fifo` is the build with FIFOs, whose `comm_send_data` fills in the error; the
  -- one over sockets leaves it alone.
  unfoldable pub send : Bool → Message json → Server json Database → Server json Database
  unfolding with_err
  send fifo m s =
      let s' = record s { sent = s.sent ++ m ∷ [] } in
      if fifo then with_err 0 (codes "OK") s' else s'

  unfoldable pub post_status : Status → Server json Database → Server json Database
  post_status status s = record s { statuses = s.statuses ++ status ∷ [] }

  -- The end of a responder.
  unfoldable pub finish : Server json Database → Server json Database
  unfolding post_status
  finish s = post_status status_down (if s.err.code == 0 then s else post_status status_error s)

  -- `check_user_logged`, and what the handler does behind it.
  unfoldable pub check_user_logged :
      Bool
      → Option FsUser
      → (FsUser → Server json Database → Option (Server json Database))
      → Server json Database
      → Option (Server json Database)
  unfolding send with_err
  check_user_logged fifo none handler s =
      some (send fifo (Message.raw (codes "NOT logged") 10) (with_err 6004 (codes "NOT logged") s))
  check_user_logged fifo (some user) handler s = handler user s

-- `opens` says which paths `fopen` opens for writing, `accepts` how many bytes the calls of `fwrite`
-- accept, `spares` whether a write behind a block, given the size of the block and the index of the
-- write, changes nothing that is used, `twice` is the double of a floating-point number. `none` is a
-- fault.
module _ (json : Json) {Database : Type 0} (exec : Database → Bytes → List Row × Database)
    (opens : Bytes → Bool) (accepts : List ℕ) (spares : ℕ → ℕ → Bool)
    (twice : json.Double → json.Double) (fifo : Bool) where
  abbrev pub Worker : Type 0
  Worker = Server json Database

  -- The file is read and sent. A file that cannot be opened leaves a null pointer, which is encoded.
  unfoldable pub get_file : Option Bytes → Worker → Option Worker
  unfolding send with_err
  get_file none s = some (
      send fifo (Message.raw (codes "FILE IS NOT IN DB") 17)
        (with_err 6000 (codes "FILE IS NOT IN DB") s))
  get_file (some path) s = do
    (contents, size) ← raw_data_from_file s.files (codes "." ++ path)
    some (with_err 0 (codes "OK") (send fifo (Message.raw (encode_raw_data contents) size) s))

  unfoldable pub process_get_cmd : CommandGet → Worker → Option Worker
  unfolding check_user_logged get_file
  process_get_cmd cmd s =
      check_user_logged fifo s.user
        (λ user s. ask_for_file_to_db exec cmd.path user s.pipes >>= λ r.
          get_file r.0 (record s { pipes = r.1 }))
        s

  -- `file_from_raw_data` on the file at a path: a file that cannot be opened is left alone.
  unfoldable pub write_file : Bytes → Bytes → ℕ → Worker → Option Worker
  write_file path bytes size s =
      if opens path
      then (do
        contents ← file_from_raw_data accepts bytes size
        some (record s { files = store s.files path contents }))
      else some s

  -- The file is decoded and written, as many bytes as the client says; more than were decoded are
  -- read behind them.
  unfoldable pub store_file : CommandPost → FsUser → Worker → Option Worker
  unfolding write_file
  store_file post user s = do
    data_ ← decode_in_memory spares post.contents
    let path = codes "." ++ (user.home ++ (codes "/" ++ post.dest))
    if leb post.size (length data_.cells) then write_file path data_.cells post.size s else none

  -- The answer of the database to the question whether the file is there. The result of the insert is
  -- not looked at.
  unfoldable pub post_file : CommandPost → FsUser → Option Bytes → Worker → Option Worker
  unfolding store_file send with_err
  post_file post user (some path) s =
      some
        (send fifo (Message.raw (codes "FILE EXISTS") 11) (with_err 6006 (codes "FILE EXISTS") s))
  post_file post user none s = do
    (_, pipes) ← insert_alias_in_db exec post.dest user s.pipes
    s' ← store_file post user (record s { pipes = pipes })
    some (send fifo (Message.raw (codes "File OK") 7) (with_err 0 (codes "OK") s'))

  unfoldable pub process_post_cmd : CommandPost → Worker → Option Worker
  unfolding check_user_logged post_file
  process_post_cmd post s =
      check_user_logged fifo s.user
        (λ user s. ask_for_file_to_db exec post.dest user s.pipes >>= λ r.
          post_file post user r.0 (record s { pipes = r.1 }))
        s

  unfoldable pub identified : Option FsUser → Worker → Worker
  unfolding send with_err
  identified none s =
      record (send fifo (Message.raw (codes "Login failed") 12)
        (with_err 6002 (codes "Login failed") s)) { user = none }
  identified (some user) s =
      send fifo (Message.raw (codes "Logged in successfully") 22)
        (with_err 0 (codes "Logged in successfully") (record s { user = some user }))

  unfoldable pub answer_login : Option FsUser → User → Worker → Option Worker
  unfolding identified send with_err
  answer_login (some user) login s = some (
      send fifo (Message.raw (codes "You are already logged in") 25)
        (with_err 6001 (codes "Already logged in") s))
  answer_login none login s = do
    (user, pipes) ← user_identification_in_db exec login.username login.password s.pipes
    some (identified user (record s { pipes = pipes }))

  unfoldable pub process_login_cmd : User → Worker → Option Worker
  unfolding answer_login
  process_login_cmd login s = answer_login s.user login s

  unfoldable pub process_logout_cmd : Worker → Option Worker
  unfolding check_user_logged send with_err
  process_logout_cmd s =
      check_user_logged fifo s.user
        (λ user s.
          some
            (record (send fifo (Message.raw (codes "Log out successful") 18)
              (with_err 0 (codes "OK") s)) { user = none }))
        s

  -- The new user is not there yet: its folder is made and it is inserted, whether that succeeds or not.
  unfoldable pub add_user : User → Bool → Worker → Option Worker
  unfolding send with_err
  add_user new_user true s = some (
      send fifo (Message.raw (codes "User already exists") 19)
        (with_err 6005 (codes "User already exists") s))
  add_user new_user false s = do
    (_, pipes) ← new_user_in_db exec new_user s.pipes
    let s' = record s {
      pipes = pipes;
      folders = s.folders ++ (codes "./fs/" ++ new_user.username) ∷ [];
    }
    some (send fifo (Message.raw (codes "User registered") 15) (with_err 0 (codes "OK") s'))

  unfoldable pub process_new_user_cmd : User → Worker → Option Worker
  unfolding check_user_logged add_user send with_err
  process_new_user_cmd new_user s =
      check_user_logged fifo s.user
        (λ user s.
          if user.is_admin == 0
          then some (
              send fifo (Message.raw (codes "HAVE NOT PERMISION") 10)
                (with_err 6003 (codes "HAVE NOT PERMISION") s))
          else (user_in_db exec new_user.username s.pipes >>= λ r.
              add_user new_user r.0 (record s { pipes = r.1 })))
        s

  unfoldable pub process_change_pass_cmd : CommandChangePass → Worker → Option Worker
  unfolding check_user_logged send with_err
  process_change_pass_cmd change s =
      check_user_logged fifo s.user
        (λ user s. do
          (_, pipes) ← update_pass_in_db exec user change.pass s.pipes
          some (
              send fifo (Message.raw (codes "PASSWORD UPDATED") 16)
                (with_err 0 (codes "OK") (record s { pipes = pipes }))))
        s

  -- The ladder over the kinds, in the lock of the worker. A string is answered by what stands two
  -- characters behind its start; raw data and unknown kinds are not answered.
  unfoldable pub dispatch : Parsed json → Worker → Option Worker
  unfolding send process_get_cmd process_post_cmd process_login_cmd process_logout_cmd
      process_new_user_cmd process_change_pass_cmd
  dispatch (Parsed.int i) s = some (send fifo (Message.int (double_int i)) s)
  dispatch (Parsed.double d) s = some (send fifo (Message.double (twice d)) s)
  dispatch (Parsed.string str) s =
      if leb 2 (length str) then some (send fifo (Message.string (drop 2 str)) s) else none
  dispatch (Parsed.raw bytes) s = some s
  dispatch (Parsed.get_cmd cmd) s = process_get_cmd cmd s
  dispatch (Parsed.post_cmd cmd) s = process_post_cmd cmd s
  dispatch (Parsed.login_cmd user) s = process_login_cmd user s
  dispatch Parsed.logout_cmd s = process_logout_cmd s
  dispatch Parsed.close_cmd s = some (record s { closed = true })
  dispatch (Parsed.new_user_cmd user) s = process_new_user_cmd user s
  dispatch (Parsed.change_pass_cmd cmd) s = process_change_pass_cmd cmd s
  dispatch (Parsed.unknown kind) s = some s

  -- A thread's work on a request; `fresh` is what its block for the error holds before.
  unfoldable pub server_responder : CommError → Parsed json → Worker → Option Worker
  unfolding dispatch post_status finish
  server_responder fresh result s = do
    s' ← dispatch result (post_status status_ok (record s { err = fresh }))
    some (finish s')
