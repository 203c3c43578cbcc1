-- ===== src/Server/Answers.antt =====
-- server_responder of server/main.c and the answers: how many messages the handlers of
-- server/responder.c send.
use mathlib.Core.Path.{subst}
use itba_os_tp1_ipc_2016_q.Base.{
  ℕ, ◌≡◌, refl, ◌∙◌, ap, arith, inl, inr, Bool, Bool-cases, true, false, List, [], ◌∷◌, ◌++◌,
  Option, none, some, Bytes, codes, ◌==◌, leb, length, drop,
}
use itba_os_tp1_ipc_2016_q.Base.Words.{double_int}
use itba_os_tp1_ipc_2016_q.FileUtils.{
  decode_in_memory, file_from_raw_data, raw_data_from_file, encode_raw_data,
}
use itba_os_tp1_ipc_2016_q.Json.{Json}
use itba_os_tp1_ipc_2016_q.Serialization.Commands.{Message, CommandPost, User}
use itba_os_tp1_ipc_2016_q.Serialization.Parse.{Parsed}
use itba_os_tp1_ipc_2016_q.Sql.Process.{Row}
use itba_os_tp1_ipc_2016_q.Sql.Helpers.{
  FsUser, ask_for_file_to_db, insert_alias_in_db, user_in_db, new_user_in_db, update_pass_in_db,
  user_identification_in_db,
}
use itba_os_tp1_ipc_2016_q.Server.{
  CommError, status_ok, Server, send, with_err, check_user_logged, write_file, store_file,
  post_file, get_file, add_user, identified, answer_login, process_get_cmd, process_post_cmd,
  process_new_user_cmd, process_login_cmd, process_logout_cmd, process_change_pass_cmd, dispatch,
  post_status, finish, server_responder,
}
use itba_os_tp1_ipc_2016_q.Server.Frame.{Always, Always-bind, Always-then, Always-some}

-- The requests that are answered: all but the end of the connection, data and unknown kinds.
abbrev pub IsAnswered : {json : Json} → Parsed json → Type 0
IsAnswered (Parsed.raw s) = ⊥
IsAnswered Parsed.close_cmd = ⊥
IsAnswered (Parsed.unknown kind) = ⊥
IsAnswered (Parsed.int i) = Unit
IsAnswered (Parsed.double d) = Unit
IsAnswered (Parsed.string s) = Unit
IsAnswered (Parsed.get_cmd cmd) = Unit
IsAnswered (Parsed.post_cmd cmd) = Unit
IsAnswered (Parsed.login_cmd user) = Unit
IsAnswered Parsed.logout_cmd = Unit
IsAnswered (Parsed.new_user_cmd user) = Unit
IsAnswered (Parsed.change_pass_cmd cmd) = Unit

-- The messages with one more, `data` or another.
abbrev pub OneMore :
    {json : Json} {Database : Type 0} → List (Message json) → Server json Database → Type 0
OneMore {json} sent s = (m : Message json) × (s.sent ≡ sent ++ m ∷ [])

module _ (json : Json) {Database : Type 0} (exec : Database → Bytes → List Row × Database)
    (opens : Bytes → Bool) (accepts : List ℕ) (spares : ℕ → ℕ → Bool)
    (twice : json.Double → json.Double) (fifo : Bool) where
  abbrev Worker : Type 0
  Worker = Server json Database

  abbrev HasSent : List (Message json) → Worker → Type 0
  HasSent sent s = s.sent ≡ sent

  send-sent : (m : Message json) (s : Worker) → OneMore s.sent (send fifo m s)
  unfolding send with_err
  send-sent m s = (m, (ground arith))

  answer-sent :
      (m : Message json) (code : ℕ) (msg : Bytes) (s : Worker)
      → OneMore s.sent (send fifo m (with_err code msg s))
  unfolding with_err
  answer-sent m code msg s = send-sent m (record s { err = record { code = code; msg = msg } })

  check-sent :
      (u : Option FsUser) (handler : FsUser → Worker → Option Worker) (s : Worker)
      → ((user : FsUser) → Always (OneMore s.sent) (handler user s))
      → Always (OneMore s.sent) (check_user_logged fifo u handler s)
  unfolding check_user_logged
  check-sent none handler s h =
      answer-sent (Message.raw (codes "NOT logged") 10) 6004 (codes "NOT logged") s
  check-sent (some user) handler s h = h user

  get_file-sent :
      (path : Option Bytes) (s : Worker)
      → Always (OneMore s.sent) (get_file json exec opens accepts spares twice fifo path s)
  unfolding get_file
  get_file-sent none s =
      answer-sent (Message.raw (codes "FILE IS NOT IN DB") 17) 6000 (codes "FILE IS NOT IN DB") s
  get_file-sent (some path) s =
      Always-bind (OneMore s.sent) (raw_data_from_file s.files (codes "." ++ path)) _
        (λ r. unfold with_err in send-sent (Message.raw (encode_raw_data r.0) r.1) s)

  write_file-sent :
      (path bytes : Bytes) (size : ℕ) (s : Worker)
      → Always
          (HasSent s.sent)
          (write_file json exec opens accepts spares twice fifo path bytes size s)
  unfolding write_file
  write_file-sent path bytes size s = elim (Bool-cases (opens path)) [
    | inl t ↦
        rw t (Always-bind (HasSent s.sent) (file_from_raw_data accepts bytes size) _ (λ r. refl))
    | inr f ↦ rw f refl
  ]

  store_file-sent :
      (post : CommandPost) (user : FsUser) (s : Worker)
      → Always (HasSent s.sent) (store_file json exec opens accepts spares twice fifo post user s)
  unfolding store_file
  store_file-sent post user s =
      Always-bind (HasSent s.sent) (decode_in_memory spares post.contents) _ (λ d.
        elim (Bool-cases (leb post.size (length d.cells))) [
          | inl t ↦ rw t (write_file-sent _ d.cells post.size s)
          | inr f ↦ rw f tt
        ])

  post_file-sent :
      (post : CommandPost) (user : FsUser) (path : Option Bytes) (s : Worker)
      → Always
          (OneMore s.sent)
          (post_file json exec opens accepts spares twice fifo post user path s)
  unfolding post_file
  post_file-sent post user (some path) s =
      answer-sent (Message.raw (codes "FILE EXISTS") 11) 6006 (codes "FILE EXISTS") s
  post_file-sent post user none s =
      Always-bind (OneMore s.sent) (insert_alias_in_db exec post.dest user s.pipes) _ (λ r.
        Always-then (HasSent s.sent) (OneMore s.sent)
          (store_file json exec opens accepts spares twice fifo post user
            (record s { pipes = r.1 }))
          _ (store_file-sent post user (record s { pipes = r.1 }))
          (λ s' e.
            subst
              (λ l.
                OneMore l
                  (send fifo (Message.raw (codes "File OK") 7) (with_err 0 (codes "OK") s')))
              e (answer-sent (Message.raw (codes "File OK") 7) 0 (codes "OK") s')))

  add_user-sent :
      (new_user : User) (there : Bool) (s : Worker)
      → Always
          (OneMore s.sent)
          (add_user json exec opens accepts spares twice fifo new_user there s)
  unfolding add_user
  add_user-sent new_user true s =
      answer-sent (Message.raw (codes "User already exists") 19) 6005 (codes "User already exists")
        s
  add_user-sent new_user false s =
      Always-bind (OneMore s.sent) (new_user_in_db exec new_user s.pipes) _ (λ r.
        answer-sent (Message.raw (codes "User registered") 15) 0 (codes "OK") (record s {
          pipes = r.1;
          folders = s.folders ++ (codes "./fs/" ++ new_user.username) ∷ [];
        }))

  identified-sent :
      (user : Option FsUser) (s : Worker)
      → OneMore s.sent (identified json exec opens accepts spares twice fifo user s)
  unfolding identified
  identified-sent none s =
      answer-sent (Message.raw (codes "Login failed") 12) 6002 (codes "Login failed") s
  identified-sent (some user) s =
      answer-sent (Message.raw (codes "Logged in successfully") 22) 0
        (codes "Logged in successfully") (record s { user = some user })

  answer_login-sent :
      (user : Option FsUser) (login : User) (s : Worker)
      → Always
          (OneMore s.sent)
          (answer_login json exec opens accepts spares twice fifo user login s)
  unfolding answer_login
  answer_login-sent (some user) login s =
      answer-sent (Message.raw (codes "You are already logged in") 25) 6001
        (codes "Already logged in") s
  answer_login-sent none login s =
      Always-bind (OneMore s.sent)
        (user_identification_in_db exec login.username login.password s.pipes) _
        (λ r. identified-sent r.0 (record s { pipes = r.1 }))

  logout-sent :
      (s : Worker)
      → Always (OneMore s.sent) (process_logout_cmd json exec opens accepts spares twice fifo s)
  unfolding process_logout_cmd
  logout-sent s =
      check-sent s.user _ s
        (λ user. answer-sent (Message.raw (codes "Log out successful") 18) 0 (codes "OK") s)

  dispatch-sent :
      (p : Parsed json) (s : Worker)
      → IsAnswered p
      → Always (OneMore s.sent) (dispatch json exec opens accepts spares twice fifo p s)
  unfolding dispatch process_get_cmd process_post_cmd process_new_user_cmd process_change_pass_cmd
      process_login_cmd
  dispatch-sent (Parsed.int i) s k = send-sent (Message.int (double_int i)) s
  dispatch-sent (Parsed.double d) s k = send-sent (Message.double (twice d)) s
  dispatch-sent (Parsed.string str) s k = elim (Bool-cases (leb 2 (length str))) [
    | inl t ↦ rw t (send-sent (Message.string (drop 2 str)) s)
    | inr f ↦ rw f tt
  ]
  dispatch-sent (Parsed.raw str) s k = absurd k
  dispatch-sent (Parsed.get_cmd cmd) s k = check-sent s.user _ s (λ user.
      Always-bind (OneMore s.sent) (ask_for_file_to_db exec cmd.path user s.pipes) _
        (λ r. get_file-sent r.0 (record s { pipes = r.1 })))
  dispatch-sent (Parsed.post_cmd cmd) s k = check-sent s.user _ s (λ user.
      Always-bind (OneMore s.sent) (ask_for_file_to_db exec cmd.dest user s.pipes) _
        (λ r. post_file-sent cmd user r.0 (record s { pipes = r.1 })))
  dispatch-sent (Parsed.login_cmd user) s k = answer_login-sent s.user user s
  dispatch-sent Parsed.logout_cmd s k = logout-sent s
  dispatch-sent Parsed.close_cmd s k = absurd k
  dispatch-sent (Parsed.new_user_cmd new_user) s k = check-sent s.user _ s (λ user.
      elim (Bool-cases (user.is_admin == 0)) [
        | inl t ↦ rw t (
            answer-sent (Message.raw (codes "HAVE NOT PERMISION") 10) 6003
              (codes "HAVE NOT PERMISION") s)
        | inr f ↦ rw f (
            Always-bind (OneMore s.sent) (user_in_db exec new_user.username s.pipes) _
              (λ r. add_user-sent new_user r.0 (record s { pipes = r.1 })))
      ])
  dispatch-sent (Parsed.change_pass_cmd cmd) s k = check-sent s.user _ s (λ user.
      Always-bind (OneMore s.sent) (update_pass_in_db exec user cmd.pass s.pipes) _ (λ r.
        answer-sent (Message.raw (codes "PASSWORD UPDATED") 16) 0 (codes "OK")
          (record s { pipes = r.1 })))
  dispatch-sent (Parsed.unknown kind) s k = absurd k

  pub finish-sent : (s : Worker) → (finish s).sent ≡ s.sent
  unfolding finish post_status
  finish-sent s = ground arith

  -- A request other than the end of the connection, data or an unknown kind is answered by exactly one
  -- message, whatever becomes of it, unless the worker faults.
  pub answered_once :
      (fresh : CommError) (p : Parsed json) (s s' : Worker)
      → IsAnswered p
      → server_responder json exec opens accepts spares twice fifo fresh p s ≡ some s'
      → (m : Message json) × (s'.sent ≡ s.sent ++ m ∷ [])
  unfolding server_responder
  answered_once fresh p s s' k e =
      let start = post_status status_ok (record s { err = fresh }) in
      let keep : start.sent ≡ s.sent = unfold post_status in refl in
      Always-some (OneMore s.sent) _ s'
        (Always-then (OneMore start.sent) (OneMore s.sent)
          (dispatch json exec opens accepts spares twice fifo p start) _ (dispatch-sent p start k)
          (λ t h. (h.0, finish-sent t ∙ (h.1 ∙ ap (λ l. l ++ h.0 ∷ []) keep))))
        e
