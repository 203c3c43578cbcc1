-- ===== src/Server/Errors.antt =====
-- The error of a request at its end, over FIFOs: server/responder.c with comm_send_data.
use itba_os_tp1_ipc_2016_q.Base.{
  ℕ, ◌≡◌, refl, arith, inl, inr, Bool, Bool-cases, true, false, List, ◌++◌, Option, none, some,
  Bytes, codes, ◌==◌, leb, length,
}
use itba_os_tp1_ipc_2016_q.FileUtils.{raw_data_from_file}
use itba_os_tp1_ipc_2016_q.Json.{Json}
use itba_os_tp1_ipc_2016_q.Serialization.Commands.{CommandPost, User}
use itba_os_tp1_ipc_2016_q.Serialization.Parse.{Parsed}
use itba_os_tp1_ipc_2016_q.Sql.Process.{Row}
use itba_os_tp1_ipc_2016_q.Sql.Helpers.{
  FsUser, ask_for_file_to_db, insert_alias_in_db, user_identification_in_db, user_in_db,
  new_user_in_db, update_pass_in_db,
}
use itba_os_tp1_ipc_2016_q.Server.{
  CommError, status_ok, Server, send, with_err, check_user_logged, store_file, post_file, get_file,
  add_user, identified, answer_login, process_login_cmd, process_logout_cmd, process_get_cmd,
  process_post_cmd, process_new_user_cmd, process_change_pass_cmd, dispatch, post_status, finish,
  server_responder,
}
use itba_os_tp1_ipc_2016_q.Server.Frame.{Always, Always-bind, Always-then, Always-some}

-- The requests that get an answer.
abbrev pub IsAnswered : {json : Json} → Parsed json → Type 0
IsAnswered (Parsed.raw s) = ⊥
IsAnswered Parsed.close_cmd = ⊥
IsAnswered (Parsed.unknown kind) = ⊥
IsAnswered (Parsed.login_cmd user) = Unit
IsAnswered Parsed.logout_cmd = Unit
IsAnswered (Parsed.int i) = Unit
IsAnswered (Parsed.double d) = Unit
IsAnswered (Parsed.string s) = Unit
IsAnswered (Parsed.get_cmd cmd) = Unit
IsAnswered (Parsed.post_cmd cmd) = Unit
IsAnswered (Parsed.new_user_cmd user) = Unit
IsAnswered (Parsed.change_pass_cmd cmd) = Unit

module _ (json : Json) {Database : Type 0} (exec : Database → Bytes → List Row × Database)
    (opens : Bytes → Bool) (accepts : List ℕ) (spares : ℕ → ℕ → Bool)
    (twice : json.Double → json.Double) where
  abbrev Worker : Type 0
  Worker = Server json Database

  abbrev NoError : Worker → Type 0
  NoError s = s.err.code ≡ 0

  check-NoError :
      (u : Option FsUser) (handler : FsUser → Worker → Option Worker) (s : Worker)
      → ((user : FsUser) → Always NoError (handler user s))
      → Always NoError (check_user_logged true u handler s)
  unfolding check_user_logged
  check-NoError none handler s h = unfold send with_err in refl
  check-NoError (some user) handler s h = h user

  get_file-NoError :
      (path : Option Bytes) (s : Worker)
      → Always NoError (get_file json exec opens accepts spares twice true path s)
  unfolding get_file
  get_file-NoError none s = unfold send with_err in refl
  get_file-NoError (some path) s =
      Always-bind NoError (raw_data_from_file s.files (codes "." ++ path)) _
        (λ r. unfold with_err in refl)

  post_file-NoError :
      (post : CommandPost) (user : FsUser) (path : Option Bytes) (s : Worker)
      → Always NoError (post_file json exec opens accepts spares twice true post user path s)
  unfolding post_file
  post_file-NoError post user (some path) s = unfold send with_err in refl
  post_file-NoError post user none s =
      Always-bind NoError (insert_alias_in_db exec post.dest user s.pipes) _ (λ r.
        Always-bind NoError
          (store_file json exec opens accepts spares twice true post user
            (record s { pipes = r.1 }))
          _ (λ s'. unfold send with_err in refl))

  identified-NoError :
      (user : Option FsUser) (s : Worker)
      → NoError (identified json exec opens accepts spares twice true user s)
  unfolding identified send with_err
  identified-NoError none s = refl
  identified-NoError (some user) s = refl

  login-NoError :
      (user : Option FsUser) (login : User) (s : Worker)
      → Always NoError (answer_login json exec opens accepts spares twice true user login s)
  unfolding answer_login
  login-NoError (some user) login s = unfold send with_err in refl
  login-NoError none login s =
      Always-bind NoError (user_identification_in_db exec login.username login.password s.pipes) _
        (λ r. identified-NoError r.0 (record s { pipes = r.1 }))

  add_user-NoError :
      (new_user : User) (there : Bool) (s : Worker)
      → Always NoError (add_user json exec opens accepts spares twice true new_user there s)
  unfolding add_user
  add_user-NoError new_user true s = unfold send with_err in refl
  add_user-NoError new_user false s =
      Always-bind NoError (new_user_in_db exec new_user s.pipes) _
        (λ r. unfold send with_err in refl)

  dispatch-NoError :
      (p : Parsed json) (s : Worker)
      → IsAnswered p
      → Always NoError (dispatch json exec opens accepts spares twice true p s)
  unfolding dispatch process_get_cmd process_post_cmd process_login_cmd process_logout_cmd
      process_new_user_cmd process_change_pass_cmd
  dispatch-NoError (Parsed.int i) s k = unfold send with_err in refl
  dispatch-NoError (Parsed.double d) s k = unfold send with_err in refl
  dispatch-NoError (Parsed.string str) s k = elim (Bool-cases (leb 2 (length str))) [
    | inl t ↦ rw t ((unfold send with_err in refl))
    | inr f ↦ rw f tt
  ]
  dispatch-NoError (Parsed.raw str) s k = absurd k
  dispatch-NoError (Parsed.get_cmd cmd) s k = check-NoError s.user _ s (λ user.
      Always-bind NoError (ask_for_file_to_db exec cmd.path user s.pipes) _
        (λ r. get_file-NoError r.0 (record s { pipes = r.1 })))
  dispatch-NoError (Parsed.post_cmd cmd) s k = check-NoError s.user _ s (λ user.
      Always-bind NoError (ask_for_file_to_db exec cmd.dest user s.pipes) _
        (λ r. post_file-NoError cmd user r.0 (record s { pipes = r.1 })))
  dispatch-NoError (Parsed.login_cmd user) s k = login-NoError s.user user s
  dispatch-NoError Parsed.logout_cmd s k =
      check-NoError s.user _ s (λ user. unfold send with_err in refl)
  dispatch-NoError Parsed.close_cmd s k = absurd k
  dispatch-NoError (Parsed.new_user_cmd new_user) s k = check-NoError s.user _ s (λ user.
      elim (Bool-cases (user.is_admin == 0)) [
        | inl t ↦ rw t ((unfold send with_err in refl))
        | inr f ↦ rw f (
            Always-bind NoError (user_in_db exec new_user.username s.pipes) _
              (λ r. add_user-NoError new_user r.0 (record s { pipes = r.1 })))
      ])
  dispatch-NoError (Parsed.change_pass_cmd cmd) s k = check-NoError s.user _ s (λ user.
      Always-bind NoError (update_pass_in_db exec user cmd.pass s.pipes) _
        (λ r. unfold send with_err in refl))
  dispatch-NoError (Parsed.unknown kind) s k = absurd k

  finish-err : (t : Worker) → NoError t → NoError (finish t)
  unfolding finish post_status
  finish-err t h = ground (arith, h)

  -- Over FIFOs, every request that is answered ends without an error, refused or not, since the answer
  -- resets the error.
  pub fifo-NoError :
      (fresh : CommError) (p : Parsed json) (s s' : Worker)
      → IsAnswered p
      → server_responder json exec opens accepts spares twice true fresh p s ≡ some s'
      → s'.err.code ≡ 0
  unfolding server_responder
  fifo-NoError fresh p s s' k e =
      let start = post_status status_ok (record s { err = fresh }) in
      Always-some NoError _ s'
        (Always-then NoError NoError (dispatch json exec opens accepts spares twice true p start) _
          (dispatch-NoError p start k) (λ t h. finish-err t h))
        e
