-- ===== src/Server/Login.antt =====
-- The requests that change the session: process_login_cmd and process_logout_cmd of
-- server/responder.c.
use mathlib.Core.Path.{subst}
use itba_os_tp1_ipc_2016_q.Base.{
  ℕ, ◌≡◌, refl, ◌∙◌, sym, ap, arith, Bool, List, [], ◌∷◌, ◌++◌, Option, none, some, Bytes, codes,
  ◌>>=◌,
}
use itba_os_tp1_ipc_2016_q.Json.{Json}
use itba_os_tp1_ipc_2016_q.Serialization.Commands.{Message, User}
use itba_os_tp1_ipc_2016_q.Serialization.Parse.{Parsed}
use itba_os_tp1_ipc_2016_q.Sql.Process.{Row, Pipes}
use itba_os_tp1_ipc_2016_q.Sql.Helpers.{FsUser, user_identification_in_db}
use itba_os_tp1_ipc_2016_q.Server.{
  CommError, status_ok, Server, send, with_err, check_user_logged, identified, answer_login,
  process_login_cmd, process_logout_cmd, dispatch, post_status, finish, server_responder,
}
use itba_os_tp1_ipc_2016_q.Server.Frame.{Always, Always-bind, Always-then, Always-some, finish-user}
use itba_os_tp1_ipc_2016_q.Server.Answers.{finish-sent}

abbrev pub login_answer : (json : Json) → Option FsUser → Message json
login_answer json none = Message.raw (codes "Login failed") 12
login_answer json (some user) = Message.raw (codes "Logged in successfully") 22

-- What a login comes to: the answer says who is logged in behind it.
pub record Verdict {json : Json} {Database : Type 0} (sent : List (Message json))
    (user : Option FsUser) (s : Server json Database) : Type 0 where
  pub now : s.user ≡ user
  pub answer : s.sent ≡ sent ++ login_answer json user ∷ []

module _ (json : Json) {Database : Type 0} (exec : Database → Bytes → List Row × Database)
    (opens : Bytes → Bool) (accepts : List ℕ) (spares : ℕ → ℕ → Bool)
    (twice : json.Double → json.Double) (fifo : Bool) where
  abbrev Worker : Type 0
  Worker = Server json Database

  abbrev respond : CommError → Parsed json → Worker → Option Worker
  respond = server_responder json exec opens accepts spares twice fifo

  identified-Verdict :
      (user : Option FsUser) (s : Worker)
      → Verdict s.sent user (identified json exec opens accepts spares twice fifo user s)
  unfolding identified send with_err
  identified-Verdict none s = record { now = refl; answer = ground arith }
  identified-Verdict (some user) s = record { now = ground arith; answer = ground arith }

  finish-Verdict :
      (sent : List (Message json)) (user : Option FsUser) (s : Worker)
      → Verdict sent user s
      → Verdict sent user (finish s)
  finish-Verdict sent user s v = record {
    now = finish-user json exec opens accepts spares twice fifo s ∙ v.now;
    answer = finish-sent json exec opens accepts spares twice fifo s ∙ v.answer;
  }

  dispatch-login :
      (login : User) (s : Worker)
      → s.user ≡ none
      → dispatch json exec opens accepts spares twice fifo (Parsed.login_cmd login) s ≡ (
          user_identification_in_db exec login.username login.password s.pipes >>= λ r.
          some
            (identified json exec opens accepts spares twice fifo r.0 (record s { pipes = r.1 })))
  unfolding dispatch process_login_cmd answer_login
  dispatch-login login s e =
      ap (λ u. answer_login json exec opens accepts spares twice fifo u login s) e

  -- A login of nobody yet: the worker faults, or the user that it finds in the database is logged in,
  -- and the answer says whether there is one.
  pub login-Verdict :
      (fresh : CommError) (login : User) (s s' : Worker)
      → s.user ≡ none
      → respond fresh (Parsed.login_cmd login) s ≡ some s'
      → (user : Option FsUser) × Verdict s.sent user s'
  unfolding server_responder
  login-Verdict fresh login s s' e r =
      let start = post_status status_ok (record s { err = fresh }) in
      let P : Worker → Type 0 = λ t. (user : Option FsUser) × Verdict s.sent user t in
      let found = user_identification_in_db exec login.username login.password start.pipes in
      Always-some P _ s'
        (Always-then P P
          (dispatch json exec opens accepts spares twice fifo (Parsed.login_cmd login) start) _
          (subst (Always P) (sym (dispatch-login login start (unfold post_status in e))) (
            Always-bind P found _ (λ q. (
              q.0,
              (unfold post_status in
                  identified-Verdict q.0 (record s {
                    pipes = q.1;
                    err = fresh;
                    statuses = s.statuses ++ status_ok ∷ [];
                  })),
            ))))
          (λ t h. (h.0, finish-Verdict s.sent h.0 t h.1)))
        r

  -- With the answer of the database there is one of the worker.
  pub login_found :
      (fresh : CommError) (login : User) (s : Worker) (user : Option FsUser)
      (pipes : Pipes Database)
      → s.user ≡ none
      → user_identification_in_db exec login.username login.password s.pipes ≡ some (user, pipes)
      → (s' : Worker) × (respond fresh (Parsed.login_cmd login) s ≡ some s')
        × Verdict s.sent user s'
  unfolding server_responder
  login_found fresh login s user pipes e q =
      let start : Worker = record s { err = fresh; statuses = s.statuses ++ status_ok ∷ [] } in
      let after : Worker =
        identified json exec opens accepts spares twice fifo user
          (record start { pipes = pipes }) in
      let step : dispatch json exec opens accepts spares twice fifo (Parsed.login_cmd login) start
          ≡ some after =
        dispatch-login login start e
        ∙ ap
            (λ o. o >>= λ r. some (
              identified json exec opens accepts spares twice fifo r.0
                (record start { pipes = r.1 })))
            q in
      (
        finish after,
        (unfold post_status in ap (λ o. o >>= λ t. some (finish t)) step),
        finish-Verdict s.sent user after (identified-Verdict user (record start { pipes = pipes })),
      )

  abbrev LoggedOut : Worker → Type 0
  LoggedOut s = s.user ≡ none

  check-LoggedOut :
      (u : Option FsUser) (s : Worker)
      → s.user ≡ u
      → Always LoggedOut (
          check_user_logged fifo u
            (λ user s.
              some
                (record (send fifo
                  (Message.raw (codes "Log out successful") 18)
                  (with_err 0 (codes "OK") s)) { user = none }))
            s)
  unfolding check_user_logged send with_err
  check-LoggedOut none s e = ground (arith, e)
  check-LoggedOut (some user) s e = refl

  dispatch-LoggedOut :
      (s : Worker)
      → Always LoggedOut (dispatch json exec opens accepts spares twice fifo Parsed.logout_cmd s)
  unfolding dispatch process_logout_cmd
  dispatch-LoggedOut s = check-LoggedOut s.user s refl

  -- A logout leaves nobody logged in.
  pub logout_user :
      (fresh : CommError) (s s' : Worker)
      → respond fresh Parsed.logout_cmd s ≡ some s'
      → s'.user ≡ none
  unfolding server_responder
  logout_user fresh s s' r =
      let start = post_status status_ok (record s { err = fresh }) in
      Always-some LoggedOut _ s'
        (Always-then LoggedOut LoggedOut
          (dispatch json exec opens accepts spares twice fifo Parsed.logout_cmd start) _
          (dispatch-LoggedOut start)
          (λ t h. finish-user json exec opens accepts spares twice fifo t ∙ h))
        r
