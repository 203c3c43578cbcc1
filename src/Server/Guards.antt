-- ===== src/Server/Guards.antt =====
-- The requests that server/responder.c refuses.
use itba_os_tp1_ipc_2016_q.Base.{
  ℕ, ◌+◌, ◌≡◌, refl, ap, arith, Bool, List, [], ◌∷◌, ◌++◌, append_assoc, Option, none, some, Bytes,
  codes, if◌then◌else◌,
}
use itba_os_tp1_ipc_2016_q.Json.{Json}
use itba_os_tp1_ipc_2016_q.Serialization.Commands.{Message, User}
use itba_os_tp1_ipc_2016_q.Serialization.Parse.{Parsed}
use itba_os_tp1_ipc_2016_q.Sql.Process.{Row}
use itba_os_tp1_ipc_2016_q.Sql.Helpers.{FsUser}
use itba_os_tp1_ipc_2016_q.Server.{
  CommError, status_ok, status_error, status_down, Server, send, with_err, check_user_logged,
  process_get_cmd, process_post_cmd, process_logout_cmd, process_new_user_cmd,
  process_change_pass_cmd, dispatch, post_status, finish, server_responder,
}

-- The requests that only a user who is logged in may make.
abbrev pub NeedsUser : {json : Json} → Parsed json → Type 0
NeedsUser (Parsed.get_cmd cmd) = Unit
NeedsUser (Parsed.post_cmd cmd) = Unit
NeedsUser Parsed.logout_cmd = Unit
NeedsUser (Parsed.new_user_cmd user) = Unit
NeedsUser (Parsed.change_pass_cmd cmd) = Unit
NeedsUser (Parsed.int i) = ⊥
NeedsUser (Parsed.double d) = ⊥
NeedsUser (Parsed.string s) = ⊥
NeedsUser (Parsed.raw s) = ⊥
NeedsUser (Parsed.login_cmd user) = ⊥
NeedsUser Parsed.close_cmd = ⊥
NeedsUser (Parsed.unknown kind) = ⊥

module _ (json : Json) {Database : Type 0} (exec : Database → Bytes → List Row × Database)
    (opens : Bytes → Bool) (accepts : List ℕ) (spares : ℕ → ℕ → Bool)
    (twice : json.Double → json.Double) (fifo : Bool) where
  -- The worker after a refusal: only the answer, the error and the statuses are new.
  abbrev pub refused : Bytes → ℕ → ℕ → Server json Database → Server json Database
  refused text size code s = record s {
    sent = s.sent ++ Message.raw text size ∷ [];
    err =
        if fifo then record { code = 0; msg = codes "OK" } else record { code = code; msg = text };
    statuses =
        s.statuses
        ++ (if fifo
            then status_ok ∷ status_down ∷ []
            else status_ok ∷ status_error ∷ status_down ∷ []);
  }

  abbrev respond : CommError → Parsed json → Server json Database → Option (Server json Database)
  respond = server_responder json exec opens accepts spares twice fifo

  dispatch-none :
      (p : Parsed json) (s : Server json Database)
      → s.user ≡ none
      → NeedsUser p
      → dispatch json exec opens accepts spares twice fifo p s
        ≡ some
            (send fifo (Message.raw (codes "NOT logged") 10) (with_err 6004 (codes "NOT logged") s))
  unfolding dispatch process_get_cmd process_post_cmd process_logout_cmd process_new_user_cmd
      process_change_pass_cmd check_user_logged
  dispatch-none (Parsed.get_cmd cmd) s e n = rw e refl
  dispatch-none (Parsed.post_cmd cmd) s e n = rw e refl
  dispatch-none Parsed.logout_cmd s e n = rw e refl
  dispatch-none (Parsed.new_user_cmd user) s e n = rw e refl
  dispatch-none (Parsed.change_pass_cmd cmd) s e n = rw e refl
  dispatch-none (Parsed.int i) s e n = absurd n
  dispatch-none (Parsed.double d) s e n = absurd n
  dispatch-none (Parsed.string str) s e n = absurd n
  dispatch-none (Parsed.raw str) s e n = absurd n
  dispatch-none (Parsed.login_cmd user) s e n = absurd n
  dispatch-none Parsed.close_cmd s e n = absurd n
  dispatch-none (Parsed.unknown kind) s e n = absurd n

  finish-refused :
      (fresh : CommError) (text : Bytes) (size code : ℕ) (s : Server json Database)
      → finish (
          send fifo
            (Message.raw text size)
            (with_err (code + 1) text (post_status status_ok (record s { err = fresh }))))
        ≡ refused text size (code + 1) s
  unfolding finish send with_err post_status
  finish-refused fresh text size code s = ground (
    arith,
    append_assoc s.statuses (status_ok ∷ []) (status_down ∷ []),
    append_assoc s.statuses (status_ok ∷ status_error ∷ []) (status_down ∷ []),
    append_assoc s.statuses (status_ok ∷ []) (status_error ∷ []),
  )

  -- With no user logged in, whoever asks for a file, stores one, logs out, makes a user or changes a
  -- password gets the answer `NOT logged`, and nothing else of the worker changes but the error and the
  -- statuses: neither the database nor the files. Over FIFOs the error is reset by the answer, so that
  -- no error is posted.
  pub not_logged :
      (fresh : CommError) (p : Parsed json) (s : Server json Database)
      → s.user ≡ none
      → NeedsUser p
      → respond fresh p s ≡ some (refused (codes "NOT logged") 10 6004 s)
  unfolding server_responder
  not_logged fresh p s e n =
      rw
        (dispatch-none p (post_status status_ok (record s { err = fresh }))
          (unfold post_status in e) n)
        (ap (λ t. some t) (finish-refused fresh (codes "NOT logged") 10 6003 s))

  dispatch-not_permitted :
      (new_user : User) (user : FsUser) (s : Server json Database)
      → s.user ≡ some user
      → user.is_admin ≡ 0
      → dispatch json exec opens accepts spares twice fifo (Parsed.new_user_cmd new_user) s
        ≡ some (
            send fifo
              (Message.raw (codes "HAVE NOT PERMISION") 10)
              (with_err 6003 (codes "HAVE NOT PERMISION") s))
  unfolding dispatch process_new_user_cmd check_user_logged
  dispatch-not_permitted new_user user s e z = rw (e, z) refl

  -- A user who is no administrator and asks for a new user gets the answer that this is not allowed
  -- (of which 10 bytes count), and nothing else changes but the error and the statuses: no user is
  -- made and no folder.
  pub not_permitted :
      (fresh : CommError) (new_user : User) (user : FsUser) (s : Server json Database)
      → s.user ≡ some user
      → user.is_admin ≡ 0
      → respond fresh (Parsed.new_user_cmd new_user) s
        ≡ some (refused (codes "HAVE NOT PERMISION") 10 6003 s)
  unfolding server_responder
  not_permitted fresh new_user user s e z =
      rw
        (dispatch-not_permitted new_user user (post_status status_ok (record s { err = fresh }))
          (unfold post_status in e) z)
        (ap (λ t. some t) (finish-refused fresh (codes "HAVE NOT PERMISION") 10 6002 s))
