-- ===== src/Server/Frame.antt =====
-- server_responder of server/main.c and the session: the handlers of server/responder.c that do not
-- log in or out.
use mathlib.Core.Path.{subst}
use itba_os_tp1_ipc_2016_q.Base.{
  ℕ, ◌≡◌, refl, ◌∙◌, arith, inl, inr, Bool, Bool-cases, true, false, List, [], ◌∷◌, ◌++◌, Option,
  none, some, Bytes, codes, ◌==◌, leb, length, ◌>>=◌,
}
use itba_os_tp1_ipc_2016_q.FileUtils.{decode_in_memory, file_from_raw_data, raw_data_from_file}
use itba_os_tp1_ipc_2016_q.Json.{Json}
use itba_os_tp1_ipc_2016_q.Serialization.Commands.{Message, CommandPost, User}
use itba_os_tp1_ipc_2016_q.Serialization.Parse.{Parsed}
use itba_os_tp1_ipc_2016_q.Sql.Process.{Row}
use itba_os_tp1_ipc_2016_q.Sql.Helpers.{
  FsUser, ask_for_file_to_db, insert_alias_in_db, user_in_db, new_user_in_db, update_pass_in_db,
}
use itba_os_tp1_ipc_2016_q.Server.{
  CommError, status_ok, Server, send, with_err, check_user_logged, write_file, store_file,
  post_file, get_file, add_user, process_get_cmd, process_post_cmd, process_new_user_cmd,
  process_change_pass_cmd, dispatch, post_status, finish, server_responder,
}

-- A result that has a property, if there is one.
abbrev pub Always : {B : Type 0} → (B → Type 0) → Option B → Type 0
Always P none = Unit
Always P (some b) = P b

module _ {A B : Type 0} where
  pub Always-bind :
      (P : B → Type 0) (o : Option A) (f : A → Option B)
      → ((a : A) → Always P (f a))
      → Always P (o >>= f)
  Always-bind P none f h = tt
  Always-bind P (some a) f h = h a

  pub Always-then :
      (P : A → Type 0) (Q : B → Type 0) (o : Option A) (f : A → Option B)
      → Always P o
      → ((a : A) → P a → Always Q (f a))
      → Always Q (o >>= f)
  Always-then P Q none f o h = tt
  Always-then P Q (some a) f o h = h a o

pub Always-some :
    {B : Type 0} (P : B → Type 0) (o : Option B) (b : B) → Always P o → o ≡ some b → P b
Always-some P o b h e = subst (Always P) e h

-- The requests that leave the session as it is: all but login and logout.
abbrev pub KeepsUser : {json : Json} → Parsed json → Type 0
KeepsUser (Parsed.login_cmd user) = ⊥
KeepsUser Parsed.logout_cmd = ⊥
KeepsUser (Parsed.int i) = Unit
KeepsUser (Parsed.double d) = Unit
KeepsUser (Parsed.string s) = Unit
KeepsUser (Parsed.raw s) = Unit
KeepsUser (Parsed.get_cmd cmd) = Unit
KeepsUser (Parsed.post_cmd cmd) = Unit
KeepsUser Parsed.close_cmd = Unit
KeepsUser (Parsed.new_user_cmd user) = Unit
KeepsUser (Parsed.change_pass_cmd cmd) = Unit
KeepsUser (Parsed.unknown kind) = Unit

module _ (json : Json) {Database : Type 0} (exec : Database → Bytes → List Row × Database)
    (opens : Bytes → Bool) (accepts : List ℕ) (spares : ℕ → ℕ → Bool)
    (twice : json.Double → json.Double) (fifo : Bool) where
  abbrev Worker : Type 0
  Worker = Server json Database

  -- Whose user is this one.
  abbrev HasUser : Option FsUser → Worker → Type 0
  HasUser u s = s.user ≡ u

  send-user : (m : Message json) (s : Worker) → (send fifo m s).user ≡ s.user
  unfolding send with_err
  send-user m s = ground arith

  answer-user :
      (m : Message json) (code : ℕ) (msg : Bytes) (s : Worker)
      → (send fifo m (with_err code msg s)).user ≡ s.user
  answer-user m code msg s = send-user m (with_err code msg s) ∙ (unfold with_err in refl)

  check-user :
      (u : Option FsUser) (handler : FsUser → Worker → Option Worker) (s : Worker)
      → ((user : FsUser) → Always (HasUser s.user) (handler user s))
      → Always (HasUser s.user) (check_user_logged fifo u handler s)
  unfolding check_user_logged
  check-user none handler s h = answer-user _ 6004 (codes "NOT logged") s
  check-user (some user) handler s h = h user

  get_file-user :
      (path : Option Bytes) (s : Worker)
      → Always (HasUser s.user) (get_file json exec opens accepts spares twice fifo path s)
  unfolding get_file
  get_file-user none s = answer-user _ 6000 (codes "FILE IS NOT IN DB") s
  get_file-user (some path) s =
      Always-bind (HasUser s.user) (raw_data_from_file s.files (codes "." ++ path)) _
        (λ r. unfold with_err in send-user (Message.raw _ r.1) s)

  write_file-user :
      (path bytes : Bytes) (size : ℕ) (s : Worker)
      → Always
          (HasUser s.user)
          (write_file json exec opens accepts spares twice fifo path bytes size s)
  unfolding write_file
  write_file-user path bytes size s = elim (Bool-cases (opens path)) [
    | inl t ↦
        rw t (Always-bind (HasUser s.user) (file_from_raw_data accepts bytes size) _ (λ r. refl))
    | inr f ↦ rw f refl
  ]

  store_file-user :
      (post : CommandPost) (user : FsUser) (s : Worker)
      → Always (HasUser s.user) (store_file json exec opens accepts spares twice fifo post user s)
  unfolding store_file
  store_file-user post user s =
      Always-bind (HasUser s.user) (decode_in_memory spares post.contents) _ (λ d.
        elim (Bool-cases (leb post.size (length d.cells))) [
          | inl t ↦ rw t (write_file-user _ d.cells post.size s)
          | inr f ↦ rw f tt
        ])

  post_file-user :
      (post : CommandPost) (user : FsUser) (path : Option Bytes) (s : Worker)
      → Always
          (HasUser s.user)
          (post_file json exec opens accepts spares twice fifo post user path s)
  unfolding post_file
  post_file-user post user (some path) s = answer-user _ 6006 (codes "FILE EXISTS") s
  post_file-user post user none s =
      Always-bind (HasUser s.user) (insert_alias_in_db exec post.dest user s.pipes) _ (λ r.
        Always-then (HasUser s.user) (HasUser s.user)
          (store_file json exec opens accepts spares twice fifo post user
            (record s { pipes = r.1 }))
          _ (store_file-user post user (record s { pipes = r.1 }))
          (λ s' e. answer-user _ 0 (codes "OK") s' ∙ e))

  add_user-user :
      (new_user : User) (there : Bool) (s : Worker)
      → Always
          (HasUser s.user)
          (add_user json exec opens accepts spares twice fifo new_user there s)
  unfolding add_user
  add_user-user new_user true s = answer-user _ 6005 (codes "User already exists") s
  add_user-user new_user false s =
      Always-bind (HasUser s.user) (new_user_in_db exec new_user s.pipes) _ (λ r.
        answer-user _ 0 (codes "OK") (record s {
          pipes = r.1;
          folders = s.folders ++ (codes "./fs/" ++ new_user.username) ∷ [];
        }))

  dispatch-user :
      (p : Parsed json) (s : Worker)
      → KeepsUser p
      → Always (HasUser s.user) (dispatch json exec opens accepts spares twice fifo p s)
  unfolding dispatch process_get_cmd process_post_cmd process_new_user_cmd process_change_pass_cmd
  dispatch-user (Parsed.int i) s k = send-user _ s
  dispatch-user (Parsed.double d) s k = send-user _ s
  dispatch-user (Parsed.string str) s k = elim (Bool-cases (leb 2 (length str))) [
    | inl t ↦ rw t (send-user _ s)
    | inr f ↦ rw f tt
  ]
  dispatch-user (Parsed.raw str) s k = refl
  dispatch-user (Parsed.get_cmd cmd) s k = check-user s.user _ s (λ user.
      Always-bind (HasUser s.user) (ask_for_file_to_db exec cmd.path user s.pipes) _
        (λ r. get_file-user r.0 (record s { pipes = r.1 })))
  dispatch-user (Parsed.post_cmd cmd) s k = check-user s.user _ s (λ user.
      Always-bind (HasUser s.user) (ask_for_file_to_db exec cmd.dest user s.pipes) _
        (λ r. post_file-user cmd user r.0 (record s { pipes = r.1 })))
  dispatch-user (Parsed.login_cmd user) s k = absurd k
  dispatch-user Parsed.logout_cmd s k = absurd k
  dispatch-user Parsed.close_cmd s k = refl
  dispatch-user (Parsed.new_user_cmd new_user) s k = check-user s.user _ s (λ user.
      elim (Bool-cases (user.is_admin == 0)) [
        | inl t ↦ rw t (answer-user _ 6003 (codes "HAVE NOT PERMISION") s)
        | inr f ↦ rw f (
            Always-bind (HasUser s.user) (user_in_db exec new_user.username s.pipes) _
              (λ r. add_user-user new_user r.0 (record s { pipes = r.1 })))
      ])
  dispatch-user (Parsed.change_pass_cmd cmd) s k = check-user s.user _ s (λ user.
      Always-bind (HasUser s.user) (update_pass_in_db exec user cmd.pass s.pipes) _
        (λ r. answer-user _ 0 (codes "OK") (record s { pipes = r.1 })))
  dispatch-user (Parsed.unknown kind) s k = refl

  pub finish-user : (s : Worker) → (finish s).user ≡ s.user
  unfolding finish post_status
  finish-user s = ground arith

  -- No request but a login or a logout changes who is logged in, whatever it is answered.
  pub user_kept :
      (fresh : CommError) (p : Parsed json) (s s' : Worker)
      → KeepsUser p
      → server_responder json exec opens accepts spares twice fifo fresh p s ≡ some s'
      → s'.user ≡ s.user
  unfolding server_responder
  user_kept fresh p s s' k e =
      let start = post_status status_ok (record s { err = fresh }) in
      let keep : start.user ≡ s.user = unfold post_status in refl in
      Always-some (HasUser s.user) _ s'
        (Always-then (HasUser start.user) (HasUser s.user)
          (dispatch json exec opens accepts spares twice fifo p start) _ (dispatch-user p start k)
          (λ t h. finish-user t ∙ h ∙ keep))
        e
