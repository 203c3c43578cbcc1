-- ===== src/Client/Agreement.antt =====
-- A client of client/commands.c and the worker of server/main.c agree on the login.
use mathlib.Core.Path.{subst}
use itba_os_tp1_ipc_2016_q.Base.{
  ℕ, suc, ◌≡◌, ◌≢◌, refl, ◌∙◌, sym, ap, arith, Bool, true, false, List, [], ◌∷◌, ◌++◌, Option, none,
  some, Bytes, length, length-append, inl, inr, Bool-cases,
}
use itba_os_tp1_ipc_2016_q.Address.{Addr}
use itba_os_tp1_ipc_2016_q.Json.{Json}
use itba_os_tp1_ipc_2016_q.Serialization.Commands.{Message, User}
use itba_os_tp1_ipc_2016_q.Serialization.Parse.{Parsed}
use itba_os_tp1_ipc_2016_q.Serialization.RoundTrip.{received_as}
use itba_os_tp1_ipc_2016_q.Sql.Process.{Row}
use itba_os_tp1_ipc_2016_q.Sql.Helpers.{FsUser}
use itba_os_tp1_ipc_2016_q.Server.{
  CommError, Server, server_responder, status_ok, dispatch, post_status,
}
use itba_os_tp1_ipc_2016_q.Server.Frame.{KeepsUser, Always, user_kept, finish-user}
use itba_os_tp1_ipc_2016_q.Server.Answers.{IsAnswered, answered_once, finish-sent}
use itba_os_tp1_ipc_2016_q.Server.Login.{login_answer, login-Verdict, logout_user}
use itba_os_tp1_ipc_2016_q.Client.{ConnectionState, Peer, Client, Env, is_connection_open}
use itba_os_tp1_ipc_2016_q.Client.Parse.{Command, get, run_command}
use itba_os_tp1_ipc_2016_q.Server.Slots.{Slot, placed, maxed, fault, take_slot}
use itba_os_tp1_ipc_2016_q.Client.Link.{
  Link, fits_block, take_message, receive_message, deliver, worker_peer, Agree, Settled,
}
use itba_os_tp1_ipc_2016_q.Client.Exchange.{answers, peer, Ended, answered, exchanged}
use itba_os_tp1_ipc_2016_q.Client.Session.{login_of, Asks, Exchanged, Protocol}
use itba_os_tp1_ipc_2016_q.Client.Session.Kept.{session_kept}

Asks-Request :
    {json : Json} (m : Message json)
    → Asks m
    → KeepsUser (received_as json m) × IsAnswered (received_as json m)
Asks-Request (Message.int i) a = (tt, tt)
Asks-Request (Message.double d) a = (tt, tt)
Asks-Request (Message.string s) a = (tt, tt)
Asks-Request (Message.raw bytes size) a = absurd a
Asks-Request (Message.get_cmd cmd) a = (tt, tt)
Asks-Request (Message.post_cmd cmd) a = (tt, tt)
Asks-Request (Message.login_cmd user) a = absurd a
Asks-Request Message.logout_cmd a = absurd a
Asks-Request Message.close_cmd a = absurd a
Asks-Request (Message.new_user_cmd user) a = (tt, tt)
Asks-Request (Message.change_pass_cmd cmd) a = (tt, tt)

Agree-none : (u : Option FsUser) → Agree false u → u ≡ none
Agree-none none a = refl
Agree-none (some user) a = absurd a

Agree-some : (user : FsUser) (u : Option FsUser) → u ≡ some user → Agree true u
Agree-some user u e = subst (Agree true) (sym e) tt

module _ {json : Json} {Database : Type 0} where
  read_one :
      (read : ℕ) (s s' : Server json Database) (m : Message json)
      → read ≡ length s.sent
      → s'.sent ≡ s.sent ++ m ∷ []
      → suc read ≡ length s'.sent
  read_one read s s' m e h = omega (arith, e, ap (λ l. length l) h, length-append s.sent (m ∷ []))

module _ (json : Json) {Database : Type 0} (exec : Database → Bytes → List Row × Database)
    (opens : Bytes → Bool) (accepts : List ℕ) (spares : ℕ → ℕ → Bool)
    (twice : json.Double → json.Double) (fifo : Bool) (fresh : CommError) (max_threads : ℕ)
    (behind : Bytes → Bytes) (margin : Bytes → ℕ)
    (connect : Addr
      → Addr
      → ConnectionState
      → Link json Database
      → ℕ × ConnectionState × Link json Database) where
  abbrev our_peer : Peer json
  our_peer = peer json exec opens accepts spares twice fifo fresh max_threads behind margin connect

  abbrev Holds : Bool → Link json Database → Type 0
  Holds b l = Settled b l.read l.worker

  -- With the worker gone, nothing is left to agree on.
  gone_Settled : (b : Bool) (l : Link json Database) → l.worker ≡ none → Settled b l.read l.worker
  gone_Settled b l e = subst (Settled b l.read) (sym e) tt

  keeps_Asks :
      Ended behind
      → (m : Message json) → Asks m
      → (b : Bool) (l : Link json Database) → Holds b l
      → Exchanged our_peer (λ p. Holds b) (Holds b) m l
  unfolding deliver
  keeps_Asks z m a b l h =
      exchanged json exec opens accepts spares twice fifo fresh max_threads behind margin connect
        (λ p. Holds b) (Holds b) m l l.worker refl (λ p l e. gone_Settled b l e)
        (λ s s' slots w e.
          let (agree, all) : Settled b l.read (some s) = subst (Settled b l.read) w h in
          let (kept, one) = Asks-Request m a in
          let (m', added) =
            answered_once json exec opens accepts spares twice fifo fresh (received_as json m) s s'
              one e in
          let same =
            user_kept json exec opens accepts spares twice fifo fresh (received_as json m) s s' kept
              e in
          answered behind margin (λ p. Holds b) (Holds b)
            (record l { worker = some s'; slots = slots }) s s' m' z all added
            (subst (Agree b) (sym same) agree, read_one l.read s s' m' all added))

  verdict-Agree :
      (user now : Option FsUser)
      → now ≡ user
      → Agree (login_of (received_as json (login_answer json user))) now
  verdict-Agree none now e = subst (Agree false) (sym e) tt
  verdict-Agree (some user) now e = subst (Agree true) (sym e) tt

  logs_in :
      Ended behind
      → (user : User) (l : Link json Database) → Holds false l
      → Exchanged our_peer (λ p. Holds (login_of p)) (Holds false) (Message.login_cmd user) l
  unfolding deliver
  logs_in z user l h =
      exchanged json exec opens accepts spares twice fifo fresh max_threads behind margin connect
        (λ p. Holds (login_of p)) (Holds false) (Message.login_cmd user) l l.worker refl
        (λ p l e. gone_Settled (login_of p) l e)
        (λ s s' slots w e.
          let (agree, all) : Settled false l.read (some s) = subst (Settled false l.read) w h in
          let (found, v) =
            login-Verdict json exec opens accepts spares twice fifo fresh
              (record user { admin = 0 }) s s' (Agree-none s.user agree) e in
          answered behind margin (λ p. Holds (login_of p)) (Holds false)
            (record l { worker = some s'; slots = slots }) s s' (login_answer json found) z all
            v.answer
            (
              verdict-Agree found s'.user v.now,
              read_one l.read s s' (login_answer json found) all v.answer,
            ))

  logs_out :
      Ended behind
      → (l : Link json Database) → Holds true l
      → Exchanged our_peer (λ p. Holds false) (Holds true) Message.logout_cmd l
  unfolding deliver
  logs_out z l h =
      exchanged json exec opens accepts spares twice fifo fresh max_threads behind margin connect
        (λ p. Holds false) (Holds true) Message.logout_cmd l l.worker refl
        (λ p l e. gone_Settled false l e)
        (λ s s' slots w e.
          let (agree, all) : Settled true l.read (some s) = subst (Settled true l.read) w h in
          let (m', added) =
            answered_once json exec opens accepts spares twice fifo fresh Parsed.logout_cmd s s' tt
              e in
          let nobody = logout_user json exec opens accepts spares twice fifo fresh s s' e in
          answered behind margin (λ p. Holds false) (Holds true)
            (record l { worker = some s'; slots = slots }) s s' m' z all added
            (subst (Agree false) (sym nobody) tt, read_one l.read s s' m' all added))

  closed_by :
      (s : Server json Database) (l : Link json Database)
      → Settled false l.read (some s)
      → Settled false l.read (
          answers json exec opens accepts spares twice fifo fresh max_threads behind margin connect
            Message.close_cmd s)
  unfolding server_responder dispatch post_status
  closed_by s l h =
      let t : Server json Database = record s {
        err = fresh;
        statuses = s.statuses ++ status_ok ∷ [];
        closed = true;
      } in
      (
        subst (Agree false) (sym (finish-user json exec opens accepts spares twice fifo t)) h.0,
        h.1 ∙ sym (ap (λ l. length l) (finish-sent json exec opens accepts spares twice fifo t)),
      )

  closed :
      (l : Link json Database) (w : Option (Server json Database))
      → l.worker ≡ w
      → Settled false l.read w
      → Holds false (
          receive_message json exec opens accepts spares twice fifo fresh max_threads behind margin
            connect Message.close_cmd l w)
  unfolding receive_message take_message
  closed l none e h = gone_Settled false l e
  closed l (some s) e h =
      let close : Message json = Message.close_cmd in
      elim (Bool-cases (fits_block json margin close)) [
        | inr long ↦ rw long tt
        | inl fits ↦ rw fits (taken (take_slot max_threads l.slots))
      ]
    where
      taken :
          (slot : Slot)
          → Holds false (
              take_message json exec opens accepts spares twice fifo fresh max_threads behind margin
                connect Message.close_cmd l s slot)
      taken (placed slots) = closed_by s l h
      taken maxed = tt
      taken fault = tt

  keeps_protocol : Ended behind → Protocol our_peer Holds
  unfolding deliver
  keeps_protocol z = record {
    asks = keeps_Asks z;
    logs_in = logs_in z;
    logs_out = logs_out z;
    closes = λ l h. closed l l.worker refl h;
  }

  -- While the connection is open, no command but `get` makes the client and a worker that is still there
  -- disagree: if they agree on whether somebody is logged in and the client has read every answer, and
  -- the command ends, then so it is again, whatever was asked, refused or answered; or the worker is
  -- gone, since it has faulted, has received a message that does not fit its block, or had no place for
  -- one more thread, and nothing is said of what the client then believes. It is assumed that a zero
  -- byte follows the text of an answer of the kind `data`, which is copied without its terminator.
  pub agreement :
      (env : Env json) (command : Command) (argv : List Bytes)
      (c : Client json (
        worker_peer json exec opens accepts spares twice fifo fresh max_threads behind margin
          connect))
      → Ended behind
      → command ≢ get
      → is_connection_open c.state ≡ true
      → Settled c.logged c.other.read c.other.worker
      → Always
          (λ r. Settled r.1.logged r.1.other.read r.1.other.worker)
          (run_command env command argv c)
  agreement env command argv c z n e h =
      session_kept Holds (keeps_protocol z) env command argv c n e h
