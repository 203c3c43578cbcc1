-- ===== src/Client/Session.antt =====
-- The session of a client of client/commands.c: what its commands keep, for another side that keeps to a
-- protocol.
pub mod Shown
pub mod Kept
use mathlib.Core.Path.{subst}
use itba_os_tp1_ipc_2016_q.Base.{
  ℕ, zero, suc, ◌≡◌, ◌≢◌, refl, ◌∙◌, sym, ap, inl, inr, Bool, Bool-cases, true, false, List, [],
  ◌∷◌, ◌++◌, Option, none, some, Bytes, codes, ◌==◌, if◌then◌else◌, str_eq,
}
use itba_os_tp1_ipc_2016_q.FileUtils.{raw_data_from_file, encode_raw_data}
use itba_os_tp1_ipc_2016_q.Json.{Json}
use itba_os_tp1_ipc_2016_q.Serialization.Commands.{Message, User}
use itba_os_tp1_ipc_2016_q.Serialization.Parse.{Parsed}
use itba_os_tp1_ipc_2016_q.Server.Frame.{Always}
use itba_os_tp1_ipc_2016_q.Client.{
  Reply, reply, failed, stuck, Peer, Client, Outcome, Info, Env, Line, says, send_failed,
  is_connection_open, print, refuse, wrong_use, asks_help, unless_help, when_open, when_logged,
  connected, for_user, with_one, with_two, with_none, after_send, after_receive, exchange, done,
  show_data,
}
use itba_os_tp1_ipc_2016_q.Client.Commands.{
  show_int, show_double, show_string, post_file, logged_in, logged_out, make_user, new_user_args,
  admin_flag, cmd_open, cmd_close, cmd_sendi, cmd_sendd, cmd_sends, cmd_get, cmd_post, cmd_login,
  cmd_logout, cmd_new_user, cmd_change_pass,
}
use itba_os_tp1_ipc_2016_q.Client.Parse.{
  Command, open_, close, sendi, sendd, sends, help, get, post, login, logout, commands, newuser,
  ch_pass, info_of, run_command,
}
use itba_os_tp1_ipc_2016_q.Client.Guards.{help-Quiet, commands-Quiet}
use itba_os_tp1_ipc_2016_q.Client.Quiet.{Quiet}

-- What an answer to a login makes of `logged`.
abbrev pub login_of : {json : Json} → Parsed json → Bool
login_of (Parsed.raw bytes) = if str_eq (codes "Login failed") bytes then false else true
login_of (Parsed.int i) = true
login_of (Parsed.double d) = true
login_of (Parsed.string s) = true
login_of (Parsed.get_cmd cmd) = true
login_of (Parsed.post_cmd cmd) = true
login_of (Parsed.login_cmd user) = true
login_of Parsed.logout_cmd = true
login_of Parsed.close_cmd = true
login_of (Parsed.new_user_cmd user) = true
login_of (Parsed.change_pass_cmd cmd) = true
login_of (Parsed.unknown kind) = true

-- The messages that ask for an answer and leave the session as it is.
abbrev pub Asks : {json : Json} → Message json → Type 0
Asks (Message.int i) = Unit
Asks (Message.double d) = Unit
Asks (Message.string s) = Unit
Asks (Message.raw bytes size) = ⊥
Asks (Message.get_cmd cmd) = Unit
Asks (Message.post_cmd cmd) = Unit
Asks (Message.login_cmd user) = ⊥
Asks Message.logout_cmd = ⊥
Asks Message.close_cmd = ⊥
Asks (Message.new_user_cmd user) = Unit
Asks (Message.change_pass_cmd cmd) = Unit

-- What holds of an answer and the other side behind it, or of the other side behind an error.
abbrev pub After :
    {json : Json} {State : Type 0}
    → (Parsed json → State → Type 0)
    → (State → Type 0)
    → Reply json State
    → Type 0
After P Q (reply presult other) = P presult other
After P Q (failed code other) = Q other
After P Q stuck = Unit

module _ {json : Json} (peer : Peer json) where
  -- The same of a message and its answer.
  abbrev pub Exchanged :
      (Parsed json → peer.State → Type 0)
      → (peer.State → Type 0)
      → Message json
      → peer.State
      → Type 0
  Exchanged P Q m l =
      let (code, l') = peer.send m l in (if code == 0 then After P Q (peer.receive l') else Q l')

  -- A predicate on `logged` and the other side, and what the other side does with a message: a request
  -- keeps it, a login and a logout change both sides alike.
  pub record Protocol (Holds : Bool → peer.State → Type 0) : Type 0 where
    pub asks :
        (m : Message json)
        → Asks m
        → (b : Bool) (l : peer.State) → Holds b l
        → Exchanged (λ p. Holds b) (Holds b) m l
    pub logs_in :
        (user : User) (l : peer.State)
        → Holds false l
        → Exchanged (λ p. Holds (login_of p)) (Holds false) (Message.login_cmd user) l
    pub logs_out :
        (l : peer.State)
        → Holds true l
        → Exchanged (λ p. Holds false) (Holds true) Message.logout_cmd l
    pub closes : (l : peer.State) → Holds false l → Holds false (peer.send Message.close_cmd l).1

if-Always :
    {A : Type 0} (R : A → Type 0) (P Q : Type 0) (b : Bool) (x y : Option A)
    → (P → Always R x)
    → (Q → Always R y)
    → (if b then P else Q)
    → Always R (if b then x else y)
if-Always R P Q true x y f g h = f h
if-Always R P Q false x y f g h = g h

module _ {json : Json} {peer : Peer json} (Holds : Bool → peer.State → Type 0) where
  abbrev pub InStep : Client json peer → Type 0
  InStep c = Holds c.logged c.other

  -- If a command ends, it holds still.
  abbrev pub Keeps : Outcome json peer → Type 0
  Keeps o = Always (λ r. InStep r.1) o

  pub refuse-Keeps :
      (code : ℕ) (msg : Bytes) (c : Client json peer) → InStep c → Keeps (refuse code msg c)
  unfolding refuse print
  refuse-Keeps code msg c h = h

  pub wrong_use-Keeps :
      (code : ℕ) (info : Info) (c : Client json peer) → InStep c → Keeps (wrong_use code info c)
  unfolding wrong_use
  wrong_use-Keeps code info c h = refuse-Keeps code (codes "Correct use: " ++ info.correct_use) c h

  pub connected-Keeps :
      (info : Info) (argv : List Bytes) (command : Client json peer → Outcome json peer)
      (c : Client json peer)
      → InStep c
      → Keeps (command c)
      → Keeps (connected info argv command c)
  unfolding connected unless_help when_open print
  connected-Keeps info argv command c h k = elim (Bool-cases (asks_help argv)) [
    | inl t ↦ rw t h
    | inr f ↦ rw f (elim (Bool-cases (is_connection_open c.state)) [
      | inl t ↦ rw t k
      | inr g ↦ rw g (refuse-Keeps 102 (codes "Please open connection first") c h)
    ])
  ]

  pub when_logged-Keeps :
      (wanted : Bool) (code : ℕ) (msg : Bytes) (command : Client json peer → Outcome json peer)
      (c : Client json peer)
      → InStep c
      → (c.logged ≡ wanted → Keeps (command c))
      → Keeps (when_logged wanted code msg command c)
  unfolding when_logged
  when_logged-Keeps true code msg command c h k = elim (Bool-cases c.logged) [
    | inl t ↦ subst (λ b. Keeps (if b then command c else refuse code msg c)) (sym t) (k t)
    | inr f ↦
        subst (λ b. Keeps (if b then command c else refuse code msg c)) (sym f)
          (refuse-Keeps code msg c h)
  ]
  when_logged-Keeps false code msg command c h k = elim (Bool-cases c.logged) [
    | inl t ↦
        subst (λ b. Keeps (if b then refuse code msg c else command c)) (sym t)
          (refuse-Keeps code msg c h)
    | inr f ↦ subst (λ b. Keeps (if b then refuse code msg c else command c)) (sym f) (k f)
  ]

  pub with_one-Keeps :
      (info : Info) (argv : List Bytes) (command : Bytes → Client json peer → Outcome json peer)
      (c : Client json peer)
      → InStep c
      → ((arg : Bytes) → Keeps (command arg c))
      → Keeps (with_one info argv command c)
  unfolding with_one
  with_one-Keeps info [] command c h k = wrong_use-Keeps 103 info c h
  with_one-Keeps info (arg ∷ []) command c h k = k arg
  with_one-Keeps info (arg ∷ brg ∷ argv) command c h k = wrong_use-Keeps 103 info c h

  pub with_two-Keeps :
      (info : Info) (argv : List Bytes)
      (command : Bytes → Bytes → Client json peer → Outcome json peer) (c : Client json peer)
      → InStep c
      → ((arg brg : Bytes) → Keeps (command arg brg c))
      → Keeps (with_two info argv command c)
  unfolding with_two
  with_two-Keeps info [] command c h k = wrong_use-Keeps 103 info c h
  with_two-Keeps info (arg ∷ []) command c h k = wrong_use-Keeps 103 info c h
  with_two-Keeps info (arg ∷ brg ∷ []) command c h k = k arg brg
  with_two-Keeps info (arg ∷ brg ∷ crg ∷ argv) command c h k = wrong_use-Keeps 103 info c h

  pub with_none-Keeps :
      (info : Info) (argv : List Bytes) (command : Client json peer → Outcome json peer)
      (c : Client json peer)
      → InStep c
      → Keeps (command c)
      → Keeps (with_none info argv command c)
  unfolding with_none
  with_none-Keeps info [] command c h k = k
  with_none-Keeps info (arg ∷ argv) command c h k = wrong_use-Keeps 103 info c h

  pub after_receive-Keeps :
      (P : Parsed json → peer.State → Type 0) (r : Reply json peer.State)
      (next : Parsed json → Client json peer → Outcome json peer) (c : Client json peer)
      → ((p : Parsed json) (l : peer.State) → P p l → Keeps (next p (record c { other = l })))
      → After P (Holds c.logged) r
      → Keeps (after_receive next c r)
  unfolding after_receive print
  after_receive-Keeps P (reply p l) next c k h = k p l h
  after_receive-Keeps P (failed code l) next c k h = h
  after_receive-Keeps P stuck next c k h = tt

  pub exchange-Keeps :
      (P : Parsed json → peer.State → Type 0) (m : Message json)
      (next : Parsed json → Client json peer → Outcome json peer) (c : Client json peer)
      → ((p : Parsed json) (l : peer.State) → P p l → Keeps (next p (record c { other = l })))
      → Exchanged peer P (Holds c.logged) m c.other
      → Keeps (exchange m next c)
  unfolding exchange after_send print
  exchange-Keeps P m next c k h =
      let (code, l') = peer.send m c.other in
      if-Always (λ r. InStep r.1) (After P (Holds c.logged) (peer.receive l')) (Holds c.logged l')
        (code == 0) (after_receive next (record c { other = l' }) (peer.receive l'))
        (some (code, print (send_failed code) (record c { other = l' })))
        (after_receive-Keeps P (peer.receive l') next (record c { other = l' }) k) (λ q. q) h
