-- ===== src/Client/Session/Kept.antt =====
-- The commands of client/commands.c keep what holds of the client and of another side with the protocol.
use mathlib.Core.Path.{subst}
use itba_os_tp1_ipc_2016_q.Base.{
  ℕ, ◌≡◌, ◌≢◌, refl, sym, inl, inr, Bool, Bool-cases, true, false, List, [], ◌∷◌, Option, none,
  some, Bytes, codes, ◌==◌,
}
use itba_os_tp1_ipc_2016_q.FileUtils.{raw_data_from_file, encode_raw_data}
use itba_os_tp1_ipc_2016_q.Json.{Json}
use itba_os_tp1_ipc_2016_q.Serialization.Commands.{Message, User}
use itba_os_tp1_ipc_2016_q.Serialization.Parse.{Parsed}
use itba_os_tp1_ipc_2016_q.Client.{
  Peer, Client, Outcome, Info, Env, is_connection_open, print, asks_help, unless_help, when_logged,
  connected, for_user, with_one, with_two, with_none, after_send, exchange, done,
}
use itba_os_tp1_ipc_2016_q.Client.Commands.{
  show_int, show_double, show_string, post_file, logged_in, logged_out, make_user, new_user_args,
  admin_flag, cmd_open, cmd_close, cmd_sendi, cmd_sendd, cmd_sends, cmd_post, cmd_login, cmd_logout,
  cmd_new_user, cmd_change_pass,
}
use itba_os_tp1_ipc_2016_q.Client.Parse.{
  Command, open_, close, sendi, sendd, sends, help, get, post, login, logout, commands, newuser,
  ch_pass, info_of, run_command,
}
use itba_os_tp1_ipc_2016_q.Client.Guards.{help-Quiet, commands-Quiet}
use itba_os_tp1_ipc_2016_q.Client.Quiet.{Quiet}
use itba_os_tp1_ipc_2016_q.Client.Session.{
  login_of, Asks, Exchanged, Protocol, InStep, Keeps, refuse-Keeps, wrong_use-Keeps,
  connected-Keeps, when_logged-Keeps, with_one-Keeps, with_two-Keeps, with_none-Keeps,
  exchange-Keeps,
}
use itba_os_tp1_ipc_2016_q.Client.Session.Shown.{
  done-Keeps, logged_out-Keeps, logged_in-Keeps, show_int-Keeps, show_double-Keeps,
  show_string-Keeps,
}

module _ {json : Json} {peer : Peer json} (Holds : Bool → peer.State → Type 0)
    (protocol : Protocol peer Holds) where
  asked-Keeps :
      (m : Message json) (next : Parsed json → Client json peer → Outcome json peer)
      (c : Client json peer)
      → Asks m
      → ((p : Parsed json) (c' : Client json peer) → InStep Holds c' → Keeps Holds (next p c'))
      → InStep Holds c
      → Keeps Holds (exchange m next c)
  asked-Keeps m next c a k h =
      exchange-Keeps Holds (λ p. Holds c.logged) m next c (λ p l i. k p (record c { other = l }) i)
        (protocol.asks m a c.logged c.other h)

  post_file-Keeps :
      (env : Env json) (dest : Bytes) (file : Option (Bytes × ℕ)) (c : Client json peer)
      → InStep Holds c
      → Keeps Holds (post_file env dest file c)
  unfolding post_file
  post_file-Keeps env dest none c h = refuse-Keeps Holds 9000 (codes "Cant open file") c h
  post_file-Keeps env dest (some (bytes, size)) c h =
      asked-Keeps
        (Message.post_cmd (record { contents = encode_raw_data bytes; dest = dest; size = size }))
        done c tt (done-Keeps Holds) h

  make_user-Keeps :
      (env : Env json) (info : Info) (name : Bytes) (admin : Option ℕ) (pass : Bytes)
      (c : Client json peer)
      → InStep Holds c
      → Keeps Holds (make_user env info name admin pass c)
  unfolding make_user
  make_user-Keeps env info name none pass c h = wrong_use-Keeps Holds 105 info c h
  make_user-Keeps env info name (some admin) pass c h =
      asked-Keeps
        (Message.new_user_cmd (record { username = name; password = pass; admin = admin })) done c
        tt (done-Keeps Holds) h

  new_user_args-Keeps :
      (env : Env json) (info : Info) (argv : List Bytes) (c : Client json peer)
      → InStep Holds c
      → Keeps Holds (new_user_args env info argv c)
  unfolding new_user_args
  new_user_args-Keeps env info [] c h = wrong_use-Keeps Holds 103 info c h
  new_user_args-Keeps env info (name ∷ []) c h = wrong_use-Keeps Holds 103 info c h
  new_user_args-Keeps env info (name ∷ admin ∷ []) c h =
      make_user-Keeps env info name (admin_flag admin) (codes "pass123") c h
  new_user_args-Keeps env info (name ∷ admin ∷ pass ∷ []) c h =
      make_user-Keeps env info name (admin_flag admin) pass c h
  new_user_args-Keeps env info (name ∷ admin ∷ pass ∷ arg ∷ argv) c h =
      wrong_use-Keeps Holds 103 info c h

  open-Keeps :
      (env : Env json) (info : Info) (argv : List Bytes) (c : Client json peer)
      → is_connection_open c.state ≡ true
      → InStep Holds c
      → Keeps Holds (cmd_open env info argv c)
  unfolding cmd_open unless_help print
  open-Keeps env info argv c e h = elim (Bool-cases (asks_help argv)) [
    | inl t ↦ rw t h
    | inr f ↦
        rw (f, e)
          (refuse-Keeps Holds 101 (codes "Opened connection") (record c { server_addr = env.fresh })
            h)
  ]

  farewell : Client json peer → Outcome json peer
  farewell c = after_send (λ c'. some (10000, c')) c (peer.send Message.close_cmd c.other)

  farewell-Keeps :
      (c : Client json peer) → c.logged ≡ false → InStep Holds c → Keeps Holds (farewell c)
  unfolding farewell after_send print
  farewell-Keeps c e h =
      let closed : Holds c.logged (peer.send Message.close_cmd c.other).1 =
        subst (λ b. Holds b (peer.send Message.close_cmd c.other).1) (sym e)
          (protocol.closes c.other (subst (λ b. Holds b c.other) e h)) in
      elim (Bool-cases ((peer.send Message.close_cmd c.other).0 == 0)) [
        | inl t ↦ rw t closed
        | inr f ↦ rw f closed
      ]

  close-Keeps :
      (env : Env json) (info : Info) (argv : List Bytes) (c : Client json peer)
      → InStep Holds c
      → Keeps Holds (cmd_close env info argv c)
  unfolding cmd_close farewell
  close-Keeps env info argv c h =
      let msg = codes "You have not to be logged to close" in
      connected-Keeps Holds info argv (when_logged false 101 msg (with_none info argv farewell)) c h
        (when_logged-Keeps Holds false 101 msg (with_none info argv farewell) c h
          (λ e. with_none-Keeps Holds info argv farewell c h (farewell-Keeps c e h)))

  ask_login : Env json → Bytes → Bytes → Client json peer → Outcome json peer
  ask_login env username password =
      exchange (Message.login_cmd (record { username = username; password = password; admin = 0 }))
        (logged_in env)

  ask_login-Keeps :
      (env : Env json) (username password : Bytes) (c : Client json peer)
      → c.logged ≡ false
      → InStep Holds c
      → Keeps Holds (ask_login env username password c)
  unfolding ask_login
  ask_login-Keeps env username password c e h =
      let user : User = record { username = username; password = password; admin = 0 } in
      exchange-Keeps Holds (λ p. Holds (login_of p)) (Message.login_cmd user) (logged_in env) c
        (λ p l i. logged_in-Keeps Holds env p (record c { other = l }) e i)
        (subst
          (λ b. Exchanged peer (λ p. Holds (login_of p)) (Holds b) (Message.login_cmd user) c.other)
          (sym e) (protocol.logs_in user c.other (subst (λ b. Holds b c.other) e h)))

  login-Keeps :
      (env : Env json) (info : Info) (argv : List Bytes) (c : Client json peer)
      → InStep Holds c
      → Keeps Holds (cmd_login env info argv c)
  unfolding cmd_login ask_login
  login-Keeps env info argv c h =
      let command : Bytes → Bytes → Client json peer → Outcome json peer = λ username password.
        when_logged false 101 (codes "You are already logged in")
          (ask_login env username password) in
      connected-Keeps Holds info argv (with_two info argv command) c h (
        with_two-Keeps Holds info argv command c h (λ username password.
          when_logged-Keeps Holds false 101 (codes "You are already logged in")
            (ask_login env username password) c h
            (λ e. ask_login-Keeps env username password c e h)))

  logout-Keeps :
      (env : Env json) (info : Info) (argv : List Bytes) (c : Client json peer)
      → InStep Holds c
      → Keeps Holds (cmd_logout env info argv c)
  unfolding cmd_logout for_user
  logout-Keeps env info argv c h =
      let msg = codes "You have to be logged to logout" in
      let command : Client json peer → Outcome json peer =
        exchange Message.logout_cmd (logged_out env) in
      connected-Keeps Holds info argv (when_logged true 104 msg (with_none info argv command)) c h (
        when_logged-Keeps Holds true 104 msg (with_none info argv command) c h (λ e.
          with_none-Keeps Holds info argv command c h (
            exchange-Keeps Holds (λ p. Holds false) Message.logout_cmd (logged_out env) c
              (λ p l i. logged_out-Keeps Holds env p (record c { other = l }) i)
              (subst (λ b. Exchanged peer (λ p. Holds false) (Holds b) Message.logout_cmd c.other)
                (sym e) (protocol.logs_out c.other (subst (λ b. Holds b c.other) e h))))))

  ask_one-Keeps :
      (info : Info) (argv : List Bytes) (ask : Bytes → Message json)
      (next : Parsed json → Client json peer → Outcome json peer) (c : Client json peer)
      → ((arg : Bytes) → Asks (ask arg))
      → ((p : Parsed json) (c' : Client json peer) → InStep Holds c' → Keeps Holds (next p c'))
      → InStep Holds c
      → Keeps Holds (connected info argv (with_one info argv (λ arg. exchange (ask arg) next)) c)
  ask_one-Keeps info argv ask next c a k h =
      let command : Bytes → Client json peer → Outcome json peer = λ arg. exchange (ask arg) next in
      connected-Keeps Holds info argv (with_one info argv command) c h (
        with_one-Keeps Holds info argv command c h
          (λ arg. asked-Keeps (ask arg) next c (a arg) k h))

  for_user-Keeps :
      (info : Info) (argv : List Bytes) (msg : Bytes)
      (command : Client json peer → Outcome json peer) (c : Client json peer)
      → InStep Holds c
      → Keeps Holds (command c)
      → Keeps Holds (for_user info argv msg command c)
  unfolding for_user
  for_user-Keeps info argv msg command c h k =
      connected-Keeps Holds info argv (when_logged true 104 msg command) c h
        (when_logged-Keeps Holds true 104 msg command c h (λ l. k))

  Quiet-Keeps :
      (c : Client json peer) (o : Outcome json peer) → Quiet c o → InStep Holds c → Keeps Holds o
  Quiet-Keeps c none q h = tt
  Quiet-Keeps c (some (code, c')) q h =
      subst (λ b. Holds b c'.other) (sym q.2) (subst (Holds c.logged) (sym q.0) h)

  pub session_kept :
      (env : Env json) (command : Command) (argv : List Bytes) (c : Client json peer)
      → command ≢ get
      → is_connection_open c.state ≡ true
      → Holds c.logged c.other
      → Keeps Holds (run_command env command argv c)
  unfolding run_command cmd_sendi cmd_sendd cmd_sends cmd_post cmd_new_user cmd_change_pass
  session_kept env open_ argv c n e h = open-Keeps env (info_of open_) argv c e h
  session_kept env close argv c n e h = close-Keeps env (info_of close) argv c h
  session_kept env sendi argv c n e h =
      ask_one-Keeps (info_of sendi) argv (λ arg. Message.int (env.atoi arg)) (show_int env) c
        (λ arg. tt) (show_int-Keeps Holds env) h
  session_kept env sendd argv c n e h =
      ask_one-Keeps (info_of sendd) argv (λ arg. Message.double (env.atof arg)) (show_double env) c
        (λ arg. tt) (show_double-Keeps Holds env) h
  session_kept env sends argv c n e h =
      ask_one-Keeps (info_of sends) argv (λ arg. Message.string arg) (show_string env) c (λ arg. tt)
        (show_string-Keeps Holds env) h
  session_kept env help argv c n e h =
      Quiet-Keeps c (run_command env help argv c) (help-Quiet env argv c) h
  session_kept env get argv c n e h = absurd (n refl)
  session_kept env post argv c n e h =
      let command : Bytes → Bytes → Client json peer → Outcome json peer =
        λ dest file c. post_file env dest (raw_data_from_file c.files file) c in
      for_user-Keeps (info_of post) argv (codes "Please login first")
        (with_two (info_of post) argv command) c h
        (with_two-Keeps Holds (info_of post) argv command c h
          (λ dest file. post_file-Keeps env dest (raw_data_from_file c.files file) c h))
  session_kept env login argv c n e h = login-Keeps env (info_of login) argv c h
  session_kept env logout argv c n e h = logout-Keeps env (info_of logout) argv c h
  session_kept env commands argv c n e h =
      Quiet-Keeps c (run_command env commands argv c) (commands-Quiet env argv c) h
  session_kept env newuser argv c n e h =
      for_user-Keeps (info_of newuser) argv (codes "You have to be logged")
        (new_user_args env (info_of newuser) argv) c h
        (new_user_args-Keeps env (info_of newuser) argv c h)
  session_kept env ch_pass argv c n e h =
      let command : Bytes → Client json peer → Outcome json peer =
        λ pass. exchange (Message.change_pass_cmd (record { pass = pass })) done in
      for_user-Keeps (info_of ch_pass) argv (codes "Please login first")
        (with_one (info_of ch_pass) argv command) c h
        (with_one-Keeps Holds (info_of ch_pass) argv command c h (λ pass.
          asked-Keeps (Message.change_pass_cmd (record { pass = pass })) done c tt
            (done-Keeps Holds) h))
