-- ===== src/Client/Guards.antt =====
-- The commands that client/commands.c refuses: without a connection, and without a login.
use mathlib.Core.Path.{subst}
use itba_os_tp1_ipc_2016_q.Base.{suc, ◌≡◌, ◌≢◌, refl, sym, true, false, List, some, Bytes, codes}
use itba_os_tp1_ipc_2016_q.FileUtils.{raw_data_from_file}
use itba_os_tp1_ipc_2016_q.Json.{Json}
use itba_os_tp1_ipc_2016_q.Serialization.Commands.{Message}
use itba_os_tp1_ipc_2016_q.Client.{
  Peer, Client, Outcome, Info, Env, is_connection_open, with_none, with_one, with_two, after_send,
  exchange, done, when_logged, connected, for_user,
}
use itba_os_tp1_ipc_2016_q.Client.Commands.{
  show_int, show_double, show_string, post_file, logged_in, logged_out, new_user_args, cmd_close,
  cmd_sendi, cmd_sendd, cmd_sends, cmd_get, cmd_post, cmd_login, cmd_logout, cmd_new_user,
  cmd_change_pass,
}
use itba_os_tp1_ipc_2016_q.Client.Parse.{
  Command, open_, close, sendi, sendd, sends, help, get, post, login, logout, commands, newuser,
  ch_pass, info_of, table, print_names, help_for, cmd_commands, cmd_help, run_command,
}
use itba_os_tp1_ipc_2016_q.Client.Quiet.{
  Quiet, unless_help-Quiet, closed-Quiet, user-Quiet, print_names-Same, help_for-Quiet,
}

-- The requests of a user.
abbrev pub NeedsLogin : Command → Type 0
NeedsLogin get = Unit
NeedsLogin post = Unit
NeedsLogin logout = Unit
NeedsLogin newuser = Unit
NeedsLogin ch_pass = Unit
NeedsLogin open_ = ⊥
NeedsLogin close = ⊥
NeedsLogin sendi = ⊥
NeedsLogin sendd = ⊥
NeedsLogin sends = ⊥
NeedsLogin help = ⊥
NeedsLogin login = ⊥
NeedsLogin commands = ⊥

-- A command that begins with the checks of `connected`, or with those of `for_user`, too.
record Connected {json : Json} {peer : Peer json} (argv : List Bytes) (c : Client json peer)
    (o : Outcome json peer) : Type 0 where
  info : Info
  command : Client json peer → Outcome json peer
  runs : o ≡ connected info argv command c

record ForUser {json : Json} {peer : Peer json} (argv : List Bytes) (c : Client json peer)
    (o : Outcome json peer) : Type 0 where
  info : Info
  msg : Bytes
  command : Client json peer → Outcome json peer
  runs : o ≡ for_user info argv msg command c

module _ {json : Json} {peer : Peer json} (env : Env json) where
  get-ForUser :
      (argv : List Bytes) (c : Client json peer) → ForUser argv c (run_command env get argv c)
  unfolding run_command cmd_get
  get-ForUser argv c = record {
    info = info_of get;
    msg = codes "Please login first";
    command = with_one (info_of get) argv (λ path c. some (
      0,
      record c {
        other = (peer.send (Message.get_cmd (record { path = path })) c.other).1;
        listeners = suc c.listeners;
      },
    ));
    runs = refl;
  }

  user-ForUser :
      (command : Command) (argv : List Bytes) (c : Client json peer)
      → NeedsLogin command
      → ForUser argv c (run_command env command argv c)
  unfolding run_command cmd_post cmd_logout cmd_new_user cmd_change_pass
  user-ForUser get argv c n = get-ForUser argv c
  user-ForUser post argv c n = record {
    info = info_of post;
    msg = codes "Please login first";
    command =
        with_two (info_of post) argv
          (λ dest file c. post_file env dest (raw_data_from_file c.files file) c);
    runs = refl;
  }
  user-ForUser logout argv c n = record {
    info = info_of logout;
    msg = codes "You have to be logged to logout";
    command = with_none (info_of logout) argv (exchange Message.logout_cmd (logged_out env));
    runs = refl;
  }
  user-ForUser newuser argv c n = record {
    info = info_of newuser;
    msg = codes "You have to be logged";
    command = new_user_args env (info_of newuser) argv;
    runs = refl;
  }
  user-ForUser ch_pass argv c n = record {
    info = info_of ch_pass;
    msg = codes "Please login first";
    command =
        with_one (info_of ch_pass) argv
          (λ pass. exchange (Message.change_pass_cmd (record { pass = pass })) done);
    runs = refl;
  }
  user-ForUser open_ argv c n = absurd n
  user-ForUser close argv c n = absurd n
  user-ForUser sendi argv c n = absurd n
  user-ForUser sendd argv c n = absurd n
  user-ForUser sends argv c n = absurd n
  user-ForUser help argv c n = absurd n
  user-ForUser login argv c n = absurd n
  user-ForUser commands argv c n = absurd n

  close-Connected :
      (argv : List Bytes) (c : Client json peer) → Connected argv c (run_command env close argv c)
  unfolding run_command cmd_close
  close-Connected argv c = record {
    info = info_of close;
    command = when_logged false 101 (codes "You have not to be logged to close") (
        with_none (info_of close) argv
          (λ c. after_send (λ c'. some (10000, c')) c (peer.send Message.close_cmd c.other)));
    runs = refl;
  }

  sendi-Connected :
      (argv : List Bytes) (c : Client json peer) → Connected argv c (run_command env sendi argv c)
  unfolding run_command cmd_sendi
  sendi-Connected argv c = record {
    info = info_of sendi;
    command =
        with_one (info_of sendi) argv (λ arg. exchange (Message.int (env.atoi arg)) (show_int env));
    runs = refl;
  }

  sendd-Connected :
      (argv : List Bytes) (c : Client json peer) → Connected argv c (run_command env sendd argv c)
  unfolding run_command cmd_sendd
  sendd-Connected argv c = record {
    info = info_of sendd;
    command =
        with_one (info_of sendd) argv
          (λ arg. exchange (Message.double (env.atof arg)) (show_double env));
    runs = refl;
  }

  sends-Connected :
      (argv : List Bytes) (c : Client json peer) → Connected argv c (run_command env sends argv c)
  unfolding run_command cmd_sends
  sends-Connected argv c = record {
    info = info_of sends;
    command =
        with_one (info_of sends) argv (λ arg. exchange (Message.string arg) (show_string env));
    runs = refl;
  }

  login-Connected :
      (argv : List Bytes) (c : Client json peer) → Connected argv c (run_command env login argv c)
  unfolding run_command cmd_login
  login-Connected argv c = record {
    info = info_of login;
    command = with_two (info_of login) argv (λ username password.
        when_logged false 101 (codes "You are already logged in") (
          exchange
            (Message.login_cmd (record { username = username; password = password; admin = 0 }))
            (logged_in env)));
    runs = refl;
  }

  Connected-Quiet :
      (argv : List Bytes) (c : Client json peer) (o : Outcome json peer)
      → Connected argv c o
      → is_connection_open c.state ≡ false
      → Quiet c o
  Connected-Quiet argv c o k e =
      subst (Quiet c) (sym k.runs) (closed-Quiet k.info argv k.command c e)

  ForUser-Connected :
      (argv : List Bytes) (c : Client json peer) (o : Outcome json peer)
      → ForUser argv c o
      → Connected argv c o
  unfolding for_user
  ForUser-Connected argv c o k = record {
    info = k.info;
    command = when_logged true 104 k.msg k.command;
    runs = k.runs;
  }

  closed_command :
      (command : Command) (argv : List Bytes) (c : Client json peer)
      → NeedsLogin command
      → is_connection_open c.state ≡ false
      → Quiet c (run_command env command argv c)
  closed_command command argv c n e =
      let o = run_command env command argv c in
      Connected-Quiet argv c o (ForUser-Connected argv c o (user-ForUser command argv c n)) e

  pub help-Quiet :
      (argv : List Bytes) (c : Client json peer) → Quiet c (run_command env help argv c)
  unfolding run_command cmd_help
  help-Quiet argv c =
      unless_help-Quiet (info_of help) argv (help_for (info_of help) argv) c
        (help_for-Quiet (info_of help) argv c)

  pub commands-Quiet :
      (argv : List Bytes) (c : Client json peer) → Quiet c (run_command env commands argv c)
  unfolding run_command cmd_commands
  commands-Quiet argv c =
      unless_help-Quiet (info_of commands) argv (λ c. some (0, print_names table c)) c
        (print_names-Same table c)

  -- Without an open connection every command but `open` comes to an end and leaves the other side, the
  -- connection, the session and the waiting threads alone.
  pub not_open :
      (command : Command) (argv : List Bytes) (c : Client json peer)
      → command ≢ open_
      → is_connection_open c.state ≡ false
      → Quiet c (run_command env command argv c)
  not_open open_ argv c ne e = absurd (ne refl)
  not_open close argv c ne e =
      Connected-Quiet argv c (run_command env close argv c) (close-Connected argv c) e
  not_open sendi argv c ne e =
      Connected-Quiet argv c (run_command env sendi argv c) (sendi-Connected argv c) e
  not_open sendd argv c ne e =
      Connected-Quiet argv c (run_command env sendd argv c) (sendd-Connected argv c) e
  not_open sends argv c ne e =
      Connected-Quiet argv c (run_command env sends argv c) (sends-Connected argv c) e
  not_open help argv c ne e = help-Quiet argv c
  not_open get argv c ne e = closed_command get argv c tt e
  not_open post argv c ne e = closed_command post argv c tt e
  not_open login argv c ne e =
      Connected-Quiet argv c (run_command env login argv c) (login-Connected argv c) e
  not_open logout argv c ne e = closed_command logout argv c tt e
  not_open commands argv c ne e = commands-Quiet argv c
  not_open newuser argv c ne e = closed_command newuser argv c tt e
  not_open ch_pass argv c ne e = closed_command ch_pass argv c tt e

  -- A client that is not logged in asks the server for no file, stores none, does not log out, makes no
  -- user and changes no password: the command comes to an end with nothing sent, and the connection, the
  -- session and the waiting threads as before.
  pub not_logged_in :
      (command : Command) (argv : List Bytes) (c : Client json peer)
      → NeedsLogin command
      → c.logged ≡ false
      → Quiet c (run_command env command argv c)
  not_logged_in command argv c n e =
      let k = user-ForUser command argv c n in
      subst (Quiet c) (sym k.runs) (user-Quiet k.info argv k.msg k.command c e)
