-- ===== src/Client/Parse.antt =====
-- The table of commands and cmd_parse of client/commands.c, and the loop of client/main.c.
use itba_os_tp1_ipc_2016_q.Base.{
  ℕ, ◌-◌, List, [], ◌∷◌, ◌++◌, Option, none, some, Bytes, codes, ◌==◌, ◌>>=◌, if◌then◌else◌, str_eq,
  take, drop, get_elem?,
}
use itba_os_tp1_ipc_2016_q.Arguments.{split_arguments, count_elements}
use itba_os_tp1_ipc_2016_q.Json.{Json}
use itba_os_tp1_ipc_2016_q.Client.{
  Peer, Client, Outcome, Info, Env, closed, text, command_failed, print, unless_help, wrong_use,
}
use itba_os_tp1_ipc_2016_q.Client.Commands.{
  cmd_open, cmd_close, cmd_sendi, cmd_sendd, cmd_sends, cmd_get, cmd_post, cmd_login, cmd_logout,
  cmd_new_user, cmd_change_pass, listen,
}

-- The commands, in the order of the table.
pub data Command : Type 0 where
  open_ : Command
  close : Command
  sendi : Command
  sendd : Command
  sends : Command
  help : Command
  get : Command
  post : Command
  login : Command
  logout : Command
  commands : Command
  newuser : Command
  ch_pass : Command

abbrev pub name_of : Command → Bytes
name_of open_ = codes "open"
name_of close = codes "close"
name_of sendi = codes "sendi"
name_of sendd = codes "sendd"
name_of sends = codes "sends"
name_of help = codes "help"
name_of get = codes "get"
name_of post = codes "post"
name_of login = codes "login"
name_of logout = codes "logout"
name_of commands = codes "commands"
name_of newuser = codes "newuser"
name_of ch_pass = codes "ch_pass"

abbrev pub info_of : Command → Info
info_of open_ = record {
  correct_use = codes "open url";
  help = codes "Opens connection with the server\nCorrect use: open url";
}
info_of close = record {
  correct_use = codes "close";
  help = codes "Closes connection\nCorrect use: close";
}
info_of sendi = record {
  correct_use = codes "sendi int";
  help = codes "Sends int to server and returns the double\nCorrect use: sendi int";
}
info_of sendd = record {
  correct_use = codes "sendd double";
  help = codes "Sends double to server and returns the double\nCorrect use: sendd double";
}
info_of sends = record {
  correct_use = codes "sends string";
  help =
      codes
        "Sends string to server and returns it without the first two chars\nCorrect use: sends string";
}
info_of help = record {
  correct_use = codes "help command";
  help = codes "Shows help of the command\nCorrect use: help command OR command help";
}
info_of get = record {
  correct_use = codes "get alias";
  help = codes "Gets your file with the alias indicated\nCorrect use: get alias";
}
info_of post = record {
  correct_use = codes "post alias file";
  help = codes "Posts file in the system\nCorrect use: post alias file";
}
info_of login = record {
  correct_use = codes "login username password";
  help = codes "Logs in the server\nCorrect use: login username password";
}
info_of logout = record {
  correct_use = codes "logout";
  help = codes "Logs out of the system\nCorrect use: logout";
}
info_of commands = record {
  correct_use = codes "commands";
  help = codes "Shows all the commands\nCorrect use: commands";
}
info_of newuser = record {
  correct_use = codes "newuser name yes/no [pass]";
  help =
      codes
        "Creates a new user, you must have root permission\nCorrect use: newuser name yes/no [pass]";
}
info_of ch_pass = record {
  correct_use = codes "ch_pass password";
  help = codes "Changes your password\nCorrect use: ch_pass password";
}

abbrev pub table : List Command
table =
    open_ ∷ close ∷ sendi ∷ sendd ∷ sends ∷ help ∷ get ∷ post ∷ login ∷ logout ∷ commands ∷ newuser
    ∷ ch_pass ∷ []

-- The first command of that name.
unfoldable pub find_command : Bytes → List Command → Option Command
find_command name [] = none
find_command name (command ∷ rest) =
    let later = find_command name rest in
    if str_eq name (name_of command) then some command else later

module _ {json : Json} {peer : Peer json} where
  unfoldable pub print_names : List Command → Client json peer → Client json peer
  unfolding print
  print_names [] c = c
  print_names (command ∷ rest) c = print_names rest (print (text (name_of command)) c)

  unfoldable pub cmd_commands : Info → List Bytes → Client json peer → Outcome json peer
  unfolding unless_help print_names
  cmd_commands info argv c = unless_help info argv (λ c. some (0, print_names table c)) c

  -- The help of each command of that name.
  unfoldable pub print_help : Bytes → List Command → Client json peer → Client json peer
  unfolding print
  print_help name [] c = c
  print_help name (command ∷ rest) c =
      print_help name rest
        (if str_eq (name_of command) name then print (text (info_of command).help) c else c)

  unfoldable pub help_for : Info → List Bytes → Client json peer → Outcome json peer
  unfolding wrong_use print_help
  help_for info [] c = wrong_use 103 info c
  help_for info (arg ∷ []) c = some (0, print_help arg table c)
  help_for info (arg ∷ brg ∷ argv) c = wrong_use 103 info c

  unfoldable pub cmd_help : Info → List Bytes → Client json peer → Outcome json peer
  unfolding unless_help help_for
  cmd_help info argv c = unless_help info argv (help_for info argv) c

-- A step of the client: a line that was read, or a thread that gets its answer.
pub data Event : Type 0 where
  line : Bytes → Event
  answer : Event

module _ {json : Json} {peer : Peer json} (env : Env json) where
  unfoldable pub run_command : Command → List Bytes → Client json peer → Outcome json peer
  unfolding cmd_open cmd_close cmd_sendi cmd_sendd cmd_sends cmd_get cmd_post cmd_login cmd_logout
      cmd_new_user cmd_change_pass cmd_commands cmd_help
  run_command open_ argv c = cmd_open env (info_of open_) argv c
  run_command close argv c = cmd_close env (info_of close) argv c
  run_command sendi argv c = cmd_sendi env (info_of sendi) argv c
  run_command sendd argv c = cmd_sendd env (info_of sendd) argv c
  run_command sends argv c = cmd_sends env (info_of sends) argv c
  run_command help argv c = cmd_help (info_of help) argv c
  run_command get argv c = cmd_get env (info_of get) argv c
  run_command post argv c = cmd_post env (info_of post) argv c
  run_command login argv c = cmd_login env (info_of login) argv c
  run_command logout argv c = cmd_logout env (info_of logout) argv c
  run_command commands argv c = cmd_commands (info_of commands) argv c
  run_command newuser argv c = cmd_new_user env (info_of newuser) argv c
  run_command ch_pass argv c = cmd_change_pass env (info_of ch_pass) argv c

  -- The command that the first word names, with the others as its arguments.
  unfoldable pub run_words :
      Bytes → Option Command → List Bytes → Client json peer → Outcome json peer
  unfolding run_command print
  run_words word none argv c =
      some (100, print (text (codes "[" ++ (word ++ codes "] Command not found"))) c)
  run_words word (some command) argv c = run_command command argv c

  -- An open quotation leaves a null pointer, which is read through. The arguments are the first
  -- `argc - 1` behind the first word.
  unfoldable pub cmd_parse : Bytes → Client json peer → Outcome json peer
  unfolding run_words find_command
  cmd_parse cmd c = do
    comms ← split_arguments cmd
    argc ← count_elements comms
    word ← get_elem? comms 0
    run_words word (find_command word table) (take (argc - 1) (drop 1 comms)) c

  -- What the loop makes of the code of a command: `connection_close` for the end of the connection.
  unfoldable pub after_command : ℕ × Client json peer → Client json peer
  unfolding print
  after_command (code, c) =
      if code == 0
      then c
      else if code == 10000
      then record c { state = closed }
      else print (command_failed code) c

  unfoldable pub step : Event → Client json peer → Option (Client json peer)
  unfolding cmd_parse after_command listen
  step (line cmd) c = cmd_parse cmd c >>= λ r. some (after_command r)
  step answer c = listen env c
