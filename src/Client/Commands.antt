-- ===== src/Client/Commands.antt =====
-- The commands of client/commands.c. Their arguments are the first `argc` of `argv`.
use itba_os_tp1_ipc_2016_q.Base.{
  ℕ, zero, suc, Bool, true, false, List, [], ◌∷◌, Option, none, some, Bytes, codes, ◌==◌,
  if◌then◌else◌, str_eq,
}
use itba_os_tp1_ipc_2016_q.Address.{
  AddrError, address_ok, invalid_protocol, missing_protocol_token, missing_port_token, invalid_port,
}
use itba_os_tp1_ipc_2016_q.FileUtils.{raw_data_from_file, encode_raw_data, decode_to_raw_data}
use itba_os_tp1_ipc_2016_q.Json.{Json}
use itba_os_tp1_ipc_2016_q.Serialization.Commands.{Message}
use itba_os_tp1_ipc_2016_q.Serialization.Parse.{Parsed}
use itba_os_tp1_ipc_2016_q.Client.{
  Peer, Client, Env, with_none, with_one, with_two, Outcome, Info, text, says, says_int,
  says_double, contents, reply, failed, stuck, is_connection_open, print, refuse, wrong_use,
  unless_help, connected, for_user, when_logged, after_send, exchange, show_data, done,
}

abbrev pub is_ok : AddrError → Bool
is_ok address_ok = true
is_ok invalid_protocol = false
is_ok missing_protocol_token = false
is_ok missing_port_token = false
is_ok invalid_port = false

-- `yes` or `no`.
unfoldable pub admin_flag : Bytes → Option ℕ
admin_flag arg =
    if str_eq arg (codes "yes") then some 1 else if str_eq arg (codes "no") then some 0 else none

module _ {json : Json} {peer : Peer json} (env : Env json) where
  -- `connection_open` sets the state of the connection. The error is the truth of a comparison: 1 for
  -- every failure.
  unfoldable pub open_connection : Client json peer → Outcome json peer
  unfolding print
  open_connection c =
      let (code, state, other) = peer.connect c.client_addr c.server_addr c.state c.other in
      let c' = record c { state = state; other = other } in
      if code == 0
      then some (0, print (text (codes "Connection now open")) c')
      else some (1, print (text (codes "error 1 creating connection")) c')

  unfoldable pub open_url : Info → List Bytes → Client json peer → Outcome json peer
  unfolding wrong_use open_connection
  open_url info [] c = wrong_use 103 info c
  open_url info (url ∷ arg ∷ argv) c = wrong_use 103 info c
  open_url info (url ∷ []) c =
      let (error, addr) = env.address_from_url url c.server_addr in
      let c' = record c { server_addr = addr } in
      if is_ok error then open_connection c' else some (106, c')

  -- The address of the server is replaced before anything is checked.
  unfoldable pub cmd_open : Info → List Bytes → Client json peer → Outcome json peer
  unfolding unless_help is_connection_open refuse open_url
  cmd_open info argv c =
      unless_help info argv
        (λ c.
          if is_connection_open c.state
          then refuse 101 (codes "Opened connection") c
          else open_url info argv c)
        (record c { server_addr = env.fresh })

  unfoldable pub show_int : Parsed json → Client json peer → Outcome json peer
  unfolding print
  show_int (Parsed.int i) c = some (0, print (says_int i) c)
  show_int presult c = some (0, c)

  unfoldable pub show_string : Parsed json → Client json peer → Outcome json peer
  unfolding print
  show_string (Parsed.string s) c = some (0, print (says s) c)
  show_string presult c = some (0, c)

  unfoldable pub show_double : Parsed json → Client json peer → Outcome json peer
  unfolding print
  show_double (Parsed.double d) c = some (0, print (says_double d) c)
  show_double presult c = some (0, c)

  unfoldable pub cmd_sendi : Info → List Bytes → Client json peer → Outcome json peer
  unfolding connected with_one exchange show_int
  cmd_sendi info argv c =
      connected info argv
        (with_one info argv (λ arg. exchange (Message.int (env.atoi arg)) show_int)) c

  unfoldable pub cmd_sends : Info → List Bytes → Client json peer → Outcome json peer
  unfolding connected with_one exchange show_string
  cmd_sends info argv c =
      connected info argv (with_one info argv (λ arg. exchange (Message.string arg) show_string)) c

  unfoldable pub cmd_sendd : Info → List Bytes → Client json peer → Outcome json peer
  unfolding connected with_one exchange show_double
  cmd_sendd info argv c =
      connected info argv
        (with_one info argv (λ arg. exchange (Message.double (env.atof arg)) show_double)) c

  -- What the thread of a `get` shows.
  unfoldable pub get_handler : Parsed json → Client json peer → Option (Client json peer)
  unfolding print
  get_handler (Parsed.int i) c = some (print (says_int i) c)
  get_handler (Parsed.double d) c = some (print (says_double d) c)
  get_handler (Parsed.string s) c = some (print (says s) c)
  get_handler (Parsed.post_cmd cmd) c = elim (decode_to_raw_data cmd.contents) [
    | none ↦ none
    | some data_ ↦ some (print (contents data_.cells) c)
  ]
  get_handler (Parsed.raw bytes) c = elim (decode_to_raw_data bytes) [
    | none ↦ none
    | some data_ ↦ some (print (contents data_.cells) c)
  ]
  get_handler presult c = some c

  -- The message goes out, whatever its error, and a thread waits for the answer.
  unfoldable pub cmd_get : Info → List Bytes → Client json peer → Outcome json peer
  unfolding for_user with_one
  cmd_get info argv c =
      for_user info argv (codes "Please login first")
        (with_one info argv (λ path c. some (
          0,
          record c {
            other = (peer.send (Message.get_cmd (record { path = path })) c.other).1;
            listeners = suc c.listeners;
          },
        )))
        c

  -- `data_listener`: one of the threads gets an answer.
  unfoldable pub listen : Client json peer → Option (Client json peer)
  unfolding get_handler
  listen c = elim c.listeners [
    | zero ↦ some c
    | suc n ↦ elim (peer.receive c.other) [
      | reply presult other ↦ get_handler presult (record c { other = other; listeners = n })
      | failed code other ↦ none
      | stuck ↦ none
    ]
  ]

  unfoldable pub post_file : Bytes → Option (Bytes × ℕ) → Client json peer → Outcome json peer
  unfolding refuse exchange done
  post_file dest none c = refuse 9000 (codes "Cant open file") c
  post_file dest (some (bytes, size)) c =
      exchange
        (Message.post_cmd (record { contents = encode_raw_data bytes; dest = dest; size = size }))
        done c

  unfoldable pub cmd_post : Info → List Bytes → Client json peer → Outcome json peer
  unfolding for_user with_two post_file
  cmd_post info argv c =
      for_user info argv (codes "Please login first")
        (with_two info argv (λ dest file c. post_file dest (raw_data_from_file c.files file) c)) c

  -- Every answer but the text `Login failed` counts as a login.
  unfoldable pub logged_in : Parsed json → Client json peer → Outcome json peer
  unfolding show_data
  logged_in (Parsed.raw bytes) c =
      let c' = show_data (Parsed.raw bytes) c in
      if str_eq (codes "Login failed") bytes
      then some (107, c')
      else some (0, record c' { logged = true })
  logged_in presult c = some (0, record c { logged = true })

  unfoldable pub cmd_login : Info → List Bytes → Client json peer → Outcome json peer
  unfolding connected when_logged with_two exchange logged_in
  cmd_login info argv c =
      connected info argv
        (with_two info argv (λ username password.
          when_logged false 101 (codes "You are already logged in") (
            exchange
              (Message.login_cmd (record { username = username; password = password; admin = 0 }))
              logged_in)))
        c

  unfoldable pub logged_out : Parsed json → Client json peer → Outcome json peer
  unfolding show_data
  logged_out presult c = some (0, record (show_data presult c) { logged = false })

  unfoldable pub cmd_logout : Info → List Bytes → Client json peer → Outcome json peer
  unfolding for_user with_none exchange logged_out
  cmd_logout info argv c =
      for_user info argv (codes "You have to be logged to logout")
        (with_none info argv (exchange Message.logout_cmd logged_out)) c

  unfoldable pub make_user : Info → Bytes → Option ℕ → Bytes → Client json peer → Outcome json peer
  unfolding wrong_use exchange done
  make_user info username none password c = wrong_use 105 info c
  make_user info username (some admin) password c =
      exchange
        (Message.new_user_cmd (record { username = username; password = password; admin = admin }))
        done c

  unfoldable pub new_user_args : Info → List Bytes → Client json peer → Outcome json peer
  unfolding wrong_use admin_flag make_user
  new_user_args info [] c = wrong_use 103 info c
  new_user_args info (name ∷ []) c = wrong_use 103 info c
  new_user_args info (name ∷ admin ∷ []) c =
      make_user info name (admin_flag admin) (codes "pass123") c
  new_user_args info (name ∷ admin ∷ pass ∷ []) c = make_user info name (admin_flag admin) pass c
  new_user_args info (name ∷ admin ∷ pass ∷ arg ∷ argv) c = wrong_use 103 info c

  unfoldable pub cmd_new_user : Info → List Bytes → Client json peer → Outcome json peer
  unfolding for_user new_user_args
  cmd_new_user info argv c =
      for_user info argv (codes "You have to be logged") (new_user_args info argv) c

  unfoldable pub cmd_close : Info → List Bytes → Client json peer → Outcome json peer
  unfolding connected when_logged with_none after_send
  cmd_close info argv c =
      connected info argv
        (when_logged false 101 (codes "You have not to be logged to close") (
          with_none info argv
            (λ c. after_send (λ c'. some (10000, c')) c (peer.send Message.close_cmd c.other))))
        c

  unfoldable pub cmd_change_pass : Info → List Bytes → Client json peer → Outcome json peer
  unfolding for_user with_one exchange done
  cmd_change_pass info argv c =
      for_user info argv (codes "Please login first")
        (with_one info argv
          (λ pass. exchange (Message.change_pass_cmd (record { pass = pass })) done))
        c
