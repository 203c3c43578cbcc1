-- ===== src/Serialization/Parse.antt =====
-- `parse_encoded`: the message that a JSON text holds.
use itba_os_tp1_ipc_2016_q.Base.{Option, some, Bytes, codes, str_eq, if◌then◌else◌, ◌>>=◌}
use itba_os_tp1_ipc_2016_q.Base.Words.{ℤ, size_of_int, boolean_of_int}
use itba_os_tp1_ipc_2016_q.Json.{Json}
use itba_os_tp1_ipc_2016_q.Serialization.Commands.{CommandGet, CommandPost, User, CommandChangePass}

module _ (json : Json) where
  open json use {Object, Double, object_get_ex, get_int, get_double, get_string, tokener_parse}

  -- `parse_result_t`: the kind decides the member of the union. Any other kind leaves the union
  -- as it was allocated.
  pub data Parsed : Type 0 where
    int : ℤ → Parsed
    double : Double → Parsed
    string : Bytes → Parsed
    raw : Bytes → Parsed
    get_cmd : CommandGet → Parsed
    post_cmd : CommandPost → Parsed
    login_cmd : User → Parsed
    logout_cmd : Parsed
    close_cmd : Parsed
    new_user_cmd : User → Parsed
    change_pass_cmd : CommandChangePass → Parsed
    unknown : Bytes → Parsed

  -- The text of a member; `none` is a read through the null pointer of a member that is missing.
  unfoldable pub string_member : Object → Bytes → Option Bytes
  string_member o key = get_string (object_get_ex (some o) key)

  unfoldable pub parse_post : Object → Option Parsed
  parse_post o = do
    contents ← string_member o (codes "data")
    dest ← string_member o (codes "dest")
    some (
        post_cmd (record {
          contents = contents;
          dest = dest;
          size = size_of_int (get_int (object_get_ex (some o) (codes "size")));
        }))

  -- A login leaves the member `admin` as it was allocated; it is not read, and is 0 here.
  unfoldable pub parse_login : Object → Option Parsed
  parse_login o = do
    username ← string_member o (codes "username")
    password ← string_member o (codes "password")
    some (login_cmd (record { username = username; password = password; admin = 0 }))

  unfoldable pub parse_new_user : Object → Option Parsed
  parse_new_user o = do
    username ← string_member o (codes "username")
    password ← string_member o (codes "password")
    some (
        new_user_cmd (record {
          username = username;
          password = password;
          admin = boolean_of_int (get_int (object_get_ex (some o) (codes "is_admin")));
        }))

  -- The ladder over the kinds. For `data` the code copies the text without its terminator: `raw` has the
  -- bytes that it does copy, and what a reader finds behind them is a matter of `with_behind` in
  -- Client/Link.
  unfoldable pub parse_kind : Object → Bytes → Option Parsed
  unfolding parse_post parse_login parse_new_user
  parse_kind o kind =
      if str_eq kind (codes "int")
      then some (int (get_int (object_get_ex (some o) (codes "value"))))
      else if str_eq kind (codes "string")
      then (do s ← string_member o (codes "value"); some (string s))
      else if str_eq kind (codes "double")
      then some (double (get_double (object_get_ex (some o) (codes "value"))))
      else if str_eq kind (codes "data")
      then (do s ← string_member o (codes "value"); some (raw s))
      else if str_eq kind (codes "command.post")
      then parse_post o
      else if str_eq kind (codes "command.get")
      then (do path ← string_member o (codes "path"); some (get_cmd (record { path = path })))
      else if str_eq kind (codes "command.login")
      then parse_login o
      else if str_eq kind (codes "command.logout")
      then some logout_cmd
      else if str_eq kind (codes "command.close")
      then some close_cmd
      else if str_eq kind (codes "command.new_user")
      then parse_new_user o
      else if str_eq kind (codes "command.change_pass")
      then (do
        pass ← string_member o (codes "password")
        some (change_pass_cmd (record { pass = pass })))
      else some (unknown kind)

  -- `none` is a read through a null pointer: the text is no JSON object, or a member is missing.
  unfoldable pub parse_encoded : Bytes → Option Parsed
  unfolding parse_kind
  parse_encoded text = do
    o ← tokener_parse text
    kind ← string_member o (codes "kind")
    parse_kind o kind
