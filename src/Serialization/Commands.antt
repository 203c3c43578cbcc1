-- ===== src/Serialization/Commands.antt =====
-- The messages, and `stringify_…`, which gives the text of each of them.
use itba_os_tp1_ipc_2016_q.Base.{ℕ, Bytes, codes}
use itba_os_tp1_ipc_2016_q.Base.Words.{ℤ, pos, int_of_size}
use itba_os_tp1_ipc_2016_q.Json.{Json}

-- `command_get_t`, `command_post_t`, `user_t` and `command_change_pass_t`. The structures for login
-- and a new user hold a `user_t` alone.
pub record CommandGet : Type 0 where
  pub path : Bytes

pub record CommandPost : Type 0 where
  pub contents : Bytes
  pub dest : Bytes
  pub size : ℕ

pub record User : Type 0 where
  pub username : Bytes
  pub password : Bytes
  pub admin : ℕ

pub record CommandChangePass : Type 0 where
  pub pass : Bytes

module _ (json : Json) where
  open json use {
    Object, Double, new_object, new_int, new_double, new_string, object_add, to_json_string,
  }

  -- What is sent: one constructor for each `send_…` function.
  pub data Message : Type 0 where
    int : ℤ → Message
    double : Double → Message
    string : Bytes → Message
    raw : Bytes → ℕ → Message
    get_cmd : CommandGet → Message
    post_cmd : CommandPost → Message
    login_cmd : User → Message
    logout_cmd : Message
    close_cmd : Message
    new_user_cmd : User → Message
    change_pass_cmd : CommandChangePass → Message

  -- An object with its kind.
  unfoldable pub of_kind : Bytes → Object
  of_kind kind = object_add new_object (codes "kind") (new_string kind)

  unfoldable pub stringify_int : ℤ → Object
  stringify_int i = object_add (of_kind (codes "int")) (codes "value") (new_int i)

  unfoldable pub stringify_double : Double → Object
  stringify_double d = object_add (of_kind (codes "double")) (codes "value") (new_double d)

  unfoldable pub stringify_string : Bytes → Object
  stringify_string s = object_add (of_kind (codes "string")) (codes "value") (new_string s)

  unfoldable pub stringify_data : Bytes → ℕ → Object
  stringify_data s size =
      object_add (object_add (of_kind (codes "data")) (codes "value") (new_string s)) (codes "size")
        (new_int (int_of_size size))

  unfoldable pub stringify_command_get : CommandGet → Object
  stringify_command_get cmd =
      object_add (of_kind (codes "command.get")) (codes "path") (new_string cmd.path)

  unfoldable pub stringify_command_post : CommandPost → Object
  stringify_command_post cmd =
      object_add
        (object_add
          (object_add (of_kind (codes "command.post")) (codes "data") (new_string cmd.contents))
          (codes "dest") (new_string cmd.dest))
        (codes "size") (new_int (int_of_size cmd.size))

  unfoldable pub stringify_command_login : User → Object
  stringify_command_login user =
      object_add
        (object_add (of_kind (codes "command.login")) (codes "username") (new_string user.username))
        (codes "password") (new_string user.password)

  unfoldable pub stringify_command_logout : Object
  stringify_command_logout = of_kind (codes "command.logout")

  unfoldable pub stringify_command_close : Object
  stringify_command_close = of_kind (codes "command.close")

  unfoldable pub stringify_command_new_user : User → Object
  stringify_command_new_user user =
      object_add
        (object_add
          (object_add (of_kind (codes "command.new_user")) (codes "username")
            (new_string user.username))
          (codes "password") (new_string user.password))
        (codes "is_admin") (new_int (pos user.admin))

  unfoldable pub stringify_command_change_pass : CommandChangePass → Object
  stringify_command_change_pass cmd =
      object_add (of_kind (codes "command.change_pass")) (codes "password") (new_string cmd.pass)

  -- The object of a message, whose text the `send_…` functions hand to the channel.
  unfoldable pub message_object : Message → Object
  message_object (int i) = stringify_int i
  message_object (double d) = stringify_double d
  message_object (string s) = stringify_string s
  message_object (raw s size) = stringify_data s size
  message_object (get_cmd cmd) = stringify_command_get cmd
  message_object (post_cmd cmd) = stringify_command_post cmd
  message_object (login_cmd user) = stringify_command_login user
  message_object logout_cmd = stringify_command_logout
  message_object close_cmd = stringify_command_close
  message_object (new_user_cmd user) = stringify_command_new_user user
  message_object (change_pass_cmd cmd) = stringify_command_change_pass cmd

  unfoldable pub serialized : Message → Bytes
  serialized m = to_json_string (message_object m)
