-- ===== src/Serialization/RoundTrip.antt =====
-- Messages from their serialization to the parser, for each kind.
use itba_os_tp1_ipc_2016_q.Base.{
  ◌<◌, ◌^◌, ◌≡◌, ◌≢◌, refl, ◌∙◌, ap, arith, some, Bytes, codes, Lacks, str_eq, str_eq_refl, true,
  false,
}
use itba_os_tp1_ipc_2016_q.Base.Words.{
  ℤ, pos, IsInt, int_of_size, size_of_int, boolean_of_int, size-int, boolean-int, int_of_size-IsInt,
}
use itba_os_tp1_ipc_2016_q.Json.{Json}
use itba_os_tp1_ipc_2016_q.Serialization.Commands.{
  CommandPost, User, Message, message_object, serialized, of_kind, stringify_int, stringify_double,
  stringify_string, stringify_data, stringify_command_get, stringify_command_logout,
  stringify_command_close, stringify_command_change_pass, stringify_command_post,
  stringify_command_login, stringify_command_new_user,
}
use itba_os_tp1_ipc_2016_q.Serialization.Parse.{
  Parsed, parse_encoded, string_member, parse_kind, parse_post, parse_login, parse_new_user,
}

module _ (json : Json) where
  open json use {
    Object, new_object, new_string, new_int, new_double, object_add, object_get_ex, get_int,
    get_double, get_string, to_json_string, IsExact, exact_object, exact_int, exact_string,
    exact_add, get_add_same, get_add_other, get_int_new, get_double_new, get_string_new,
    parse_print,
  }

  -- The message as the other side has it: a login carries no `admin` flag, and the size of raw data
  -- is sent but not read.
  abbrev pub received_as : Message json → Parsed json
  received_as (Message.int i) = Parsed.int i
  received_as (Message.double d) = Parsed.double d
  received_as (Message.string s) = Parsed.string s
  received_as (Message.raw s size) = Parsed.raw s
  received_as (Message.get_cmd cmd) = Parsed.get_cmd cmd
  received_as (Message.post_cmd cmd) = Parsed.post_cmd cmd
  received_as (Message.login_cmd user) = Parsed.login_cmd (record user { admin = 0 })
  received_as Message.logout_cmd = Parsed.logout_cmd
  received_as Message.close_cmd = Parsed.close_cmd
  received_as (Message.new_user_cmd user) = Parsed.new_user_cmd user
  received_as (Message.change_pass_cmd cmd) = Parsed.change_pass_cmd cmd

  -- The values that C can hold, with sizes that fit an `int`, and doubles whose text is exact.
  abbrev pub IsSendable : Message json → Type 0
  IsSendable (Message.int i) = IsInt i
  IsSendable (Message.double d) = IsExact (new_double d)
  IsSendable (Message.string s) = Lacks 0 s
  IsSendable (Message.raw s size) = Lacks 0 s
  IsSendable (Message.get_cmd cmd) = Lacks 0 cmd.path
  IsSendable (Message.post_cmd cmd) = Lacks 0 cmd.contents × Lacks 0 cmd.dest × (cmd.size < 2 ^ 31)
  IsSendable (Message.login_cmd user) = Lacks 0 user.username × Lacks 0 user.password
  IsSendable Message.logout_cmd = Unit
  IsSendable Message.close_cmd = Unit
  IsSendable (Message.new_user_cmd user) =
      Lacks 0 user.username × Lacks 0 user.password × (user.admin < 256)
  IsSendable (Message.change_pass_cmd cmd) = Lacks 0 cmd.pass

  differ : (k j : Bytes) → str_eq k j ≡ false → k ≢ j
  differ k j h e = let t : str_eq k j ≡ true = rw e (str_eq_refl j) in cc

  get_other :
      (o v : Object) (k j : Bytes)
      → str_eq k j ≡ false
      → object_get_ex (some (object_add o k v)) j ≡ object_get_ex (some o) j
  get_other o v k j h = get_add_other o k j v (differ k j h)

  -- A member that was just added, and one that another was added behind.
  member_same :
      (o : Object) (k s : Bytes)
      → Lacks 0 s
      → string_member json (object_add o k (new_string s)) k ≡ some s
  unfolding string_member
  member_same o k s h = ap get_string (get_add_same o k (new_string s)) ∙ get_string_new s h

  member_other :
      (o v : Object) (k j : Bytes)
      → str_eq k j ≡ false
      → string_member json (object_add o k v) j ≡ string_member json o j
  unfolding string_member
  member_other o v k j h = ap get_string (get_other o v k j h)

  int_same :
      (o : Object) (k : Bytes) (i : ℤ)
      → IsInt i
      → get_int (object_get_ex (some (object_add o k (new_int i))) k) ≡ i
  int_same o k i h = ap get_int (get_add_same o k (new_int i)) ∙ get_int_new i h

  kind_first :
      (kind : Bytes)
      → Lacks 0 kind
      → string_member json (of_kind json kind) (codes "kind") ≡ some kind
  unfolding of_kind
  kind_first kind h = member_same new_object (codes "kind") kind h

  exact_kind : (kind : Bytes) → Lacks 0 kind → IsExact (of_kind json kind)
  unfolding of_kind
  exact_kind kind h = exact_add _ _ _ exact_object (exact_string kind h)

  -- The steps before the ladder.
  parse_head :
      (o : Object) (kind : Bytes)
      → IsExact o
      → string_member json o (codes "kind") ≡ some kind
      → parse_encoded json (to_json_string o) ≡ parse_kind json o kind
  unfolding parse_encoded
  parse_head o kind h e = rw (parse_print o h) (rw e)

  post_of :
      (o : Object) (cmd : CommandPost) (i : ℤ)
      → string_member json o (codes "data") ≡ some cmd.contents
      → string_member json o (codes "dest") ≡ some cmd.dest
      → get_int (object_get_ex (some o) (codes "size")) ≡ i
      → size_of_int i ≡ cmd.size
      → parse_post json o ≡ some (Parsed.post_cmd cmd)
  unfolding parse_post
  post_of o cmd i e₁ e₂ e₃ e₄ = rw (e₁, e₂, e₃, e₄)

  post_members :
      (cmd : CommandPost)
      → Lacks 0 cmd.contents × Lacks 0 cmd.dest × (cmd.size < 2 ^ 31)
      → parse_post json (stringify_command_post json cmd) ≡ some (Parsed.post_cmd cmd)
  unfolding stringify_command_post
  post_members cmd (hc, hd, hs) =
      let o₀ = of_kind json (codes "command.post") in
      let o₁ = object_add o₀ (codes "data") (new_string cmd.contents) in
      let o₂ = object_add o₁ (codes "dest") (new_string cmd.dest) in
      post_of _ cmd (int_of_size cmd.size)
        (member_other o₂ _ _ _ refl ∙ member_other o₁ _ _ _ refl ∙ member_same o₀ _ _ hc)
        (member_other o₂ _ _ _ refl ∙ member_same o₁ _ _ hd)
        (int_same o₂ _ _ (int_of_size-IsInt cmd.size)) (size-int cmd.size hs)

  login_of :
      (o : Object) (u p : Bytes)
      → string_member json o (codes "username") ≡ some u
      → string_member json o (codes "password") ≡ some p
      → parse_login json o
        ≡ some (Parsed.login_cmd (record { username = u; password = p; admin = 0 }))
  unfolding parse_login
  login_of o u p e₁ e₂ = rw (e₁, e₂)

  login_members :
      (user : User)
      → Lacks 0 user.username × Lacks 0 user.password
      → parse_login json (stringify_command_login json user)
        ≡ some (Parsed.login_cmd (record user { admin = 0 }))
  unfolding stringify_command_login
  login_members user (hu, hp) =
      let o₀ = of_kind json (codes "command.login") in
      let o₁ = object_add o₀ (codes "username") (new_string user.username) in
      login_of _ user.username user.password (member_other o₁ _ _ _ refl ∙ member_same o₀ _ _ hu)
        (member_same o₁ _ _ hp)

  new_user_of :
      (o : Object) (user : User) (i : ℤ)
      → string_member json o (codes "username") ≡ some user.username
      → string_member json o (codes "password") ≡ some user.password
      → get_int (object_get_ex (some o) (codes "is_admin")) ≡ i
      → boolean_of_int i ≡ user.admin
      → parse_new_user json o ≡ some (Parsed.new_user_cmd user)
  unfolding parse_new_user
  new_user_of o user i e₁ e₂ e₃ e₄ = rw (e₁, e₂, e₃, e₄)

  new_user_members :
      (user : User)
      → Lacks 0 user.username × Lacks 0 user.password × (user.admin < 256)
      → parse_new_user json (stringify_command_new_user json user) ≡ some (Parsed.new_user_cmd user)
  unfolding stringify_command_new_user
  new_user_members user (hu, hp, ha) =
      let o₀ = of_kind json (codes "command.new_user") in
      let o₁ = object_add o₀ (codes "username") (new_string user.username) in
      let o₂ = object_add o₁ (codes "password") (new_string user.password) in
      new_user_of _ user (pos user.admin)
        (member_other o₂ _ _ _ refl ∙ member_other o₁ _ _ _ refl ∙ member_same o₀ _ _ hu)
        (member_other o₂ _ _ _ refl ∙ member_same o₁ _ _ hp) (int_same o₂ _ _ (omega arith))
        (boolean-int user.admin ha)

  -- The text of the member `kind`.
  abbrev kind_of : Message json → Bytes
  kind_of (Message.int i) = codes "int"
  kind_of (Message.double d) = codes "double"
  kind_of (Message.string s) = codes "string"
  kind_of (Message.raw s size) = codes "data"
  kind_of (Message.get_cmd cmd) = codes "command.get"
  kind_of (Message.post_cmd cmd) = codes "command.post"
  kind_of (Message.login_cmd user) = codes "command.login"
  kind_of Message.logout_cmd = codes "command.logout"
  kind_of Message.close_cmd = codes "command.close"
  kind_of (Message.new_user_cmd user) = codes "command.new_user"
  kind_of (Message.change_pass_cmd cmd) = codes "command.change_pass"

  object-IsExact : (m : Message json) → IsSendable m → IsExact (message_object json m)
  unfolding message_object stringify_int stringify_double stringify_string stringify_data
      stringify_command_get stringify_command_post stringify_command_login stringify_command_logout
      stringify_command_close stringify_command_new_user stringify_command_change_pass
  object-IsExact (Message.int i) h = exact_add _ _ _ (exact_kind _ (omega arith)) (exact_int i)
  object-IsExact (Message.double d) h = exact_add _ _ _ (exact_kind _ (omega arith)) h
  object-IsExact (Message.string s) h =
      exact_add _ _ _ (exact_kind _ (omega arith)) (exact_string s h)
  object-IsExact (Message.raw s size) h =
      exact_add _ _ _ (exact_add _ _ _ (exact_kind _ (omega arith)) (exact_string s h))
        (exact_int _)
  object-IsExact (Message.get_cmd cmd) h =
      exact_add _ _ _ (exact_kind _ (omega arith)) (exact_string cmd.path h)
  object-IsExact (Message.post_cmd cmd) (hc, hd, hs) =
      exact_add _ _ _
        (exact_add _ _ _
          (exact_add _ _ _ (exact_kind _ (omega arith)) (exact_string cmd.contents hc))
          (exact_string cmd.dest hd))
        (exact_int _)
  object-IsExact (Message.login_cmd user) (hu, hp) =
      exact_add _ _ _ (exact_add _ _ _ (exact_kind _ (omega arith)) (exact_string user.username hu))
        (exact_string user.password hp)
  object-IsExact Message.logout_cmd h = exact_kind _ (omega arith)
  object-IsExact Message.close_cmd h = exact_kind _ (omega arith)
  object-IsExact (Message.new_user_cmd user) (hu, hp, ha) =
      exact_add _ _ _
        (exact_add _ _ _
          (exact_add _ _ _ (exact_kind _ (omega arith)) (exact_string user.username hu))
          (exact_string user.password hp))
        (exact_int _)
  object-IsExact (Message.change_pass_cmd cmd) h =
      exact_add _ _ _ (exact_kind _ (omega arith)) (exact_string cmd.pass h)

  -- The kind is the first member, and no later one is named like it.
  object-kind :
      (m : Message json)
      → string_member json (message_object json m) (codes "kind") ≡ some (kind_of m)
  unfolding message_object stringify_int stringify_double stringify_string stringify_data
      stringify_command_get stringify_command_post stringify_command_login stringify_command_logout
      stringify_command_close stringify_command_new_user stringify_command_change_pass
  object-kind (Message.int i) = member_other _ _ _ _ refl ∙ kind_first _ (omega arith)
  object-kind (Message.double d) = member_other _ _ _ _ refl ∙ kind_first _ (omega arith)
  object-kind (Message.string s) = member_other _ _ _ _ refl ∙ kind_first _ (omega arith)
  object-kind (Message.raw s size) =
      member_other _ _ _ _ refl ∙ member_other _ _ _ _ refl ∙ kind_first _ (omega arith)
  object-kind (Message.get_cmd cmd) = member_other _ _ _ _ refl ∙ kind_first _ (omega arith)
  object-kind (Message.post_cmd cmd) =
      member_other _ _ _ _ refl
      ∙ member_other _ _ _ _ refl
      ∙ member_other _ _ _ _ refl
      ∙ kind_first _ (omega arith)
  object-kind (Message.login_cmd user) =
      member_other _ _ _ _ refl ∙ member_other _ _ _ _ refl ∙ kind_first _ (omega arith)
  object-kind Message.logout_cmd = kind_first _ (omega arith)
  object-kind Message.close_cmd = kind_first _ (omega arith)
  object-kind (Message.new_user_cmd user) =
      member_other _ _ _ _ refl
      ∙ member_other _ _ _ _ refl
      ∙ member_other _ _ _ _ refl
      ∙ kind_first _ (omega arith)
  object-kind (Message.change_pass_cmd cmd) = member_other _ _ _ _ refl ∙ kind_first _ (omega arith)

  ladder :
      (m : Message json)
      → IsSendable m
      → parse_kind json (message_object json m) (kind_of m) ≡ some (received_as m)
  unfolding message_object parse_kind
  ladder (Message.int i) h =
      unfold stringify_int in ap (λ t. some (Parsed.int t)) (int_same _ _ i h)
  ladder (Message.double d) h =
      unfold stringify_double in
      ap (λ t. some (Parsed.double t)) (ap get_double (get_add_same _ _ _) ∙ get_double_new d)
  ladder (Message.string s) h =
      unfold stringify_string in
      rw (member_same (of_kind json (codes "string")) (codes "value") s h)
  ladder (Message.raw s size) h =
      unfold stringify_data in
      let o₀ = of_kind json (codes "data") in
      let o₁ = object_add o₀ (codes "value") (new_string s) in
      rw (member_other o₁ (new_int (int_of_size size)) (codes "size") (codes "value") refl)
        (rw (member_same o₀ (codes "value") s h))
  ladder (Message.get_cmd cmd) h =
      unfold stringify_command_get in
      rw (member_same (of_kind json (codes "command.get")) (codes "path") cmd.path h)
  ladder (Message.post_cmd cmd) h = post_members cmd h
  ladder (Message.login_cmd user) h = login_members user h
  ladder Message.logout_cmd h = refl
  ladder Message.close_cmd h = refl
  ladder (Message.new_user_cmd user) h = new_user_members user h
  ladder (Message.change_pass_cmd cmd) h =
      unfold stringify_command_change_pass in
      rw (member_same (of_kind json (codes "command.change_pass")) (codes "password") cmd.pass h)

  -- Whatever a client or the server serializes, the parser of the other side gives back: every kind of
  -- message, with every text, each `int`, and sizes below 2 ^ 31. Two members do not come through, as
  -- `received_as` says: the size of raw data, and the flag `admin` of a login.
  pub parse-serialized :
      (m : Message json)
      → IsSendable m
      → parse_encoded json (serialized json m) ≡ some (received_as m)
  unfolding serialized
  parse-serialized m h =
      parse_head (message_object json m) (kind_of m) (object-IsExact m h) (object-kind m)
      ∙ ladder m h
