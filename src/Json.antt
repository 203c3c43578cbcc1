-- ===== src/Json.antt =====
-- The JSON library that lib/serialization calls: its functions are parameters, with the documented
-- behaviour that the code relies on as laws. A null pointer is `none`.

pub mod Instance
use itba_os_tp1_ipc_2016_q.Base.{◌≡◌, ◌≢◌, Option, none, some, Bytes, Lacks}
use itba_os_tp1_ipc_2016_q.Base.Words.{ℤ, pos, IsInt}

pub record Json : Type 1 where
  pub Object : Type 0
  pub Double : Type 0
  pub new_object : Object
  pub new_int : ℤ → Object
  pub new_double : Double → Object
  pub new_string : Bytes → Object
  pub object_add : Object → Bytes → Object → Object
  pub object_get_ex : Option Object → Bytes → Option Object
  pub get_int : Option Object → ℤ
  pub get_double : Option Object → Double
  pub get_string : Option Object → Option Bytes
  pub to_json_string : Object → Bytes
  pub tokener_parse : Bytes → Option Object
  -- Objects whose text determines them; a `double` may lose digits in its text.
  pub IsExact : Object → Type 0
  pub exact_object : IsExact new_object
  pub exact_int : (i : ℤ) → IsExact (new_int i)
  pub exact_string : (s : Bytes) → Lacks 0 s → IsExact (new_string s)
  pub exact_add :
      (o : Object) (k : Bytes) (v : Object) → IsExact o → IsExact v → IsExact (object_add o k v)
  pub get_add_same :
      (o : Object) (k : Bytes) (v : Object) → object_get_ex (some (object_add o k v)) k ≡ some v
  pub get_add_other :
      (o : Object) (k j : Bytes) (v : Object)
      → k ≢ j
      → object_get_ex (some (object_add o k v)) j ≡ object_get_ex (some o) j
  pub get_int_new : (i : ℤ) → IsInt i → get_int (some (new_int i)) ≡ i
  pub get_double_new : (d : Double) → get_double (some (new_double d)) ≡ d
  pub get_string_new : (s : Bytes) → Lacks 0 s → get_string (some (new_string s)) ≡ some s
  pub get_string_null : get_string none ≡ none
  pub get_null : (k : Bytes) → object_get_ex none k ≡ none
  pub parse_print : (o : Object) → IsExact o → tokener_parse (to_json_string o) ≡ some o
  pub print_text : (o : Object) → Lacks 0 (to_json_string o)
