-- ===== src/Config/Loading.antt =====
-- Configuration files that are written with the members that the programs read.
use itba_os_tp1_ipc_2016_q.Base.{
  ℕ, ◌<◌, ◌^◌, ◌≡◌, ◌≢◌, refl, ◌∙◌, ap, arith, List, [], ◌∷◌, ◌++◌, Option, none, some, Bytes,
  codes, Lacks, str_eq, str_eq_refl, true, false, map,
}
use itba_os_tp1_ipc_2016_q.Base.Words.{pos, wrap, size_of_int}
use itba_os_tp1_ipc_2016_q.FileUtils.{FileSystem, raw_data_from_file}
use itba_os_tp1_ipc_2016_q.Json.{Json}
use itba_os_tp1_ipc_2016_q.Config.{
  Getopt, option, refused, config_file_opt, ServerConfig, loaded, default_config_file, read_members,
  load_configuration, server_start,
}

-- The numbers fit an `int`.
abbrev pub FitsInt : ServerConfig → Type 0
FitsInt c = (c.port < 2 ^ 31) × (c.min_threads < 2 ^ 31) × (c.max_threads < 2 ^ 31)

-- The values that a file that is printed can hold: texts without a zero byte as well.
abbrev pub Fits : ServerConfig → Type 0
Fits c = Lacks 0 c.server_name × Lacks 0 c.db_file × FitsInt c

-- The last of these options, or the default.
abbrev pub chosen : List Bytes → Bytes → Bytes
chosen [] path = path
chosen (p ∷ paths) path = chosen paths p

unsigned-int : (n : ℕ) → n < 2 ^ 31 → wrap (2 ^ 32) (pos n) ≡ n
unsigned-int n h = ground arith

size-pos : (n : ℕ) → n < 2 ^ 31 → size_of_int (pos n) ≡ n
size-pos n h = ground arith

-- The options are read to the last.
opt-chosen :
    (paths : List Bytes) (path : Bytes)
    → config_file_opt (map option paths) (some path) ≡ some (chosen paths path)
unfolding config_file_opt
opt-chosen [] path = refl
opt-chosen (p ∷ paths) path = opt-chosen paths p

opt-refused :
    (paths : List Bytes) (path : Option Bytes) (opts : List Getopt)
    → config_file_opt (map option paths ++ refused ∷ opts) path ≡ none
unfolding config_file_opt
opt-refused [] path opts = refl
opt-refused (p ∷ paths) path opts = opt-refused paths (some p) opts

module _ (json : Json) where
  open json use {
    Object, new_object, new_string, new_int, object_add, object_get_ex, get_int, get_string,
    to_json_string, tokener_parse, IsExact, exact_object, exact_int, exact_string, exact_add,
    get_add_same, get_add_other, get_int_new, get_string_new, parse_print,
  }

  -- The object of a configuration file, with the members in the order of the repository's own.
  abbrev pub config_object : ServerConfig → Object
  config_object c =
      let o₁ = object_add new_object (codes "server_name") (new_string c.server_name) in
      let o₂ = object_add o₁ (codes "port") (new_int (pos c.port)) in
      let o₃ = object_add o₂ (codes "db") (new_string c.db_file) in
      let o₄ = object_add o₃ (codes "min_threads") (new_int (pos c.min_threads)) in
      object_add o₄ (codes "max_threads") (new_int (pos c.max_threads))

  config_object-IsExact : (c : ServerConfig) → Fits c → IsExact (config_object c)
  config_object-IsExact c (n, d, (p, i, a)) =
      exact_add _ _ _
        (exact_add _ _ _
          (exact_add _ _ _
            (exact_add _ _ _ (exact_add _ _ _ exact_object (exact_string _ n)) (exact_int _))
            (exact_string _ d))
          (exact_int _))
        (exact_int _)

  differ : (k j : Bytes) → str_eq k j ≡ false → k ≢ j
  differ k j h e = let t : str_eq k j ≡ true = rw e (str_eq_refl j) in cc

  other :
      (o v : Object) (k j : Bytes)
      → str_eq k j ≡ false
      → object_get_ex (some (object_add o k v)) j ≡ object_get_ex (some o) j
  other o v k j h = get_add_other o k j v (differ k j h)

  -- What was parsed has the five members of a configuration with these values, whatever else it has.
  abbrev pub Holds : Option Object → ServerConfig → Type 0
  Holds o c =
      (get_string (object_get_ex o (codes "server_name")) ≡ some c.server_name)
      × (get_int (object_get_ex o (codes "port")) ≡ pos c.port)
      × (get_string (object_get_ex o (codes "db")) ≡ some c.db_file)
      × (get_int (object_get_ex o (codes "min_threads")) ≡ pos c.min_threads)
      × (get_int (object_get_ex o (codes "max_threads")) ≡ pos c.max_threads)

  config_object-Holds : (c : ServerConfig) → Fits c → Holds (some (config_object c)) c
  config_object-Holds c (n, d, (p, i, a)) =
      let o₁ = object_add new_object (codes "server_name") (new_string c.server_name) in
      let o₂ = object_add o₁ (codes "port") (new_int (pos c.port)) in
      let o₃ = object_add o₂ (codes "db") (new_string c.db_file) in
      let o₄ = object_add o₃ (codes "min_threads") (new_int (pos c.min_threads)) in
      (
        ap get_string (
              other o₄ _ _ _ refl
              ∙ other o₃ _ _ _ refl
              ∙ other o₂ _ _ _ refl
              ∙ other o₁ _ _ _ refl
              ∙ get_add_same new_object _ _)
            ∙ get_string_new c.server_name n,
        ap get_int (
              other o₄ _ _ _ refl ∙ other o₃ _ _ _ refl ∙ other o₂ _ _ _ refl ∙ get_add_same o₁ _ _)
            ∙ get_int_new (pos c.port) p,
        ap get_string (other o₄ _ _ _ refl ∙ other o₃ _ _ _ refl ∙ get_add_same o₂ _ _)
            ∙ get_string_new c.db_file d,
        ap get_int (other o₄ _ _ _ refl ∙ get_add_same o₃ _ _) ∙ get_int_new (pos c.min_threads) i,
        ap get_int (get_add_same o₄ _ _) ∙ get_int_new (pos c.max_threads) a,
      )

  -- A file that json-c prints is one that holds its configuration.
  pub printed-Holds :
      (c : ServerConfig) → Fits c → Holds (tokener_parse (to_json_string (config_object c))) c
  printed-Holds c f =
      rw (parse_print (config_object c) (config_object-IsExact c f)) (config_object-Holds c f)

  members :
      (o : Option Object) (c : ServerConfig)
      → FitsInt c
      → Holds o c
      → read_members json o ≡ loaded c
  unfolding read_members
  members o c (p, i, a) (name, port, db, low, high) =
      rw (read_members, name, db, port, low, high)
        (rw (unsigned-int c.port p, size-pos c.min_threads i, size-pos c.max_threads a) refl)

  loads :
      (fs : FileSystem) (path text : Bytes) (c : ServerConfig)
      → fs path ≡ some text
      → FitsInt c
      → Holds (tokener_parse text) c
      → load_configuration json fs path ≡ loaded c
  unfolding load_configuration raw_data_from_file
  loads fs path text c e f h = rw (load_configuration, e) (members (tokener_parse text) c f h)

  -- If the last file that the options name, or the default one if there is no option, can be read, and
  -- its text parses to an object whose five members are those of a configuration, with numbers below
  -- 2 ^ 31, the server starts with this configuration, however the text is laid out and whatever else
  -- is in it.
  pub server_start-loaded :
      (fs : FileSystem) (paths : List Bytes) (text : Bytes) (c : ServerConfig)
      → fs (chosen paths default_config_file) ≡ some text
      → FitsInt c
      → Holds (tokener_parse text) c
      → server_start json fs (map option paths) ≡ loaded c
  unfolding server_start config_file_opt
  server_start-loaded fs [] text c e f h = loads fs default_config_file text c e f h
  server_start-loaded fs (p ∷ paths) text c e f h =
      rw (server_start, opt-chosen paths p) (loads fs (chosen paths p) text c e f h)

  -- An option that is refused makes the server start from the default file, whatever file the options
  -- name.
  pub server_start-refused :
      (fs : FileSystem) (paths : List Bytes) (opts : List Getopt)
      → server_start json fs (map option paths ++ refused ∷ opts)
        ≡ load_configuration json fs default_config_file
  unfolding server_start
  server_start-refused fs paths opts = rw (server_start, opt-refused paths none opts) refl
