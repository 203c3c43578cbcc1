-- ===== src/Config.antt =====
-- server/server_config.c, client/client_config.c, read_config of monitor/main.c and the starts of
-- server/main.c and client/main.c: options, configuration files, and the addresses made of them. The
-- JSON library and getopt are parameters.
pub mod Loading
pub mod Addresses
mod Examples
use itba_os_tp1_ipc_2016_q.Base.{
  ℕ, ◌+◌, ◌^◌, List, [], ◌∷◌, ◌++◌, Option, none, some, Bytes, codes, length,
}
use itba_os_tp1_ipc_2016_q.Base.Decimal.{decimal}
use itba_os_tp1_ipc_2016_q.Base.Words.{ℤ, pos, negsuc, int_of_word, wrap, size_of_int}
use itba_os_tp1_ipc_2016_q.Channel.{getrnd}
use itba_os_tp1_ipc_2016_q.FileUtils.{FileSystem, raw_data_from_file}
use itba_os_tp1_ipc_2016_q.Json.{Json}

-- What a call of `getopt` gives before it gives -1: the option that the program knows, with its
-- argument, or `?`.
pub data Getopt : Type 0 where
  option : Bytes → Getopt
  refused : Getopt

-- `process_arguments` of the server: the argument of `-c`. An option that is refused forgets it.
unfoldable pub config_file_opt : List Getopt → Option Bytes → Option Bytes
config_file_opt [] path = path
config_file_opt (option arg ∷ opts) path = config_file_opt opts (some arg)
config_file_opt (refused ∷ opts) path = none

-- `process_arguments` of the client: the argument of `-n`. An option that is refused ends the loop.
unfoldable pub client_name_opt : List Getopt → Option Bytes → Option Bytes
client_name_opt [] name = name
client_name_opt (option arg ∷ opts) name = client_name_opt opts (some arg)
client_name_opt (refused ∷ opts) name = name

-- `server_config_t`.
pub record ServerConfig : Type 0 where
  pub server_name : Bytes
  pub port : ℕ
  pub db_file : Bytes
  pub min_threads : ℕ
  pub max_threads : ℕ

-- What comes of a configuration file: it is not there, or a text in it is missing and the null
-- pointer is copied, or it is read.
pub data Loaded (A : Type 0) : Type 0 where
  not_opened : Loaded A
  fault : Loaded A
  loaded : A → Loaded A

-- `DEFAULT_CONFIG_FILE` of the server.
abbrev pub default_config_file : Bytes
default_config_file = codes "server/config/config.json"

-- `DEFAULT_CONFIG_FILE` of the monitor.
abbrev pub monitor_config_file : Bytes
monitor_config_file = codes "monitor/config/config.json"

module _ (json : Json) where
  open json use {Object, object_get_ex, get_int, get_string, tokener_parse}

  -- The members are read one by one; the two texts are copied.
  unfoldable pub read_members : Option Object → Loaded ServerConfig
  read_members main =
      let number : Bytes → ℤ = λ key. get_int (object_get_ex main key) in
      elim (get_string (object_get_ex main (codes "server_name"))) [
        | none ↦ fault
        | some server_name ↦ elim (get_string (object_get_ex main (codes "db"))) [
          | none ↦ fault
          | some db_file ↦ loaded (record {
            server_name = server_name;
            port = wrap (2 ^ 32) (number (codes "port"));
            db_file = db_file;
            min_threads = size_of_int (number (codes "min_threads"));
            max_threads = size_of_int (number (codes "max_threads"));
          })
        ]
      ]

  unfoldable pub load_configuration : FileSystem → Bytes → Loaded ServerConfig
  unfolding raw_data_from_file read_members
  load_configuration fs path = elim (raw_data_from_file fs path) [
    | none ↦ not_opened
    | some raw ↦ read_members (tokener_parse raw.0)
  ]

  -- The monitor's only member. Without the file the interval stays as it was allocated.
  unfoldable pub read_config : FileSystem → Option ℤ
  unfolding raw_data_from_file
  read_config fs = elim (raw_data_from_file fs monitor_config_file) [
    | none ↦ none
    | some raw ↦ some (get_int (object_get_ex (tokener_parse raw.0) (codes "refresh_interval")))
  ]

  -- The start of the server: `not_opened` is an abort.
  unfoldable pub server_start : FileSystem → List Getopt → Loaded ServerConfig
  unfolding load_configuration config_file_opt
  server_start fs opts = elim (config_file_opt opts none) [
    | none ↦ load_configuration fs default_config_file
    | some path ↦ load_configuration fs path
  ]

-- The two builds.
pub data Build : Type 0 where
  fifo : Build
  socket : Build

-- `sprintf("%d")` of any `int`.
unfoldable pub print_int : ℤ → Bytes
print_int (pos n) = decimal n
print_int (negsuc n) = b'-' ∷ decimal (n + 1)

-- The URL that the server listens on; the port is printed as an `int`.
unfoldable pub server_url : Build → ServerConfig → Bytes
unfolding print_int
server_url fifo config = codes "fifo://" ++ config.server_name
server_url socket config =
    codes "socket://" ++ (config.server_name ++ (codes ":" ++ print_int (int_of_word config.port)))

-- The bytes allocated for it; `floor_log10` is `floorf(log10(port))`.
unfoldable pub server_url_room : (ℕ → ℕ) → ServerConfig → ℕ
server_url_room floor_log10 config =
    10 + length config.server_name + floor_log10 config.port + 1 + 1

abbrev pub protocol_of : Build → Bytes
protocol_of fifo = codes "fifo"
protocol_of socket = codes "socket"

-- The name of a client: that of the option, or one with this value of `rand()`.
unfoldable pub client_name : Option Bytes → ℕ → Bytes
unfolding getrnd
client_name (some name) rand = name
client_name none rand = codes "anon" ++ decimal (getrnd 1000 10000 rand)

unfoldable pub client_url : Build → Bytes → Bytes
client_url build name = protocol_of build ++ (codes "://" ++ (name ++ codes ":3000"))

-- The bytes allocated for it.
unfoldable pub client_url_room : Build → Bytes → ℕ
client_url_room build name = length (protocol_of build) + 3 + length name + 1 + 5
