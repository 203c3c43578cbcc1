-- ===== src/Config/Examples.antt =====
-- Tests of the configurations and their addresses.
use itba_os_tp1_ipc_2016_q.Base.{◌≡◌, refl, arith, [], ◌∷◌, none, some, false, map, codes}
use itba_os_tp1_ipc_2016_q.Address.{Addr}
use itba_os_tp1_ipc_2016_q.Json.Instance.{list_json}
use itba_os_tp1_ipc_2016_q.FileUtils.{FileSystem}
use itba_os_tp1_ipc_2016_q.Json.{Json}
use itba_os_tp1_ipc_2016_q.Config.{
  option, refused, ServerConfig, loaded, server_start, client_name_opt, config_file_opt, socket,
}
use itba_os_tp1_ipc_2016_q.Config.Loading.{config_object, printed-Holds, server_start-loaded}
use itba_os_tp1_ipc_2016_q.Config.Addresses.{
  Listens, server-Listens, floor_digits, floor_digits-IsFloorLog,
}

abbrev config : ServerConfig
config = record {
  server_name = codes "google";
  port = 7978;
  db_file = codes "./files.db";
  min_threads = 10;
  max_threads = 100;
}

abbrev new_addr : Addr
new_addr = record { url = none; protocol = none; host = none; valid = false; port = none }

abbrev files : FileSystem
files = λ path. some (Json.to_json_string list_json (config_object list_json config))

-- An option that is refused drops the file of the server and keeps the name of the client.
refused_file : config_file_opt (option (codes "a") ∷ refused ∷ []) none ≡ none
unfolding config_file_opt
refused_file = refl

refused_name : client_name_opt (option (codes "a") ∷ refused ∷ []) none ≡ some (codes "a")
unfolding client_name_opt
refused_name = refl

server_start-loaded_example :
    server_start list_json files (map option (codes "a.json" ∷ [])) ≡ loaded config
server_start-loaded_example =
    server_start-loaded list_json files (codes "a.json" ∷ [])
      (Json.to_json_string list_json (config_object list_json config)) config refl (omega arith)
      (printed-Holds list_json config (omega arith))

server-Listens_example : Listens floor_digits socket config new_addr
server-Listens_example =
    server-Listens floor_digits socket config new_addr floor_digits-IsFloorLog
      (refl, (refl, (refl, (refl, (refl, (refl, tt)))))) (omega arith) (omega arith)
