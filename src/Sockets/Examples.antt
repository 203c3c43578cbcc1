-- ===== src/Sockets/Examples.antt =====
-- Tests of the connections over sockets.
use itba_os_tp1_ipc_2016_q.Base.{
  ℕ, ◌≡◌, refl, arith, true, false, [], ◌++◌, Option, none, some, Bytes, codes, ◌==◌, if◌then◌else◌,
}
use itba_os_tp1_ipc_2016_q.Base.Decimal.{decimal}
use itba_os_tp1_ipc_2016_q.Address.{Addr}
use itba_os_tp1_ipc_2016_q.Address.Socket
use itba_os_tp1_ipc_2016_q.Client.{open_, idle}
use itba_os_tp1_ipc_2016_q.Config.{socket, client_url}
use itba_os_tp1_ipc_2016_q.Server.{CommError}
use itba_os_tp1_ipc_2016_q.Sockets.{
  SocketConnection, connection_open, comm_listen, accepted, comm_accept,
}
use itba_os_tp1_ipc_2016_q.Sockets.Connect.{
  IsUnnoticed, connected_client, accepting_server, comm_accept-IsUnnoticed, sockets_connect,
}

abbrev new_addr : Addr
new_addr = record { url = none; protocol = none; host = none; valid = false; port = none }

abbrev server_at : Addr
server_at = record new_addr { host = some (codes "google"); port = some 7978 }

abbrev fresh : CommError
fresh = record { code = 9; msg = [] }

abbrev connection : Addr → SocketConnection
connection client_addr = record {
  client_addr = client_addr;
  server_addr = server_at;
  connection_file = [];
  state = idle;
  req_fd = none;
  res_fd = none;
}

abbrev accept : ℕ → Option ℕ
accept fd = if fd == 3 then some 4 else none

-- A socket that cannot be made is an error of `comm_listen`.
listen_refused : (comm_listen none true true (connection new_addr)).0.code ≡ 3100
unfolding comm_listen
listen_refused = refl

comm_accept-IsUnnoticed_example :
    ((s : SocketConnection) → IsUnnoticed (comm_accept accept new_addr (codes "a") fresh s))
    × (comm_accept accept new_addr
          (codes "a")
          fresh
          (record (connection new_addr) { connection_file = decimal 5 })
        ≡ accepted
            (record { code = 0; msg = codes "OK" })
            (record {
              client_addr = (Socket.address_from_url [] new_addr).1;
              server_addr = server_at;
              connection_file = decimal 5;
              state = open_;
              req_fd = none;
              res_fd = none;
            })
            (codes "a"))
comm_accept-IsUnnoticed_example =
    comm_accept-IsUnnoticed accept new_addr (codes "a") fresh (connection new_addr) 5 refl

abbrev client : SocketConnection
client = connection (Socket.address_from_url (client_url socket (codes "ana")) new_addr).1

sockets_connect_example :
    (wire : Bytes) × (connection_open (some 6) (λ host. true) true client
      ≡ some (0, wire, connected_client 6 client))
    × (comm_accept accept new_addr
          (wire ++ codes "--b")
          fresh
          (comm_listen (some 3) true true (connection new_addr)).1
        ≡ accepted
            (record { code = 0; msg = codes "OK" })
            (accepting_server 3 4 (codes "ana") new_addr (connection new_addr))
            (codes "--b"))
sockets_connect_example =
    sockets_connect 3 4 6 accept (λ host. true) (codes "ana") (codes "--b") new_addr new_addr client
      (connection new_addr) fresh (refl, (refl, (refl, tt))) (omega arith) (omega arith) refl refl
      refl
