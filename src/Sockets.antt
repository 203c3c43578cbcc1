-- ===== src/Sockets.antt =====
-- lib/communication/socket: connection_open of comm.connection.socket.c, comm_listen and comm_accept of
-- comm.read.socket.c. What the calls of the system give is an argument; what one side writes to a socket
-- the other side reads in that order.
pub mod Connect
mod Examples
use itba_os_tp1_ipc_2016_q.Base.{
  ℕ, zero, suc, Bool, true, false, [], ◌∷◌, ◌++◌, Option, none, some, ◌>>=◌, Bytes, codes, ◌==◌,
  leb, if◌then◌else◌, length,
}
use itba_os_tp1_ipc_2016_q.Base.Decimal.{decimal, atoi}
use itba_os_tp1_ipc_2016_q.FileUtils.{write_one_by_one}
use itba_os_tp1_ipc_2016_q.Address.{AddrError, Addr}
use itba_os_tp1_ipc_2016_q.Address.Socket
use itba_os_tp1_ipc_2016_q.Client.{ConnectionState, idle, open_, closed}
use itba_os_tp1_ipc_2016_q.Client.Commands.{is_ok}
use itba_os_tp1_ipc_2016_q.Server.{CommError}

-- `connection_t`; a descriptor that is -1 is `none`.
pub record SocketConnection : Type 0 where
  pub client_addr : Addr
  pub server_addr : Addr
  pub connection_file : Bytes
  pub state : ConnectionState
  pub req_fd : Option ℕ
  pub res_fd : Option ℕ

-- The code that is returned, and what is written to the socket.
abbrev pub Opened : Type 0
Opened = ℕ × Bytes × SocketConnection

-- The client is connected and writes its URL; without a URL the null pointer is read.
unfoldable pub write_url : ℕ → Option Bytes → SocketConnection → Option Opened
write_url fd none conn = none
write_url fd (some url) conn = some (
  0,
  write_one_by_one url (length url),
  record conn { req_fd = some fd; res_fd = some fd; state = open_ },
)

-- `created` is what `socket` gives, `knows` says which hosts have an address, and `connects` whether
-- `connect` succeeds.
unfoldable pub connection_open :
    Option ℕ → (Option Bytes → Bool) → Bool → SocketConnection → Option Opened
unfolding write_url
connection_open none knows connects conn = some (3100, [], conn)
connection_open (some fd) knows connects conn =
    if knows conn.server_addr.host
    then (if connects then write_url fd conn.client_addr.url conn else some (402, [], conn))
    else some (401, [], conn)

unfoldable pub connection_close : SocketConnection → ℕ × SocketConnection
connection_close conn = (0, record conn { state = closed })

abbrev failed : ℕ → Bytes → SocketConnection → CommError × SocketConnection
failed code msg conn = (record { code = code; msg = msg }, conn)

-- `created` is what `socket` gives; `binds` and `listens` say whether `bind` and `listen` succeed.
unfoldable pub comm_listen :
    Option ℕ → Bool → Bool → SocketConnection → CommError × SocketConnection
comm_listen none binds listens conn = failed 3100 (codes "cant create socket") conn
comm_listen (some fd) false listens conn = failed 3101 (codes "cant bind socket") conn
comm_listen (some fd) true false conn = failed 3102 (codes "cant listen socket") conn
comm_listen (some fd) true true conn = (
  record { code = 0; msg = codes "OK" },
  record conn { connection_file = decimal fd; state = idle },
)

-- The text up to a zero byte, and what follows it; a wait for more; or a byte behind the block.
pub data UrlRead : Type 0 where
  url_read : Bytes → Bytes → UrlRead
  url_waits : UrlRead
  url_overflow : UrlRead

unfoldable pub put_before : ℕ → UrlRead → UrlRead
put_before c (url_read text rest) = url_read (c ∷ text) rest
put_before c url_waits = url_waits
put_before c url_overflow = url_overflow

-- `n` bytes were read before, of at most 2048. A client that closes the socket before its zero byte is
-- left out: the read would then find the zero that the block has.
unfoldable pub read_url_loop : ℕ → Bytes → UrlRead
unfolding put_before
read_url_loop n [] = if leb 2048 n then url_overflow else url_waits
read_url_loop n (c ∷ stream) =
    let rest = read_url_loop (suc n) stream in
    if leb 2048 n then url_overflow else if c == 0 then url_read [] stream else put_before c rest

-- A read from the descriptor -1 fails and leaves the zero byte that the block has.
unfoldable pub read_client_url : Option ℕ → Bytes → UrlRead
unfolding read_url_loop
read_client_url none stream = url_read [] stream
read_client_url (some fd) stream = read_url_loop 0 stream

pub data Accepted : Type 0 where
  accepted : CommError → SocketConnection → Bytes → Accepted
  accept_waits : Accepted
  accept_fault : Accepted

-- `address_from_url` does not end the function if it fails, and at the end the error is set to none.
unfoldable pub finish_accept :
    Option ℕ → AddrError × Addr → CommError → SocketConnection → CommError × SocketConnection
finish_accept fd (e, addr) error conn =
    let error' =
      if is_ok e then error else record { code = 3104; msg = codes "address cant be created" } in
    (
      record error' { code = 0; msg = codes "OK" },
      record conn { client_addr = addr; res_fd = fd; req_fd = fd; state = open_ },
    )

unfoldable pub after_url : Addr → Option ℕ → UrlRead → CommError → SocketConnection → Accepted
unfolding finish_accept
after_url blank fd (url_read text rest) error conn =
    let (error', conn') = finish_accept fd (Socket.address_from_url text blank) error conn in
    accepted error' conn' rest
after_url blank fd url_waits error conn = accept_waits
after_url blank fd url_overflow error conn = accept_fault

unfoldable pub accept_error : Option ℕ → CommError → CommError
accept_error none error = record { code = 3103; msg = codes "cant accepted socket" }
accept_error (some fd) error = error

-- `accept` is the call on the descriptor of the text `connection_file`, `blank` what the block of an
-- address holds before, and the stream is what the client writes.
unfoldable pub comm_accept : (ℕ → Option ℕ) → Addr → Bytes → CommError → SocketConnection → Accepted
unfolding after_url accept_error read_client_url
comm_accept accept blank stream error conn =
    let fd = accept (atoi conn.connection_file) in
    after_url blank fd (read_client_url fd stream) (accept_error fd error) conn
