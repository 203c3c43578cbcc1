-- ===== src/Sockets/Connect.antt =====
-- A client and the server that connect over sockets.
use itba_os_tp1_ipc_2016_q.Base.{
  ℕ, Bool, suc, ◌+◌, ◌<◌, ◌≢◌, ◌≡◌, refl, ◌∙◌, ap, arith, true, false, [], ◌∷◌, ◌++◌, append_assoc,
  Option, none, some, Bytes, codes, ◌==◌, leb, length, length-append, Lacks, All-append,
  if◌then◌else◌,
}
use itba_os_tp1_ipc_2016_q.Base.Decimal.{decimal, atoi-text}
use itba_os_tp1_ipc_2016_q.FileUtils.{write_one_by_one}
use itba_os_tp1_ipc_2016_q.FileUtils.Writers.{write_string}
use itba_os_tp1_ipc_2016_q.Address.{AddrError, Addr}
use itba_os_tp1_ipc_2016_q.Address.Socket
use itba_os_tp1_ipc_2016_q.Address.Shape.{IsToken}
use itba_os_tp1_ipc_2016_q.Client.{open_, idle}
use itba_os_tp1_ipc_2016_q.Config.{socket, client_name, client_url}
use itba_os_tp1_ipc_2016_q.Config.Addresses.{address_of, client-IsAddressed}
use itba_os_tp1_ipc_2016_q.Server.{CommError}
use itba_os_tp1_ipc_2016_q.Sockets.{
  SocketConnection, write_url, connection_open, comm_listen, UrlRead, url_read, url_waits,
  url_overflow, put_before, read_url_loop, read_client_url, Accepted, accepted, accept_waits,
  accept_fault, finish_accept, after_url, accept_error, comm_accept,
}

-- No error is reported, and the connection is open.
abbrev pub IsUnnoticed : Accepted → Type 0
IsUnnoticed (accepted error conn rest) = (error.code ≡ 0) × (conn.state ≡ open_)
IsUnnoticed accept_waits = Unit
IsUnnoticed accept_fault = Unit

after_url-IsUnnoticed :
    (blank : Addr) (fd : Option ℕ) (r : UrlRead) (error : CommError) (conn : SocketConnection)
    → IsUnnoticed (after_url blank fd r error conn)
unfolding after_url finish_accept
after_url-IsUnnoticed blank fd (url_read text rest) error conn = (refl, refl)
after_url-IsUnnoticed blank fd url_waits error conn = tt
after_url-IsUnnoticed blank fd url_overflow error conn = tt

-- Over sockets, a call of comm_accept that returns reports no error and leaves an open connection,
-- whatever `accept` gave and whatever the client wrote; and one for which `accept` fails does return, at
-- once and with nothing read, with an open connection whose descriptors are -1.
pub comm_accept-IsUnnoticed :
    (accept : ℕ → Option ℕ) (blank : Addr) (stream : Bytes) (error : CommError)
    (conn : SocketConnection) (listened : ℕ)
    → accept listened ≡ none
    → ((s : SocketConnection) → IsUnnoticed (comm_accept accept blank stream error s))
      × (comm_accept accept blank stream error (record conn { connection_file = decimal listened })
          ≡ accepted
              (record { code = 0; msg = codes "OK" })
              (record {
                client_addr = (Socket.address_from_url [] blank).1;
                server_addr = conn.server_addr;
                connection_file = decimal listened;
                state = open_;
                req_fd = none;
                res_fd = none;
              })
              stream)
unfolding comm_accept read_client_url accept_error after_url finish_accept
comm_accept-IsUnnoticed accept blank stream error conn listened h = (
  (λ s.
      after_url-IsUnnoticed blank (accept _) (read_client_url (accept _) stream)
        (accept_error (accept _) error) s),
  let s : SocketConnection = record conn { connection_file = decimal listened } in
      let after : Option ℕ → Accepted =
        λ fd. after_url blank fd (read_client_url fd stream) (accept_error fd error) s in
      ap after (ap accept (atoi-text listened) ∙ h),
)

loop-text :
    (n : ℕ) (text rest : Bytes)
    → Lacks 0 text
    → n + length text < 2048
    → read_url_loop n (text ++ 0 ∷ rest) ≡ url_read text rest
unfolding read_url_loop put_before
loop-text n [] rest l h = let e : leb 2048 n ≡ false = ground (arith, h) in rw e refl
loop-text n (c ∷ text) rest (d, l) h =
    let e : leb 2048 n ≡ false = ground (arith, h) in
    let f : (c == 0) ≡ false = ground (arith, d) in
    rw (e, f, loop-text (suc n) text rest l (omega (arith, h))) refl

-- The URL of a client, as it is written and read.
url-written :
    (text more : Bytes)
    → Lacks 0 text
    → length text < 2048
    → read_url_loop 0 (write_one_by_one text (length text) ++ more) ≡ url_read text more
unfolding write_one_by_one
url-written text more l h =
    ap (λ t. read_url_loop 0 ((t ++ 0 ∷ []) ++ more)) (write_string text l)
    ∙ ap (read_url_loop 0) (append_assoc text (0 ∷ []) more)
    ∙ loop-text 0 text more l (omega (arith, h))

url-Lacks : (name : Bytes) → Lacks 0 name → Lacks 0 (client_url socket name)
unfolding client_url
url-Lacks name l =
    let tail : Lacks 0 (name ++ codes ":3000") =
      All-append (λ c. c ≢ 0) name (codes ":3000") l (omega arith) in
    All-append (λ c. c ≢ 0) (codes "socket://") (name ++ codes ":3000") (omega arith) tail

url-length : (name : Bytes) → length (client_url socket name) ≡ length name + 14
unfolding client_url
url-length name = omega (arith, length-append name (codes ":3000"))

-- The client after it has connected, and the server after it has accepted it.
abbrev pub connected_client : ℕ → SocketConnection → SocketConnection
connected_client fd conn = record conn { req_fd = some fd; res_fd = some fd; state = open_ }

abbrev pub accepting_server : ℕ → ℕ → Bytes → Addr → SocketConnection → SocketConnection
accepting_server listened fd name blank conn = record {
  client_addr = address_of socket (client_url socket name) name 3000 blank;
  server_addr = conn.server_addr;
  connection_file = decimal listened;
  state = open_;
  req_fd = some fd;
  res_fd = some fd;
}

-- The server listens and the client knows its host and is connected to it: then the client writes the
-- URL that it has from its start, if its name is a host of less than 2034 characters without a zero
-- byte, both sides have an open connection on their descriptors, the server accepts on the descriptor
-- that it listens on and has the address of the client, and what the client writes next is still there.
pub sockets_connect :
    (listened server_fd client_fd : ℕ) (accept : ℕ → Option ℕ) (knows : Option Bytes → Bool)
    (name more : Bytes) (blank block : Addr) (client server : SocketConnection) (error : CommError)
    → IsToken name
    → Lacks 0 name
    → length name < 2034
    → accept listened ≡ some server_fd
    → knows client.server_addr.host ≡ true
    → client.client_addr ≡ (Socket.address_from_url (client_url socket name) block).1
    → (wire : Bytes) × (connection_open (some client_fd) knows true client
        ≡ some (0, wire, connected_client client_fd client))
      × (comm_accept accept blank
            (wire ++ more)
            error
            (comm_listen (some listened) true true server).1
          ≡ accepted
              (record { code = 0; msg = codes "OK" })
              (accepting_server listened server_fd name blank server)
              more)
unfolding connection_open write_url comm_listen comm_accept read_client_url accept_error after_url
    finish_accept client_name
sockets_connect listened server_fd client_fd accept knows name more blank block client server error
      t l n a k c =
    let url : Bytes = client_url socket name in
    let has_url : client.client_addr.url ≡ some url =
      ap (λ addr. addr.url)
        (c ∙ ap (λ r. r.1) (client-IsAddressed socket (some name) 0 block t).0) in
    let opens : Bool → Option (ℕ × Bytes × SocketConnection) = λ b.
      if b then write_url client_fd client.client_addr.url client else some (401, [], client) in
    let s : SocketConnection = record server { connection_file = decimal listened; state = idle } in
    let stream : Bytes = write_one_by_one url (length url) ++ more in
    let after : Option ℕ → Accepted =
      λ fd. after_url blank fd (read_client_url fd stream) (accept_error fd error) s in
    let finish : AddrError × Addr → Accepted = λ r.
      accepted (finish_accept (some server_fd) r error s).0
        (finish_accept (some server_fd) r error s).1 more in
    (
      write_one_by_one url (length url),
      ap opens k ∙ ap (λ u. write_url client_fd u client) has_url,
      ap after (ap accept (atoi-text listened) ∙ a)
          ∙ ap (λ r. after_url blank (some server_fd) r error s)
              (url-written url more (url-Lacks name l) (omega (arith, url-length name, n)))
          ∙ ap finish (client-IsAddressed socket (some name) 0 blank t).0,
    )
