-- ===== src/Handshake.antt =====
-- lib/communication/fifo: connection_open and connection_close of comm.connection.fifo.c, comm_listen and
-- comm_accept of comm.read.fifo.c. The two processes take steps one at a time: a call of `open` returns
-- when the other end of the FIFO is opened, too, and a read returns when the bytes are there. `none` is a
-- process that waits, has ended or faults. A text is written and read whole, since nobody else uses its FIFO.
pub mod Joint
pub mod Steps
pub mod Runs
pub mod Offline
mod Examples
use itba_os_tp1_ipc_2016_q.Base.{
  ℕ, zero, suc, ◌+◌, ◌≡◌, Bool, true, false, not, ◌||◌, ◌&&◌, List, [], ◌∷◌, ◌++◌, Option, none,
  some, Bytes, codes, ◌==◌, ◌>>=◌, ltb, if◌then◌else◌, length, str_eq,
}
use itba_os_tp1_ipc_2016_q.FileUtils.{write_one_by_one}
use itba_os_tp1_ipc_2016_q.Address.{AddrError, address_ok, Addr}
use itba_os_tp1_ipc_2016_q.Address.Fifo
use itba_os_tp1_ipc_2016_q.Client.{ConnectionState, idle, open_, closed}
use itba_os_tp1_ipc_2016_q.Client.Commands.{is_ok}

-- Where the client is in `connection_open`.
pub data ClientPc : Type 0 where
  make_response : ClientPc
  look : ClientPc
  open_connection : ClientPc
  write_url : ClientPc
  open_response : ClientPc
  read_ack : ClientPc
  open_request : ClientPc
  write_ok : ClientPc
  connected : ClientPc
  refused : ℕ → ClientPc

-- Where the server is in `comm_accept`.
pub data ServerPc : Type 0 where
  wait_client : ServerPc
  take_url : ServerPc
  make_request : ServerPc
  answer : ServerPc
  write_ack : ServerPc
  wait_ok : ServerPc
  take_ok : ServerPc
  accepted : ServerPc
  rejected : ℕ → ServerPc
  aborted : ServerPc

-- The FIFOs that there are, and the bytes in the three of the handshake; the state of the connection of
-- each side, and what the server has: its buffer, `client_aux` and the address of the client.
pub record Handshake : Type 0 where
  pub client : ClientPc
  pub server : ServerPc
  pub fifos : List Bytes
  pub url_pipe : Bytes
  pub ack_pipe : Bytes
  pub ok_pipe : Bytes
  pub state : ConnectionState
  pub server_state : ConnectionState
  pub buffer : Bytes
  pub client_aux : Addr
  pub client_addr : Option Addr

unfoldable pub fifo_name : Bytes → Bytes
fifo_name name = codes "/tmp/" ++ (name ++ codes ".fifo")

-- From one host to the other.
unfoldable pub pair_name : Bytes → Bytes → Bytes
unfolding fifo_name
pair_name from to = fifo_name (from ++ (codes "." ++ to))

unfoldable pub connection_name : Bytes → Bytes
unfolding fifo_name
connection_name server = fifo_name (server ++ codes ".in")

abbrev pub exists : Bytes → List Bytes → Bool
exists name [] = false
exists name (fifo ∷ fifos) = str_eq name fifo || exists name fifos

abbrev pub unlink : Bytes → List Bytes → List Bytes
unlink name [] = []
unlink name (fifo ∷ fifos) =
    let rest = unlink name fifos in if str_eq name fifo then rest else fifo ∷ rest

-- Up to a zero; without one the read waits.
unfoldable pub read_zero : Bytes → Option Bytes
read_zero [] = none
read_zero (c ∷ stream) =
    let rest = read_zero stream in if c == 0 then some [] else rest >>= λ text. some (c ∷ text)

-- The same, with at most one byte more than `n`.
unfoldable pub read_at_most : ℕ → Bytes → Option Bytes
read_at_most n [] = none
read_at_most zero (c ∷ stream) = if c == 0 then some [] else some (c ∷ [])
read_at_most (suc n) (c ∷ stream) =
    let rest = read_at_most n stream in if c == 0 then some [] else rest >>= λ text. some (c ∷ text)

-- Which side has one end of a FIFO open, or asks for it.
abbrev pub client_has_url : ClientPc → Bool
client_has_url make_response = false
client_has_url look = false
client_has_url (refused code) = false
client_has_url _ = true

abbrev pub server_has_url : ServerPc → Bool
server_has_url wait_client = true
server_has_url take_url = true
server_has_url _ = false

abbrev pub server_has_response : ServerPc → Bool
server_has_response answer = true
server_has_response write_ack = true
server_has_response wait_ok = true
server_has_response take_ok = true
server_has_response accepted = true
server_has_response _ = false

abbrev pub client_has_response : ClientPc → Bool
client_has_response open_response = true
client_has_response read_ack = true
client_has_response open_request = true
client_has_response write_ok = true
client_has_response connected = true
client_has_response _ = false

abbrev pub server_has_request : ServerPc → Bool
server_has_request wait_ok = true
server_has_request take_ok = true
server_has_request accepted = true
server_has_request _ = false

abbrev pub client_has_request : ClientPc → Bool
client_has_request open_request = true
client_has_request write_ok = true
client_has_request connected = true
client_has_request _ = false

abbrev pub fail_client : ℕ → Handshake → Option Handshake
fail_client code s = some (record s { client = refused code })

abbrev pub fail_server : ℕ → Handshake → Option Handshake
fail_server code s = some (record s { server = rejected code })

-- The hosts of the client and of the server, the URL of the client and whether both addresses are valid;
-- `denied` says of which names the system refuses to make or open a FIFO for a reason of its own, and
-- `blank` is the block that the server allocates for an address.
module _ (cli srv url : Bytes) (valid : Bool) (denied : Bytes → Bool) (blank : Addr) where
  unfoldable pub can_make : Bytes → List Bytes → Bool
  can_make name fifos = not (denied name || exists name fifos)

  unfoldable pub can_open : Bytes → List Bytes → Bool
  can_open name fifos = exists name fifos && not (denied name)

  unfoldable pub client_at : ClientPc → Handshake → Option Handshake
  unfolding can_make can_open read_at_most
  client_at make_response s =
      let s' = record s { state = closed } in
      if not valid
      then fail_client 202 s'
      else if can_make (pair_name srv cli) s.fifos
      then some (record s' { client = look; fifos = pair_name srv cli ∷ s.fifos })
      else fail_client 300 s'
  client_at look s =
      if exists (connection_name srv) s.fifos
      then some (record s { client = open_connection })
      else fail_client 203 s
  client_at open_connection s =
      if can_open (connection_name srv) s.fifos
      then (if server_has_url s.server then some (record s { client = write_url }) else none)
      else fail_client 204 s
  client_at write_url s = some (record s {
    client = open_response;
    url_pipe = s.url_pipe ++ write_one_by_one url (length url);
  })
  client_at open_response s =
      if can_open (pair_name srv cli) s.fifos
      then (if server_has_response s.server then some (record s { client = read_ack }) else none)
      else fail_client 301 s
  client_at read_ack s = read_at_most (length url) s.ack_pipe >>= λ text.
      let s' = record s { ack_pipe = [] } in
      if str_eq text url then some (record s' { client = open_request }) else fail_client 201 s'
  client_at open_request s =
      if can_open (pair_name cli srv) s.fifos
      then (if server_has_request s.server then some (record s { client = write_ok }) else none)
      else fail_client 302 s
  client_at write_ok s = some (record s {
    client = connected;
    ok_pipe = s.ok_pipe ++ write_one_by_one url (length url + 1);
    state = open_;
  })
  client_at connected s = none
  client_at (refused code) s = none

  -- The FIFO for the requests, from the host that the server has read.
  unfoldable pub make_fifo : Option Bytes → Handshake → Option Handshake
  unfolding can_make
  make_fifo none s = none
  make_fifo (some host) s =
      if can_make (pair_name host srv) s.fifos
      then some (record s { server = answer; fifos = pair_name host srv ∷ s.fifos })
      else fail_server 3003 s

  -- A FIFO that cannot be opened for the answer ends the server.
  unfoldable pub open_answer : Option Bytes → Handshake → Option Handshake
  unfolding can_open
  open_answer none s = none
  open_answer (some host) s =
      if can_open (pair_name srv host) s.fifos
      then (if client_has_response s.client then some (record s { server = write_ack }) else none)
      else some (record s { server = aborted })

  unfoldable pub open_ok : Option Bytes → Handshake → Option Handshake
  unfolding can_open
  open_ok none s = none
  open_ok (some host) s =
      if can_open (pair_name host srv) s.fifos
      then (if client_has_request s.client then some (record s { server = take_ok }) else none)
      else fail_server 3005 s

  -- A URL of 2048 bytes or more is written behind the buffer.
  unfoldable pub server_at : ServerPc → Handshake → Option Handshake
  unfolding can_open read_zero read_at_most make_fifo open_answer open_ok
  server_at wait_client s =
      if can_open (connection_name srv) s.fifos
      then (if client_has_url s.client then some (record s { server = take_url }) else none)
      else fail_server 3001 s
  server_at take_url s = read_zero s.url_pipe >>= λ text.
      if ltb (length text) 2048
      then some (record s { server = make_request; url_pipe = []; buffer = text })
      else some (record s { server = aborted })
  server_at make_request s =
      let (error, addr) = Fifo.address_from_url s.buffer blank in
      let s' = record s { client_aux = addr } in
      if is_ok error then make_fifo addr.host s' else fail_server 3002 s'
  server_at answer s = open_answer s.client_aux.host s
  server_at write_ack s = some (record s {
    server = wait_ok;
    ack_pipe = s.ack_pipe ++ write_one_by_one s.buffer (length s.buffer + 2);
  })
  server_at wait_ok s = open_ok s.client_aux.host s
  server_at take_ok s = read_at_most (length s.buffer + 1) s.ok_pipe >>= λ text.
      let s' = record s { ok_pipe = [] } in
      if str_eq text s.buffer
      then some (record s' {
        server = accepted;
        client_addr = some (Fifo.address_from_url text blank).1;
        server_state = open_;
      })
      else fail_server 3006 s'
  server_at accepted s = none
  server_at (rejected code) s = none
  server_at aborted s = none

  -- A step of one of the two.
  pub data Step (s t : Handshake) : Type 0 where
    by_client : client_at s.client s ≡ some t → Step s t
    by_server : server_at s.server s ≡ some t → Step s t

  pub data Run : ℕ → Handshake → Handshake → Type 0 where
    start : (s : Handshake) → Run zero s s
    later : (n : ℕ) (s t u : Handshake) → Run n s t → Step t u → Run (suc n) s u

  -- `connection_close` removes the names of both FIFOs.
  unfoldable pub connection_close : Handshake → Handshake
  connection_close s = record s {
    fifos = unlink (pair_name srv cli) (unlink (pair_name cli srv) s.fifos);
    state = closed;
  }

-- `comm_listen` makes the FIFO of the server, if it is not there.
unfoldable pub comm_listen : Bytes → (Bytes → Bool) → List Bytes → Option (List Bytes)
comm_listen srv denied fifos =
    if exists (connection_name srv) fifos
    then some fifos
    else if denied (connection_name srv)
    then none
    else some (connection_name srv ∷ fifos)
