-- ===== src/Handshake/Joint.antt =====
-- The places of connection_open and comm_accept that the two processes of the handshake can be at
-- together, and the state that they then are in.
use itba_os_tp1_ipc_2016_q.Base.{
  ℕ, ◌+◌, ◌<◌, ◌≡◌, Bool, true, false, not, ◌&&◌, List, [], ◌∷◌, Option, none, some, Bytes,
  if◌then◌else◌, length, str_eq, Lacks,
}
use itba_os_tp1_ipc_2016_q.FileUtils.{write_one_by_one}
use itba_os_tp1_ipc_2016_q.Address.{address_ok, Addr}
use itba_os_tp1_ipc_2016_q.Address.Fifo
use itba_os_tp1_ipc_2016_q.Client.{ConnectionState, open_, closed}
use itba_os_tp1_ipc_2016_q.Handshake.{
  ClientPc, make_response, look, open_connection, write_url, open_response, read_ack, open_request,
  write_ok, connected, refused, ServerPc, wait_client, take_url, make_request, answer, write_ack,
  wait_ok, take_ok, accepted, rejected, aborted, Handshake, pair_name, connection_name, exists,
}

-- The first digit is the place of the client, the second that of the server.
pub data Joint : Type 0 where
  at_00 : Joint
  at_10 : Joint
  at_20 : Joint
  at_30 : Joint
  at_21 : Joint
  at_31 : Joint
  at_40 : Joint
  at_41 : Joint
  at_42 : Joint
  at_43 : Joint
  at_53 : Joint
  at_44 : Joint
  at_54 : Joint
  at_45 : Joint
  at_55 : Joint
  at_65 : Joint
  at_75 : Joint
  at_66 : Joint
  at_76 : Joint
  at_85 : Joint
  at_86 : Joint
  at_87 : Joint

abbrev pub client_of : Joint → ClientPc
client_of at_00 = make_response
client_of at_10 = look
client_of at_20 = open_connection
client_of at_30 = write_url
client_of at_21 = open_connection
client_of at_31 = write_url
client_of at_40 = open_response
client_of at_41 = open_response
client_of at_42 = open_response
client_of at_43 = open_response
client_of at_53 = read_ack
client_of at_44 = open_response
client_of at_54 = read_ack
client_of at_45 = open_response
client_of at_55 = read_ack
client_of at_65 = open_request
client_of at_75 = write_ok
client_of at_66 = open_request
client_of at_76 = write_ok
client_of at_85 = connected
client_of at_86 = connected
client_of at_87 = connected

abbrev pub server_of : Joint → ServerPc
server_of at_00 = wait_client
server_of at_10 = wait_client
server_of at_20 = wait_client
server_of at_30 = wait_client
server_of at_21 = take_url
server_of at_31 = take_url
server_of at_40 = wait_client
server_of at_41 = take_url
server_of at_42 = make_request
server_of at_43 = answer
server_of at_53 = answer
server_of at_44 = write_ack
server_of at_54 = write_ack
server_of at_45 = wait_ok
server_of at_55 = wait_ok
server_of at_65 = wait_ok
server_of at_75 = wait_ok
server_of at_66 = take_ok
server_of at_76 = take_ok
server_of at_85 = wait_ok
server_of at_86 = take_ok
server_of at_87 = accepted

-- Where a step of the client and of the server leads.
abbrev pub client_next : Joint → Option Joint
client_next at_00 = some at_10
client_next at_10 = some at_20
client_next at_20 = some at_30
client_next at_30 = some at_40
client_next at_21 = some at_31
client_next at_31 = some at_41
client_next at_40 = none
client_next at_41 = none
client_next at_42 = none
client_next at_43 = some at_53
client_next at_53 = none
client_next at_44 = some at_54
client_next at_54 = none
client_next at_45 = some at_55
client_next at_55 = some at_65
client_next at_65 = some at_75
client_next at_75 = some at_85
client_next at_66 = some at_76
client_next at_76 = some at_86
client_next at_85 = none
client_next at_86 = none
client_next at_87 = none

abbrev pub server_next : Joint → Option Joint
server_next at_00 = none
server_next at_10 = none
server_next at_20 = some at_21
server_next at_30 = some at_31
server_next at_21 = none
server_next at_31 = none
server_next at_40 = some at_41
server_next at_41 = some at_42
server_next at_42 = some at_43
server_next at_43 = some at_44
server_next at_53 = some at_54
server_next at_44 = some at_45
server_next at_54 = some at_55
server_next at_45 = none
server_next at_55 = none
server_next at_65 = some at_66
server_next at_75 = some at_76
server_next at_66 = none
server_next at_76 = none
server_next at_85 = some at_86
server_next at_86 = some at_87
server_next at_87 = none

-- The number of steps behind.
abbrev pub behind : Joint → ℕ
behind at_00 = 0
behind at_10 = 1
behind at_20 = 2
behind at_30 = 3
behind at_21 = 3
behind at_31 = 4
behind at_40 = 4
behind at_41 = 5
behind at_42 = 6
behind at_43 = 7
behind at_53 = 8
behind at_44 = 8
behind at_54 = 9
behind at_45 = 9
behind at_55 = 10
behind at_65 = 11
behind at_75 = 12
behind at_66 = 12
behind at_76 = 13
behind at_85 = 13
behind at_86 = 14
behind at_87 = 15

-- What each side has done.
abbrev pub made_response : ClientPc → Bool
made_response make_response = false
made_response look = true
made_response open_connection = true
made_response write_url = true
made_response open_response = true
made_response read_ack = true
made_response open_request = true
made_response write_ok = true
made_response connected = true
made_response (refused code) = false

abbrev pub wrote_url : ClientPc → Bool
wrote_url make_response = false
wrote_url look = false
wrote_url open_connection = false
wrote_url write_url = false
wrote_url open_response = true
wrote_url read_ack = true
wrote_url open_request = true
wrote_url write_ok = true
wrote_url connected = true
wrote_url (refused code) = false

abbrev pub took_ack : ClientPc → Bool
took_ack make_response = false
took_ack look = false
took_ack open_connection = false
took_ack write_url = false
took_ack open_response = false
took_ack read_ack = false
took_ack open_request = true
took_ack write_ok = true
took_ack connected = true
took_ack (refused code) = false

abbrev pub wrote_ok : ClientPc → Bool
wrote_ok make_response = false
wrote_ok look = false
wrote_ok open_connection = false
wrote_ok write_url = false
wrote_ok open_response = false
wrote_ok read_ack = false
wrote_ok open_request = false
wrote_ok write_ok = false
wrote_ok connected = true
wrote_ok (refused code) = false

abbrev pub took_url : ServerPc → Bool
took_url wait_client = false
took_url take_url = false
took_url make_request = true
took_url answer = true
took_url write_ack = true
took_url wait_ok = true
took_url take_ok = true
took_url accepted = true
took_url (rejected code) = false
took_url aborted = false

abbrev pub made_request : ServerPc → Bool
made_request wait_client = false
made_request take_url = false
made_request make_request = false
made_request answer = true
made_request write_ack = true
made_request wait_ok = true
made_request take_ok = true
made_request accepted = true
made_request (rejected code) = false
made_request aborted = false

abbrev pub wrote_ack : ServerPc → Bool
wrote_ack wait_client = false
wrote_ack take_url = false
wrote_ack make_request = false
wrote_ack answer = false
wrote_ack write_ack = false
wrote_ack wait_ok = true
wrote_ack take_ok = true
wrote_ack accepted = true
wrote_ack (rejected code) = false
wrote_ack aborted = false

abbrev pub took_ok : ServerPc → Bool
took_ok wait_client = false
took_ok take_url = false
took_ok make_request = false
took_ok answer = false
took_ok write_ack = false
took_ok wait_ok = false
took_ok take_ok = false
took_ok accepted = true
took_ok (rejected code) = false
took_ok aborted = false

-- What the handshake relies on: a URL that the server can read in its buffer and takes for an address
-- with the host of the client, a server that listens, no FIFO left from before, and a system that
-- allows the three.
pub record Fair (cli srv url : Bytes) (denied : Bytes → Bool) (blank addr : Addr)
    (fifos : List Bytes) : Type 0 where
  pub no_zero : Lacks 0 url
  pub short : length url < 2048
  pub takes : Fifo.address_from_url url blank ≡ (address_ok, addr)
  pub host : addr.host ≡ some cli
  pub listens : exists (connection_name srv) fifos ≡ true
  pub no_response : exists (pair_name srv cli) fifos ≡ false
  pub no_request : exists (pair_name cli srv) fifos ≡ false
  pub different : str_eq (pair_name cli srv) (pair_name srv cli) ≡ false
  pub different_back : str_eq (pair_name srv cli) (pair_name cli srv) ≡ false
  pub allows_connection : denied (connection_name srv) ≡ false
  pub allows_response : denied (pair_name srv cli) ≡ false
  pub allows_request : denied (pair_name cli srv) ≡ false

module _ (cli srv url : Bytes) (addr : Addr) (s : Handshake) where
  abbrev pub fifos_at : Bool → Bool → List Bytes
  fifos_at response true = pair_name cli srv ∷ pair_name srv cli ∷ s.fifos
  fifos_at true false = pair_name srv cli ∷ s.fifos
  fifos_at false false = s.fifos

  abbrev pub state_at : ClientPc → ConnectionState
  state_at make_response = s.state
  state_at connected = open_
  state_at _ = closed

  -- The state of the two at these places, from that before.
  abbrev pub phase : ClientPc → ServerPc → Handshake
  phase c v = record {
    client = c;
    server = v;
    fifos = fifos_at (made_response c) (made_request v);
    url_pipe = if wrote_url c && not (took_url v) then write_one_by_one url (length url) else [];
    ack_pipe =
        if wrote_ack v && not (took_ack c) then write_one_by_one url (length url + 2) else [];
    ok_pipe = if wrote_ok c && not (took_ok v) then write_one_by_one url (length url + 1) else [];
    state = state_at c;
    server_state = if took_ok v then open_ else s.server_state;
    buffer = if took_url v then url else s.buffer;
    client_aux = if made_request v then addr else s.client_aux;
    client_addr = if took_ok v then some addr else s.client_addr;
  }

  abbrev pub state_of : Joint → Handshake
  state_of j = phase (client_of j) (server_of j)
