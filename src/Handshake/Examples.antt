-- ===== src/Handshake/Examples.antt =====
-- A client `ana` and a server `srv`, and one of the orders of their steps.
use itba_os_tp1_ipc_2016_q.Base.{
  ℕ, suc, ◌<◌, ◌≡◌, refl, arith, ◌⊎◌, Bool, true, false, List, [], ◌∷◌, none, some, Bytes, codes,
  Lacks,
}
use itba_os_tp1_ipc_2016_q.Address.{Addr}
use itba_os_tp1_ipc_2016_q.Address.Urls.{fifo_address}
use itba_os_tp1_ipc_2016_q.Client.{idle}
use itba_os_tp1_ipc_2016_q.Handshake.{
  make_response, look, refused, client_at, wait_client, Handshake, fifo_name, pair_name,
  connection_name, exists, Step, by_client, by_server, Run, start, later, connection_close,
  comm_listen,
}
use itba_os_tp1_ipc_2016_q.Handshake.Joint.{
  Joint, at_00, at_10, at_20, at_30, at_40, at_41, at_42, at_43, at_53, at_54, at_55, at_65, at_75,
  at_85, at_86, at_87, Fair, state_of,
}
use itba_os_tp1_ipc_2016_q.Handshake.Steps.{client_step, server_step}
use itba_os_tp1_ipc_2016_q.Handshake.Offline.{offline}
use itba_os_tp1_ipc_2016_q.Handshake.Runs.{Connected, handshake}

abbrev ana : Bytes
ana = codes "ana"

abbrev srv : Bytes
srv = codes "srv"

abbrev url : Bytes
url = codes "fifo://ana:3000"

abbrev denied : Bytes → Bool
denied name = false

abbrev blank : Addr
blank = record { url = none; protocol = none; host = none; valid = false; port = none }

abbrev ana_addr : Addr
ana_addr = record {
  url = some url;
  protocol = some (codes "fifo");
  host = some ana;
  valid = true;
  port = none;
}

abbrev fifos : List Bytes
fifos = connection_name srv ∷ []

listening : comm_listen srv denied [] ≡ some fifos
unfolding comm_listen
listening = refl

abbrev before : Handshake
before = record {
  client = make_response;
  server = wait_client;
  fifos = fifos;
  url_pipe = [];
  ack_pipe = [];
  ok_pipe = [];
  state = idle;
  server_state = idle;
  buffer = [];
  client_aux = blank;
  client_addr = none;
}

url_Lacks : Lacks 0 url
url_Lacks = ground arith

fair : Fair ana srv url denied blank ana_addr fifos
unfolding fifo_name pair_name connection_name
fair = record {
  no_zero = url_Lacks;
  short = omega arith;
  takes = fifo_address url (codes "fifo") ana blank (
    codes ":3000",
    record {
      more = codes "ifo";
      first_char = refl;
      protocol_token = ground arith;
      host_token = ground arith;
      tail_stops = refl;
      shape = refl;
    },
  );
  host = refl;
  listens = refl;
  no_response = refl;
  no_request = refl;
  different = refl;
  different_back = refl;
  allows_connection = refl;
  allows_response = refl;
  allows_request = refl;
}

abbrev of : Joint → Handshake
of j = state_of ana srv url ana_addr before j

abbrev Runs : ℕ → Handshake → Type 0
Runs n t = Run ana srv url true denied blank n (of at_00) t

moves :
    (n : ℕ) (j k : Joint)
    → Runs n (of j)
    → Step ana srv url true denied blank (of j) (of k)
    → Runs (suc n) (of k)
moves n j k r m = later n (of at_00) (of j) (of k) r m

run_0 : Runs 0 (of at_00)
run_0 = start (of at_00)

run_1 : Runs 1 (of at_10)
run_1 =
    moves 0 at_00 at_10 run_0
      (by_client (client_step ana srv url denied blank ana_addr before fair at_00))

run_2 : Runs 2 (of at_20)
run_2 =
    moves 1 at_10 at_20 run_1
      (by_client (client_step ana srv url denied blank ana_addr before fair at_10))

run_3 : Runs 3 (of at_30)
run_3 =
    moves 2 at_20 at_30 run_2
      (by_client (client_step ana srv url denied blank ana_addr before fair at_20))

run_4 : Runs 4 (of at_40)
run_4 =
    moves 3 at_30 at_40 run_3
      (by_client (client_step ana srv url denied blank ana_addr before fair at_30))

run_5 : Runs 5 (of at_41)
run_5 =
    moves 4 at_40 at_41 run_4
      (by_server (server_step ana srv url denied blank ana_addr before fair at_40))

run_6 : Runs 6 (of at_42)
run_6 =
    moves 5 at_41 at_42 run_5
      (by_server (server_step ana srv url denied blank ana_addr before fair at_41))

run_7 : Runs 7 (of at_43)
run_7 =
    moves 6 at_42 at_43 run_6
      (by_server (server_step ana srv url denied blank ana_addr before fair at_42))

run_8 : Runs 8 (of at_53)
run_8 =
    moves 7 at_43 at_53 run_7
      (by_client (client_step ana srv url denied blank ana_addr before fair at_43))

run_9 : Runs 9 (of at_54)
run_9 =
    moves 8 at_53 at_54 run_8
      (by_server (server_step ana srv url denied blank ana_addr before fair at_53))

run_10 : Runs 10 (of at_55)
run_10 =
    moves 9 at_54 at_55 run_9
      (by_server (server_step ana srv url denied blank ana_addr before fair at_54))

run_11 : Runs 11 (of at_65)
run_11 =
    moves 10 at_55 at_65 run_10
      (by_client (client_step ana srv url denied blank ana_addr before fair at_55))

run_12 : Runs 12 (of at_75)
run_12 =
    moves 11 at_65 at_75 run_11
      (by_client (client_step ana srv url denied blank ana_addr before fair at_65))

run_13 : Runs 13 (of at_85)
run_13 =
    moves 12 at_75 at_85 run_12
      (by_client (client_step ana srv url denied blank ana_addr before fair at_75))

run_14 : Runs 14 (of at_86)
run_14 =
    moves 13 at_85 at_86 run_13
      (by_server (server_step ana srv url denied blank ana_addr before fair at_85))

run_15 : Runs 15 (of at_87)
run_15 =
    moves 14 at_86 at_87 run_14
      (by_server (server_step ana srv url denied blank ana_addr before fair at_86))

abbrev steps : ℕ
steps = 15

handshake_example :
    ((steps ≡ 15)
      × Connected ana_addr (of at_87)
      × ((connection_close ana srv url true denied blank (of at_87)).fifos ≡ fifos))
    ⊎ ((steps < 15) × ((u : Handshake) × Step ana srv url true denied blank (of at_87) u))
handshake_example = handshake ana srv url denied blank ana_addr before fair 15 (of at_87) run_15

abbrev alone : Handshake
alone = record before { fifos = [] }

abbrev again : Handshake
again = record before { fifos = connection_name srv ∷ pair_name srv ana ∷ [] }

again_left : exists (pair_name srv ana) again.fifos ≡ true
unfolding fifo_name pair_name connection_name
again_left = refl

offline_example :
    (s1 : Handshake) × (s2 : Handshake) × (client_at ana srv url true denied blank make_response
        alone
      ≡ some s1)
    × (client_at ana srv url true denied blank look s1 ≡ some s2)
    × (s2.client ≡ refused 203)
    × (exists (pair_name srv ana) s2.fifos ≡ true)
    × (s3 : Handshake) × (client_at ana srv url true denied blank make_response again ≡ some s3)
    × (s3.client ≡ refused 300)
unfolding fifo_name pair_name connection_name
offline_example = offline ana srv url denied blank alone again refl refl refl refl again_left
