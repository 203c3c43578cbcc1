-- ===== src/Channel/Examples.antt =====
-- Messages with concrete boundaries.
use itba_os_tp1_ipc_2016_q.Base.{
  ℕ, zero, suc, ◌≡◌, refl, ◌≢◌, arith, [], ◌∷◌, ◌++◌, Bytes, codes, length, Lacks, some, replicate,
}
use itba_os_tp1_ipc_2016_q.Channel.{
  gen_boundary, comm_send_data, received, overflow, comm_receive_data,
}
use itba_os_tp1_ipc_2016_q.Base.Decimal.{decimal}
use itba_os_tp1_ipc_2016_q.Channel.Boundary.{IsBoundary}
use itba_os_tp1_ipc_2016_q.Channel.Overlap.{Absent, first-Absent}
use itba_os_tp1_ipc_2016_q.Channel.Messages.{CanSend, wire, receive_many, receive_many-wire}
use itba_os_tp1_ipc_2016_q.Channel.Limits.{receive_large}

-- The boundary that the value 7 of `rand()` gives.
abbrev mark : Bytes
mark = codes "--boundaryTPSO1IPC1000000007__"

mark_generated : gen_boundary 7 ≡ mark
unfolding gen_boundary decimal
mark_generated = refl

mark-IsBoundary : IsBoundary mark
mark-IsBoundary = record {
  body = codes "--boundaryTPSO1IPC1000000007";
  shape = refl;
  no_underscore = omega arith;
  no_zero = omega arith;
  some_body = omega arith;
  fits = omega arith;
}

abbrev hello : Bytes
hello = codes "{ \"kind\": \"int\", \"value\": 42 }"

abbrev goodbye : Bytes
goodbye = codes "{ \"kind\": \"command.close\" }"

dash-Absent : (payload : Bytes) → Lacks b'-' payload → Absent mark payload
dash-Absent payload h = first-Absent b'-' (codes "-boundaryTPSO1IPC1000000007__") payload h

hello-CanSend : CanSend mark hello
hello-CanSend = record {
  boundary = mark-IsBoundary;
  some_payload = omega arith;
  no_zero = omega arith;
  absent = dash-Absent hello (omega arith);
  fits = omega arith;
}

goodbye-CanSend : CanSend mark goodbye
goodbye-CanSend = record {
  boundary = mark-IsBoundary;
  some_payload = omega arith;
  no_zero = omega arith;
  absent = dash-Absent goodbye (omega arith);
  fits = omega arith;
}

hello_example_read : comm_receive_data (comm_send_data mark hello 31) ≡ received hello []
unfolding comm_receive_data comm_send_data
hello_example_read = refl

receive_many-wire_example :
    receive_many 2 (wire ((mark, hello) ∷ (mark, goodbye) ∷ []) ++ [])
    ≡ some (hello ∷ goodbye ∷ [], [])
receive_many-wire_example =
    receive_many-wire ((mark, hello) ∷ (mark, goodbye) ∷ []) []
      (hello-CanSend, (goodbye-CanSend, tt))

replicate-Lacks : (c d n : ℕ) → d ≢ c → Lacks c (replicate n d)
replicate-Lacks c d zero h = tt
replicate-Lacks c d (suc n) h = (h, replicate-Lacks c d n h)

receive_large_example :
    comm_receive_data
      (comm_send_data mark (replicate 2018 b'0') (length (replicate {A = ℕ} 2018 b'0')) ++ [])
    ≡ overflow
receive_large_example =
    receive_large mark (replicate 2018 b'0') [] mark-IsBoundary
      (replicate-Lacks 0 b'0' 2018 (omega arith))
      (dash-Absent (replicate 2018 b'0') (replicate-Lacks b'-' b'0' 2018 (omega arith)))
      (omega arith)
