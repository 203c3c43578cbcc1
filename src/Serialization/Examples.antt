-- ===== src/Serialization/Examples.antt =====
-- Messages of the concrete JSON library.
use itba_os_tp1_ipc_2016_q.Base.{true, false, some, ◌≡◌, refl, arith, ◌++◌, Bytes, codes}
use itba_os_tp1_ipc_2016_q.Base.Words.{pos}
use itba_os_tp1_ipc_2016_q.Channel.Boundary.{IsBoundary}
use itba_os_tp1_ipc_2016_q.Channel.Overlap.{first-Absent}
use itba_os_tp1_ipc_2016_q.Json.Instance.{list_json, add_entry, code_int}
use itba_os_tp1_ipc_2016_q.Serialization.Commands.{
  Message, serialized, message_object, stringify_int, of_kind,
}
use itba_os_tp1_ipc_2016_q.Serialization.Parse.{Parsed}
use itba_os_tp1_ipc_2016_q.Serialization.Async.{
  called, listener_result, send_message_async, Fits, async-answer,
}
use itba_os_tp1_ipc_2016_q.Serialization.Transfer.{
  message, send_message, receive, receive-send_message,
}

-- The boundary that the value 7 of `rand()` gives.
abbrev mark : Bytes
mark = codes "--boundaryTPSO1IPC1000000007__"

mark-IsBoundary : IsBoundary mark
mark-IsBoundary = record {
  body = codes "--boundaryTPSO1IPC1000000007";
  shape = refl;
  no_underscore = omega arith;
  no_zero = omega arith;
  some_body = omega arith;
  fits = omega arith;
}

receive-send_message_example :
    receive list_json (send_message list_json mark (Message.int (pos 21)) ++ codes "--b")
    ≡ message (Parsed.int (pos 21)) (codes "--b")
unfolding serialized message_object stringify_int of_kind add_entry code_int
receive-send_message_example =
    receive-send_message list_json mark (codes "--b") (Message.int (pos 21)) (omega arith)
      mark-IsBoundary (omega arith)
      (first-Absent b'-' (codes "-boundaryTPSO1IPC1000000007__") _ (omega arith)) (omega arith)

ask-Fits : Fits list_json mark (Message.int (pos 21))
unfolding serialized message_object stringify_int add_entry code_int of_kind
ask-Fits = record {
  boundary = mark-IsBoundary;
  some_text = omega arith;
  absent = first-Absent b'-' (codes "-boundaryTPSO1IPC1000000007__") _ (omega arith);
  fits = omega arith;
}

answer-Fits : Fits list_json mark (Message.int (pos 42))
unfolding serialized message_object stringify_int add_entry code_int of_kind
answer-Fits = record {
  boundary = mark-IsBoundary;
  some_text = omega arith;
  absent = first-Absent b'-' (codes "-boundaryTPSO1IPC1000000007__") _ (omega arith);
  fits = omega arith;
}

async-answer_example :
    let sent = send_message_async list_json mark (Message.int (pos 21)) true true false in
    (receive list_json (sent.0 ++ codes "--b") ≡ message (Parsed.int (pos 21)) (codes "--b"))
    × (listener_result sent.1 (send_message list_json mark (Message.int (pos 42)) ++ codes "--c")
        ≡ called 0 (some (serialized list_json (Message.int (pos 42)))) (codes "--c"))
    × (sent.2 ≡ true)
async-answer_example =
    async-answer list_json mark mark (codes "--b") (codes "--c") (Message.int (pos 21))
      (Message.int (pos 42)) false (omega arith) ask-Fits answer-Fits
