-- ===== src/Serialization/Transfer.antt =====
-- `send_…` and `receive`: a message from one side to the other, over the channel.
use itba_os_tp1_ipc_2016_q.Base.{◌+◌, ◌<◌, ◌≡◌, Option, none, some, Bytes, ◌++◌, length, Lacks}
use itba_os_tp1_ipc_2016_q.Json.{Json}
use itba_os_tp1_ipc_2016_q.Channel.{
  Receive, received, blocked, overflow, comm_send_data, comm_receive_data, buffer_length,
}
use itba_os_tp1_ipc_2016_q.Channel.Boundary.{IsBoundary}
use itba_os_tp1_ipc_2016_q.Channel.Overlap.{Absent}
use itba_os_tp1_ipc_2016_q.Channel.Messages.{CanSend, receive-send}
use itba_os_tp1_ipc_2016_q.Serialization.Commands.{Message, message_object, serialized}
use itba_os_tp1_ipc_2016_q.Serialization.Parse.{Parsed, parse_encoded}
use itba_os_tp1_ipc_2016_q.Serialization.RoundTrip.{received_as, IsSendable, parse-serialized}

module _ (json : Json) where
  -- What `send_int`, `send_cmd_post` and the others write, with the boundary that they generate.
  unfoldable pub send_message : Bytes → Message json → Bytes
  send_message boundary m = comm_send_data boundary (serialized json m) (length (serialized json m))

  -- The outcome of `receive`: a message and the bytes left to read, a wait, or a fault (a byte behind a
  -- block, or a read through a null pointer in the parser).
  pub data Incoming : Type 0 where
    message : Parsed json → Bytes → Incoming
    waiting : Incoming
    fault : Incoming

  unfoldable pub with_rest : Bytes → Option (Parsed json) → Incoming
  with_rest rest none = fault
  with_rest rest (some p) = message p rest

  unfoldable pub parse_response : Receive → Incoming
  unfolding with_rest
  parse_response (received text rest) = with_rest rest (parse_encoded json text)
  parse_response blocked = waiting
  parse_response overflow = fault

  -- `comm_receive_data` reports no error, so `receive` always goes on to the parser.
  unfoldable pub receive : Bytes → Incoming
  receive stream = parse_response (comm_receive_data stream)

  -- A message whose texts have no zero byte, whose numbers fit the C types (the size of a post is below
  -- 2^31) and whose `double`, if it is one, is given exactly by its JSON text, is what the other side
  -- receives, but for the `admin` flag of a login, which is not sent, and the size of raw data, which is
  -- not read; and nothing else is taken from the channel. Of raw data it has the bytes, in a copy without
  -- a terminator. Its text is to be shorter than the receiver's
  -- buffer by more than the boundary and not to contain the boundary.
  pub receive-send_message :
      (b rest : Bytes) (m : Message json)
      → IsSendable json m
      → IsBoundary b
      → 0 < length (serialized json m)
      → Absent b (serialized json m)
      → length (serialized json m) + length b < buffer_length
      → receive (send_message b m ++ rest) ≡ message (received_as json m) rest
  unfolding receive send_message parse_response
  receive-send_message b rest m h ib some_text absent fits =
      let can : CanSend b (serialized json m) = record {
        boundary = ib;
        some_payload = some_text;
        no_zero = text_Lacks;
        absent = absent;
        fits = fits;
      } in
      rw (receive-send b (serialized json m) rest can) (rw (parse-serialized json m h))
    where
      text_Lacks : Lacks 0 (serialized json m)
      text_Lacks = unfold serialized in json.print_text (message_object json m)
