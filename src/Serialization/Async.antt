-- ===== src/Serialization/Async.antt =====
-- comm_send_data_async and data_listener of lib/communication (alike over FIFOs and sockets), and the
-- senders of lib/serialization/serialization.c that use them: a message goes out and a thread waits for
-- the answer.
use itba_os_tp1_ipc_2016_q.Base.{
  ℕ, ◌+◌, ◌<◌, ◌≡◌, refl, ap, Bool, true, false, if◌then◌else◌, Option, none, some, Bytes, ◌++◌,
  length,
}
use itba_os_tp1_ipc_2016_q.Json.{Json}
use itba_os_tp1_ipc_2016_q.Channel.{
  Receive, received, blocked, overflow, comm_send_data, comm_receive_data, buffer_length,
}
use itba_os_tp1_ipc_2016_q.Channel.Boundary.{IsBoundary}
use itba_os_tp1_ipc_2016_q.Channel.Overlap.{Absent}
use itba_os_tp1_ipc_2016_q.Channel.Messages.{CanSend, receive-send}
use itba_os_tp1_ipc_2016_q.Serialization.Commands.{Message, message_object, serialized}
use itba_os_tp1_ipc_2016_q.Serialization.RoundTrip.{received_as, IsSendable}
use itba_os_tp1_ipc_2016_q.Serialization.Transfer.{
  send_message, receive, message, receive-send_message,
}

-- What comes of the thread: it waits for the answer, it could not be created, or there is no lock for
-- it and the callback is called with the code 3 and a null pointer.
pub data Listener : Type 0 where
  listening : Listener
  no_thread : Listener
  no_lock : Listener

-- `locks` and `creates` say whether the lock and the thread can be made; the Boolean is `mutex_init`.
unfoldable pub start_listener : Bool → Bool → Bool → Listener × Bool
start_listener locks creates false =
    if locks then (if creates then (listening, true) else (no_thread, true)) else (no_lock, false)
start_listener locks creates true = if creates then (listening, true) else (no_thread, true)

-- The bytes that are written come before anything else.
unfoldable pub comm_send_data_async :
    Bytes → Bytes → ℕ → Bool → Bool → Bool → Bytes × Listener × Bool
unfolding start_listener
comm_send_data_async boundary data_ size locks creates mutex_init =
    let (listener, mutex_init') = start_listener locks creates mutex_init in
    (comm_send_data boundary data_ size, listener, mutex_init')

-- A call of the callback with a code and a text, and what is left to read; a wait; or a byte behind a
-- block.
pub data Callback : Type 0 where
  called : ℕ → Option Bytes → Bytes → Callback
  callback_waits : Callback
  callback_fault : Callback

unfoldable pub call_back : Receive → Callback
call_back (received text rest) = called 0 (some text) rest
call_back blocked = callback_waits
call_back overflow = callback_fault

-- The loops of the thread are those of `comm_receive_data`.
unfoldable pub data_listener : Bytes → Callback
unfolding call_back
data_listener stream = call_back (comm_receive_data stream)

-- What the callback is called with in the end, if anything.
unfoldable pub listener_result : Listener → Bytes → Callback
unfolding data_listener
listener_result listening stream = data_listener stream
listener_result no_thread stream = callback_waits
listener_result no_lock stream = called 3 none stream

module _ (json : Json) where
  -- `send_cmd_get_async` and the others.
  unfoldable pub send_message_async :
      Bytes → Message json → Bool → Bool → Bool → Bytes × Listener × Bool
  unfolding comm_send_data_async
  send_message_async boundary m locks creates mutex_init =
      comm_send_data_async boundary (serialized json m) (length (serialized json m)) locks creates
        mutex_init

  -- A message whose text fits the receiver's block behind this boundary.
  pub record Fits (b : Bytes) (m : Message json) : Type 0 where
    pub boundary : IsBoundary b
    pub some_text : 0 < length (serialized json m)
    pub absent : Absent b (serialized json m)
    pub fits : length (serialized json m) + length b < buffer_length

  Fits-CanSend : (b : Bytes) (m : Message json) → Fits b m → CanSend b (serialized json m)
  Fits-CanSend b m f = record {
    boundary = f.boundary;
    some_payload = f.some_text;
    no_zero = unfold serialized in json.print_text (message_object json m);
    absent = f.absent;
    fits = f.fits;
  }

  answer-called :
      (c rest : Bytes) (a : Message json)
      → Fits c a
      → data_listener (send_message json c a ++ rest) ≡ called 0 (some (serialized json a)) rest
  unfolding data_listener call_back send_message
  answer-called c rest a g =
      ap call_back (receive-send c (serialized json a) rest (Fits-CanSend c a g))

  -- A message whose texts have no zero byte, whose numbers fit the C types (the size of a post is below
  -- 2^31) and whose `double`, if it is one, is given exactly by its JSON text, is received by the other
  -- side when it is sent with a callback, but for the `admin` flag of a login and the size of raw data, of
  -- which it has the bytes in a copy without a terminator;
  -- and when the other side answers with any message and the lock and the thread could be created, the
  -- callback is called with the code 0 and the text of the answer, with nothing else taken from the
  -- channel, whether a lock was made before or not. Both texts are to be shorter than the block by more
  -- than their boundary, and not to contain it.
  pub async-answer :
      (b c more rest : Bytes) (m a : Message json) (mutex_init : Bool)
      → IsSendable json m
      → Fits b m
      → Fits c a
      → let sent = send_message_async b m true true mutex_init in
        (receive json (sent.0 ++ more) ≡ message (received_as json m) more)
        × (listener_result sent.1 (send_message json c a ++ rest)
            ≡ called 0 (some (serialized json a)) rest)
        × (sent.2 ≡ true)
  unfolding send_message_async comm_send_data_async listener_result data_listener call_back
      send_message start_listener
  async-answer b c more rest m a true h f g = (
    receive-send_message json b more m h f.boundary f.some_text f.absent f.fits,
    answer-called c rest a g,
    refl,
  )
  async-answer b c more rest m a false h f g = (
    receive-send_message json b more m h f.boundary f.some_text f.absent f.fits,
    answer-called c rest a g,
    refl,
  )
