-- ===== src/Logging.antt =====
-- server/logging_helpers.c and logging/main.c: what the server logs goes through a message queue to a
-- process that writes it to a file. The queue of the system is a parameter.
pub mod Written
pub mod Queues
mod Examples
use itba_os_tp1_ipc_2016_q.Base.{
  ℕ, ◌+◌, ◌≤◌, ◌<◌, ◌≡◌, ◌≢◌, Bool, true, false, ◌&&◌, List, [], ◌∷◌, ◌++◌, Option, none, some,
  ◌>>=◌, Bytes, codes, ◌==◌, if◌then◌else◌, length,
}

-- What a call of `mq_send` comes to; it waits as long as the queue is full.
pub data Sent (Q : Type 0) : Type 0 where
  accepted : Q → Sent Q
  failed : Sent Q
  waiting : Sent Q

-- POSIX message queues. Messages of one priority are received in the order in which they were sent; a
-- call of `mq_receive` waits as long as the queue is empty, which is `none`.
pub record MessageQueue : Type 1 where
  pub Queue : Type 0
  pub mq_open : ℕ → ℕ → Queue
  pub mq_send : Queue → Bytes → Sent Queue
  pub mq_receive : Queue → Option (Bytes × Queue)
  -- The messages that wait, and the longest one that is taken.
  pub waiting_in : Queue → List Bytes
  pub msgsize : Queue → ℕ
  pub send_accepted :
      (q : Queue) (m : Bytes) (q' : Queue)
      → mq_send q m ≡ accepted q'
      → (waiting_in q' ≡ waiting_in q ++ m ∷ []) × (msgsize q' ≡ msgsize q)
  pub send_long : (q : Queue) (m : Bytes) → msgsize q < length m → mq_send q m ≡ failed
  pub send_short : (q : Queue) (m : Bytes) → length m ≤ msgsize q → mq_send q m ≢ failed
  pub receive_first :
      (q : Queue) (m : Bytes) (ms : List Bytes)
      → waiting_in q ≡ m ∷ ms
      → (q' : Queue) × (mq_receive q ≡ some (m, q'))
        × (waiting_in q' ≡ ms)
        × (msgsize q' ≡ msgsize q)
  pub receive_none : (q : Queue) → waiting_in q ≡ [] → mq_receive q ≡ none

-- `MAX_MSG`, `MSG_MAX_SIZE` and `MSG_END`.
abbrev pub max_msg : ℕ
max_msg = 10

abbrev pub msg_max_size : ℕ
msg_max_size = 1024

abbrev pub msg_end : Bytes
msg_end = codes "MSGEND"

-- `log_error`, `log_info`, `log_warning` and `log_success`.
pub data Kind : Type 0 where
  error : Kind
  info : Kind
  warning : Kind
  success : Kind

abbrev pub kind_name : Kind → Bytes
kind_name error = codes "ERROR"
kind_name info = codes "INFO"
kind_name warning = codes "WARNING"
kind_name success = codes "SUCCESS"

-- `sprintf(msg_f, "%s: %s\n", kind, str)`.
unfoldable pub log_text : Kind → Bytes → Bytes
log_text kind str = kind_name kind ++ (codes ": " ++ (str ++ codes "\n"))

-- The bytes that are allocated for it.
unfoldable pub log_room : Kind → Bytes → ℕ
log_room kind str = length (kind_name kind) + 2 + length str + 2

-- `strncmp(buff, text, strlen(text)) == 0`.
unfoldable pub starts_with : Bytes → Bytes → Bool
starts_with buff [] = true
starts_with [] (d ∷ text) = false
starts_with (c ∷ buff) (d ∷ text) = c == d && starts_with buff text

-- The file of the logging process, which serves or has ended.
pub data Service : Type 0 where
  serving : Bytes → Service
  ended : Bytes → Service

-- What a message that was received makes of the file.
unfoldable pub write_log : Bytes → Bytes → Service
unfolding starts_with
write_log buff file = if starts_with buff msg_end then ended file else serving (file ++ buff)

-- What happens: the server logs a text, or the logging process takes a message; the Boolean says
-- whether the log file can then be opened.
pub data Event : Type 0 where
  log : Kind → Bytes → Event
  serve : Bool → Event

module _ (mq : MessageQueue) where
  open mq use {Queue, mq_open, mq_send, mq_receive}

  pub record Logs : Type 0 where
    pub queue : Queue
    pub service : Service

  -- `create_mq`, which opens a queue that is there already with the messages in it, and the log file,
  -- which is emptied. A file that cannot be opened is a fault: the null pointer is closed.
  unfoldable pub first_logs : Bool → Option Logs
  first_logs opened =
      if opened
      then some (record { queue = mq_open max_msg msg_max_size; service = serving [] })
      else none

  -- A message that is refused is only reported on the screen.
  unfoldable pub after_send : Logs → Sent Queue → Option Logs
  after_send logs (accepted q) = some (record logs { queue = q })
  after_send logs failed = some logs
  after_send logs waiting = none

  unfoldable pub log_mq : Kind → Bytes → Logs → Option Logs
  unfolding after_send log_text
  log_mq kind str logs = after_send logs (mq_send logs.queue (log_text kind str))

  -- An entry for a file that cannot be opened is a fault; the end of the service does not open it.
  unfoldable pub write_opened : Bool → Queue → Service → Option Logs
  write_opened opened q (ended file) = some (record { queue = q; service = ended file })
  write_opened opened q (serving file) =
      if opened then some (record { queue = q; service = serving file }) else none

  unfoldable pub after_receive : Bool → Bytes → Option (Bytes × Queue) → Option Logs
  unfolding write_log write_opened
  after_receive opened file none = none
  after_receive opened file (some (buff, q)) = write_opened opened q (write_log buff file)

  -- A round of the loop of the logging process.
  unfoldable pub log_round : Bool → Queue → Service → Option Logs
  unfolding after_receive
  log_round opened q (serving file) = after_receive opened file (mq_receive q)
  log_round opened q (ended file) = none

  -- `none` is an event that waits, or a fault.
  unfoldable pub log_event : Event → Logs → Option Logs
  unfolding log_mq log_round
  log_event (log kind str) logs = log_mq kind str logs
  log_event (serve opened) logs = log_round opened logs.queue logs.service

  unfoldable pub log_events : List Event → Logs → Option Logs
  unfolding log_event
  log_events [] logs = some logs
  log_events (event ∷ events) logs = log_event event logs >>= λ logs'. log_events events logs'
