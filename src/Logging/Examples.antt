-- ===== src/Logging/Examples.antt =====
-- Tests of the log.
use itba_os_tp1_ipc_2016_q.Base.{
  ◌≡◌, ◌>>=◌, true, refl, List, [], ◌∷◌, ◌++◌, some, Bytes, codes, length, replicate,
}
use itba_os_tp1_ipc_2016_q.Logging.{
  MessageQueue, msg_end, info, error, Event, log, serve, serving, ended, Logs, first_logs,
  log_events, write_log, log_text, log_event, log_mq, after_send, log_round, after_receive,
  write_opened,
}
use itba_os_tp1_ipc_2016_q.Logging.Queues.{box_queue, put, get}
use itba_os_tp1_ipc_2016_q.Logging.Written.{IsEntry, texts_of, joined, file-texts, file-drained}
use itba_os_tp1_ipc_2016_q.Base.{All}

-- The message that ends the process, which the server never sends.
end_of_log : write_log msg_end (codes "a") ≡ ended (codes "a")
unfolding write_log
end_of_log = refl

abbrev events : List Event
events = log info (codes "a") ∷ log error (codes "b") ∷ serve true ∷ []

-- The messages behind these events.
abbrev logs : Logs box_queue
logs = record {
  queue = record { most = 10; size = 1024; messages = codes "ERROR: b\n" ∷ [] };
  service = serving (codes "INFO: a\n");
}

events_run : (first_logs box_queue true >>= log_events box_queue events) ≡ some logs
unfolding log_events first_logs log_text log_event log_mq after_send log_round after_receive
    write_opened write_log put get
events_run = refl

file-texts_example :
    (file : Bytes) × (logs.service ≡ serving file)
    × (file ++ joined (MessageQueue.waiting_in box_queue logs.queue) ≡ texts_of events)
    × All IsEntry (MessageQueue.waiting_in box_queue logs.queue)
file-texts_example = file-texts box_queue true events logs refl refl events_run

file-drained_example :
    (logs' : Logs box_queue) × (log_events box_queue
        (replicate (length (MessageQueue.waiting_in box_queue logs.queue)) (serve true))
        logs
      ≡ some logs')
    × (logs'.service ≡ serving (texts_of events))
file-drained_example = file-drained box_queue true events logs refl refl events_run
