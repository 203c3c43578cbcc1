-- ===== src/Logging/Written.antt =====
-- What the logging process writes: the texts that the server logs, in their order.
use mathlib.Core.Path.{subst}
use itba_os_tp1_ipc_2016_q.Base.{
  ◌+◌, ◌≤◌, ◌<◌, ◌≡◌, refl, ◌∙◌, sym, ap, arith, inl, inr, Bool, Bool-cases, true, false, List, [],
  ◌∷◌, ◌++◌, append-nil, append_assoc, Option, none, some, ◌>>=◌, Bytes, leb, if◌then◌else◌, length,
  length-append, replicate, All, All-append,
}
use itba_os_tp1_ipc_2016_q.Logging.{
  Sent, accepted, failed, waiting, MessageQueue, msg_max_size, msg_end, Kind, error, info, warning,
  success, log_text, log_room, starts_with, max_msg, Service, serving, ended, write_log, Event, log,
  serve, Logs, first_logs, after_send, log_mq, after_receive, write_opened, log_round, log_event,
  log_events,
}

-- The text of an event that is written: a text longer than a message is lost.
abbrev pub text_of : Event → Bytes
text_of (log kind str) =
    if leb (length (log_text kind str)) msg_max_size then log_text kind str else []
text_of (serve opened) = []

abbrev pub texts_of : List Event → Bytes
texts_of [] = []
texts_of (event ∷ events) = text_of event ++ texts_of events

abbrev pub joined : List Bytes → Bytes
joined [] = []
joined (m ∷ ms) = m ++ joined ms

joined-append : (ms : List Bytes) (m : Bytes) → joined (ms ++ m ∷ []) ≡ joined ms ++ m
joined-append [] m = append-nil m
joined-append (n ∷ ms) m =
    ap (λ t. n ++ t) (joined-append ms m) ∙ sym (append_assoc n (joined ms) m)

-- A message that goes on the file, and leaves room for the terminator behind it.
abbrev pub IsEntry : Bytes → Type 0
IsEntry m = (starts_with m msg_end ≡ false) × (length m ≤ msg_max_size)

log_text-entry : (kind : Kind) (str : Bytes) → starts_with (log_text kind str) msg_end ≡ false
unfolding log_text starts_with
log_text-entry error str = refl
log_text-entry info str = refl
log_text-entry warning str = refl
log_text-entry success str = refl

-- The text of a log entry fits its block exactly.
pub log_text-room : (kind : Kind) (str : Bytes) → length (log_text kind str) + 1 ≡ log_room kind str
unfolding log_text log_room
log_text-room error str = omega (arith, length-append str (10 ∷ []))
log_text-room info str = omega (arith, length-append str (10 ∷ []))
log_text-room warning str = omega (arith, length-append str (10 ∷ []))
log_text-room success str = omega (arith, length-append str (10 ∷ []))

-- The file and the messages that wait are `done`.
abbrev pub IsWritten : Bytes → Service → List Bytes → Type 0
IsWritten done (serving file) ms = (file ++ joined ms ≡ done) × All IsEntry ms
IsWritten done (ended file) ms = ⊥

sent-IsWritten :
    (done : Bytes) (service : Service) (ms : List Bytes) (m : Bytes)
    → IsEntry m
    → IsWritten done service ms
    → IsWritten (done ++ m) service (ms ++ m ∷ [])
sent-IsWritten done (serving file) ms m i (e, l) = (
  ap (λ t. file ++ t) (joined-append ms m)
      ∙ sym (append_assoc file (joined ms) m)
      ∙ ap (λ t. t ++ m) e,
  All-append IsEntry ms (m ∷ []) l (i, tt),
)
sent-IsWritten done (ended file) ms m i w = absurd w

received-IsWritten :
    (done file m : Bytes) (ms : List Bytes)
    → IsWritten done (serving file) (m ∷ ms)
    → (write_log m file ≡ serving (file ++ m)) × IsWritten done (serving (file ++ m)) ms
unfolding write_log
received-IsWritten done file m ms (e, (i, l)) =
    (rw (i.0) refl, (append_assoc file m (joined ms) ∙ e, l))

text_short :
    (kind : Kind) (str : Bytes)
    → length (log_text kind str) ≤ msg_max_size
    → text_of (log kind str) ≡ log_text kind str
text_short kind str h =
    let e : leb (length (log_text kind str)) msg_max_size ≡ true = ground (arith, h) in rw e refl

text_long :
    (kind : Kind) (str : Bytes)
    → msg_max_size < length (log_text kind str)
    → text_of (log kind str) ≡ []
text_long kind str h =
    let e : leb (length (log_text kind str)) msg_max_size ≡ false = ground (arith, h) in rw e refl

module _ (mq : MessageQueue) where
  open mq use {
    Queue, mq_open, mq_send, mq_receive, waiting_in, msgsize, send_accepted, send_long, send_short,
    receive_first, receive_none,
  }

  -- The queue takes messages of that size, and all that was logged is written or waits.
  abbrev pub Going : Bytes → Logs mq → Type 0
  Going done logs =
      (msgsize logs.queue ≡ msg_max_size) × IsWritten done logs.service (waiting_in logs.queue)

  abbrev GoingIf : Bytes → Option (Logs mq) → Type 0
  GoingIf done none = Unit
  GoingIf done (some logs) = Going done logs

  -- The queue that is opened is a new one: no message of an earlier run waits in it, and it takes
  -- messages of the size that was asked for.
  abbrev pub IsNew : Queue → Type 0
  IsNew q = (waiting_in q ≡ []) × (msgsize q ≡ msg_max_size)

  first-Going :
      (opened : Bool) → IsNew (mq_open max_msg msg_max_size) → GoingIf [] (first_logs mq opened)
  unfolding first_logs
  first-Going false n = tt
  first-Going true (none_waits, size) =
      (size, subst (λ ms. IsWritten [] (serving []) ms) (sym none_waits) (refl, tt))

  sent-Going :
      (done : Bytes) (logs : Logs mq) (kind : Kind) (str : Bytes) (r : Sent Queue)
      → mq_send logs.queue (log_text kind str) ≡ r
      → Going done logs
      → GoingIf (done ++ text_of (log kind str)) (after_send mq logs r)
  unfolding after_send
  sent-Going done logs kind str waiting e g = tt
  sent-Going done logs kind str failed e (s, w) =
      elim (Bool-cases (leb (length (log_text kind str)) msg_max_size)) [
        | inl h ↦
            let short : length (log_text kind str) ≤ msgsize logs.queue = ground (arith, h, s) in
            absurd (send_short logs.queue (log_text kind str) short e)
        | inr h ↦
            let none_of : text_of (log kind str) ≡ [] = text_long kind str (ground (arith, h)) in
            (
              s,
              subst (λ d. IsWritten d logs.service (waiting_in logs.queue))
                  (sym (ap (λ t. done ++ t) none_of ∙ append-nil done)) w,
            )
      ]
  sent-Going done logs kind str (accepted q) e (s, w) =
      let (more, same) = send_accepted logs.queue (log_text kind str) q e in
      elim (Bool-cases (leb (length (log_text kind str)) msg_max_size)) [
        | inl h ↦
            let short : length (log_text kind str) ≤ msg_max_size = ground (arith, h) in
            let all_of : text_of (log kind str) ≡ log_text kind str = text_short kind str short in
            let sent : IsWritten (done ++ log_text kind str) logs.service
                (waiting_in logs.queue ++ log_text kind str ∷ []) =
              sent-IsWritten done logs.service (waiting_in logs.queue) (log_text kind str)
                (log_text-entry kind str, short) w in
            (
              same ∙ s,
              subst (λ ms. IsWritten (done ++ text_of (log kind str)) logs.service ms) (sym more)
                  (subst
                    (λ t.
                      IsWritten (done ++ t) logs.service
                        (waiting_in logs.queue ++ log_text kind str ∷ []))
                    (sym all_of) sent),
            )
        | inr h ↦
            let long : msgsize logs.queue < length (log_text kind str) = ground (arith, h, s) in
            let refused : mq_send logs.queue (log_text kind str) ≡ failed =
              send_long logs.queue (log_text kind str) long in
            cc
      ]

  opened-Going :
      (done : Bytes) (opened : Bool) (q : Queue) (service : Service)
      → Going done (record { queue = q; service = service })
      → GoingIf done (write_opened mq opened q service)
  unfolding write_opened
  opened-Going done opened q (ended file) g = g
  opened-Going done true q (serving file) g = g
  opened-Going done false q (serving file) g = tt

  round-Going :
      (done : Bytes) (opened : Bool) (q : Queue) (service : Service) (ms : List Bytes)
      → waiting_in q ≡ ms
      → Going done (record { queue = q; service = service })
      → GoingIf done (log_round mq opened q service)
  unfolding log_round after_receive
  round-Going done opened q (ended file) ms e (s, w) = tt
  round-Going done opened q (serving file) [] e (s, w) =
      subst (λ r. GoingIf done (after_receive mq opened file r)) (sym (receive_none q e)) tt
  round-Going done opened q (serving file) (m ∷ ms) e (s, w) =
      let (q', r, rest, same) = receive_first q m ms e in
      let (written, going) =
        received-IsWritten done file m ms (subst (λ l. IsWritten done (serving file) l) e w) in
      subst (λ o. GoingIf done (after_receive mq opened file o)) (sym r)
        (opened-Going done opened q' (write_log m file) (
          same ∙ s,
          subst (λ service. IsWritten done service (waiting_in q')) (sym written)
              (subst (λ l. IsWritten done (serving (file ++ m)) l) (sym rest) going),
        ))

  event-Going :
      (event : Event) (done : Bytes) (logs : Logs mq)
      → Going done logs
      → GoingIf (done ++ text_of event) (log_event mq event logs)
  unfolding log_event log_mq
  event-Going (log kind str) done logs g =
      sent-Going done logs kind str (mq_send logs.queue (log_text kind str)) refl g
  event-Going (serve opened) done logs g =
      subst (λ d. GoingIf d (log_round mq opened logs.queue logs.service)) (sym (append-nil done))
        (round-Going done opened logs.queue logs.service (waiting_in logs.queue) refl g)

  events-Going :
      (events : List Event) (done : Bytes) (logs : Logs mq)
      → Going done logs
      → GoingIf (done ++ texts_of events) (log_events mq events logs)
  unfolding log_events
  events-Going [] done logs g = subst (λ d. Going d logs) (sym (append-nil done)) g
  events-Going (event ∷ events) done logs g =
      go_on (log_event mq event logs) (event-Going event done logs g)
        (λ logs' g'. events-Going events (done ++ text_of event) logs' g')
    where
      go_on :
          (o : Option (Logs mq))
          → GoingIf (done ++ text_of event) o
          → ((logs' : Logs mq)
              → Going (done ++ text_of event) logs'
              → GoingIf ((done ++ text_of event) ++ texts_of events) (log_events mq events logs'))
          → GoingIf (done ++ texts_of (event ∷ events)) (o >>= λ logs'. log_events mq events logs')
      go_on none g next = tt
      go_on (some logs') g next =
          subst (λ d. GoingIf d (log_events mq events logs'))
            (append_assoc done (text_of event) (texts_of events)) (next logs' g)

  started-Going :
      (events : List Event) (o : Option (Logs mq))
      → GoingIf [] o
      → GoingIf (texts_of events) (o >>= log_events mq events)
  started-Going events none g = tt
  started-Going events (some logs) g = events-Going events [] logs g

  run-Going :
      (opened : Bool) (events : List Event) (logs : Logs mq)
      → IsNew (mq_open max_msg msg_max_size)
      → (first_logs mq opened >>= log_events mq events) ≡ some logs
      → Going (texts_of events) logs
  run-Going opened events logs n e =
      subst (λ o. GoingIf (texts_of events) o) e
        (started-Going events (first_logs mq opened) (first-Going opened n))

  served :
      (done : Bytes) (service : Service) (ms : List Bytes)
      → IsWritten done service ms
      → (file : Bytes) × (service ≡ serving file) × (file ++ joined ms ≡ done) × All IsEntry ms
  served done (serving file) ms (e, l) = (file, refl, e, l)
  served done (ended file) ms w = absurd w

  -- Whatever the server logs and whenever the logging process takes a message, if the queue was new
  -- when it was opened, with no message of an earlier run in it, and no call waits for ever and the log
  -- file could be opened whenever it was: the logging process is still serving, and its file with the
  -- messages that wait behind it is the text of all that was logged, in order, but for the texts that
  -- are longer than a message, which are lost. Each message that waits leaves room for the terminator
  -- that is put behind it.
  pub file-texts :
      (opened : Bool) (events : List Event) (logs : Logs mq)
      → waiting_in (mq_open max_msg msg_max_size) ≡ []
      → msgsize (mq_open max_msg msg_max_size) ≡ msg_max_size
      → (first_logs mq opened >>= log_events mq events) ≡ some logs
      → (file : Bytes) × (logs.service ≡ serving file)
        × (file ++ joined (waiting_in logs.queue) ≡ texts_of events)
        × All IsEntry (waiting_in logs.queue)
  file-texts opened events logs n z e =
      served (texts_of events) logs.service (waiting_in logs.queue)
        (run-Going opened events logs (n, z) e).1

  drain :
      (ms : List Bytes) (done file : Bytes) (q : Queue)
      → waiting_in q ≡ ms
      → IsWritten done (serving file) ms
      → (logs : Logs mq) × (log_events mq
            (replicate (length ms) (serve true))
            (record { queue = q; service = serving file })
          ≡ some logs)
        × (logs.service ≡ serving done)
  unfolding log_events log_event log_round after_receive write_opened
  drain [] done file q e (w, l) =
      (record { queue = q; service = serving file }, refl, ap serving (sym (append-nil file) ∙ w))
  drain (m ∷ ms) done file q e w =
      let (q', r, rest, same) = receive_first q m ms e in
      let (written, going) = received-IsWritten done file m ms w in
      let (logs, run, all) = drain ms done (file ++ m) q' rest going in
      let round : log_round mq true q (serving file)
          ≡ some (record { queue = q'; service = serving (file ++ m) }) =
        ap (after_receive mq true file) r ∙ ap (write_opened mq true q') written in
      (logs, ap (λ o. o >>= log_events mq (replicate (length ms) (serve true))) round ∙ run, all)

  -- Whatever was logged before, through a queue that was new when it was opened, and written to a file
  -- that could be opened: when the logging process takes as many messages as wait, and can open the
  -- file each time, its file is the text of all that was logged, in order, but for the texts that are
  -- longer than a message.
  pub file-drained :
      (opened : Bool) (events : List Event) (logs : Logs mq)
      → waiting_in (mq_open max_msg msg_max_size) ≡ []
      → msgsize (mq_open max_msg msg_max_size) ≡ msg_max_size
      → (first_logs mq opened >>= log_events mq events) ≡ some logs
      → (logs' : Logs mq) × (log_events mq
            (replicate (length (waiting_in logs.queue)) (serve true))
            logs
          ≡ some logs')
        × (logs'.service ≡ serving (texts_of events))
  file-drained opened events logs n z e =
      let (file, same, w, l) = file-texts opened events logs n z e in
      let start : record { queue = logs.queue; service = serving file } ≡ logs =
        ap (λ service. record { queue = logs.queue; service = service }) (sym same) in
      let (logs', run, all) =
        drain (waiting_in logs.queue) (texts_of events) file logs.queue refl (w, l) in
      (
        logs',
        sym (ap (log_events mq (replicate (length (waiting_in logs.queue)) (serve true))) start)
            ∙ run,
        all,
      )
