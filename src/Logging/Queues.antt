-- ===== src/Logging/Queues.antt =====
-- A concrete message queue that meets the laws of `MessageQueue`.
use mathlib.Core.Path.{subst}
use itba_os_tp1_ipc_2016_q.Base.{
  ℕ, ◌≤◌, ◌<◌, ◌≡◌, ◌≢◌, refl, ap, arith, inl, inr, Bool-cases, List, [], ◌∷◌, ◌++◌, Option, none,
  some, Bytes, ltb, if◌then◌else◌, length,
}
use itba_os_tp1_ipc_2016_q.Logging.{Sent, accepted, failed, waiting, MessageQueue}

pub record Box : Type 0 where
  pub most : ℕ
  pub size : ℕ
  pub messages : List Bytes

unfoldable pub put : Box → Bytes → Sent Box
put q m =
    if ltb q.size (length m)
    then failed
    else if ltb (length q.messages) q.most
    then accepted (record q { messages = q.messages ++ m ∷ [] })
    else waiting

abbrev pub first_of : Box → List Bytes → Option (Bytes × Box)
first_of q [] = none
first_of q (m ∷ ms) = some (m, record q { messages = ms })

unfoldable pub get : Box → Option (Bytes × Box)
get q = first_of q q.messages

-- What is taken is put behind the other messages; what is refused is too long.
abbrev IsPut : Box → Bytes → Sent Box → Type 0
IsPut q m (accepted q') = (q'.messages ≡ q.messages ++ m ∷ []) × (q'.size ≡ q.size)
IsPut q m failed = q.size < length m
IsPut q m waiting = Unit

put-IsPut : (q : Box) (m : Bytes) → IsPut q m (put q m)
unfolding put
put-IsPut q m = elim (Bool-cases (ltb q.size (length m))) [
  | inl e ↦ rw e (ground (arith, e))
  | inr e ↦ elim (Bool-cases (ltb (length q.messages) q.most)) [
    | inl f ↦ rw (e, f) (refl, refl)
    | inr f ↦ rw (e, f) tt
  ]
]

pub put-accepted :
    (q : Box) (m : Bytes) (q' : Box)
    → put q m ≡ accepted q'
    → (q'.messages ≡ q.messages ++ m ∷ []) × (q'.size ≡ q.size)
put-accepted q m q' e = subst (IsPut q m) e (put-IsPut q m)

pub put-long : (q : Box) (m : Bytes) → q.size < length m → put q m ≡ failed
unfolding put
put-long q m h = ground (arith, h)

pub put-short : (q : Box) (m : Bytes) → length m ≤ q.size → put q m ≢ failed
put-short q m h e =
    let long : q.size < length m = subst (IsPut q m) e (put-IsPut q m) in omega (arith, h, long)

pub get-first :
    (q : Box) (m : Bytes) (ms : List Bytes)
    → q.messages ≡ m ∷ ms
    → (q' : Box) × (get q ≡ some (m, q')) × (q'.messages ≡ ms) × (q'.size ≡ q.size)
unfolding get
get-first q m ms e = (record q { messages = ms }, ap (first_of q) e, refl, refl)

pub get-none : (q : Box) → q.messages ≡ [] → get q ≡ none
unfolding get
get-none q e = ap (first_of q) e

abbrev pub box_queue : MessageQueue
box_queue = record {
  Queue = Box;
  mq_open = λ most size. record { most = most; size = size; messages = [] };
  mq_send = put;
  mq_receive = get;
  waiting_in = λ q. q.messages;
  msgsize = λ q. q.size;
  send_accepted = put-accepted;
  send_long = put-long;
  send_short = put-short;
  receive_first = get-first;
  receive_none = get-none;
}
