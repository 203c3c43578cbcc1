-- ===== src/Channel/Messages.antt =====
-- One message, and a sequence of messages, from `comm_send_data` to `comm_receive_data`.
use itba_os_tp1_ipc_2016_q.Base.{
  ℕ, zero, suc, ◌+◌, ◌<◌, ◌≡◌, refl, ◌≢◌, ◌∙◌, sym, ap, arith, false, List, [], ◌∷◌, ◌++◌, Option,
  none, some, Bytes, length, All, All-append, Lacks, append_assoc,
}
use itba_os_tp1_ipc_2016_q.FileUtils.Writers.{write_string}
use itba_os_tp1_ipc_2016_q.Channel.{
  buffer_length, comm_send_data, received, blocked, overflow, comm_receive_data, receive_boundary,
  receive_data,
}
use itba_os_tp1_ipc_2016_q.Channel.Boundary.{IsBoundary}
use itba_os_tp1_ipc_2016_q.Channel.Delivery.{receive_data-go, receive_boundary-go}
use itba_os_tp1_ipc_2016_q.Channel.Overlap.{Absent, Absent-NoEarly}

pub boundary-Lacks : (b : Bytes) → IsBoundary b → Lacks 0 b
boundary-Lacks b ib = rw ib.shape (All-append _ ib.body _ ib.no_zero (omega arith))

-- The bytes on the wire.
pub send_bytes :
    (b payload : Bytes)
    → IsBoundary b
    → Lacks 0 payload
    → comm_send_data b payload (length payload) ≡ b ++ (payload ++ b)
unfolding comm_send_data
send_bytes b payload ib h = rw (write_string b (boundary-Lacks b ib), write_string payload h)

-- Behind the first boundary only the second loop is left.
pub receive_behind :
    (b stream : Bytes)
    → IsBoundary b
    → comm_receive_data (b ++ stream) ≡ receive_data b false stream []
unfolding comm_receive_data
receive_behind b stream ib =
    ap (λ t. receive_boundary (t ++ stream) []) ib.shape
    ∙ ap (λ t. receive_boundary t []) (append_assoc ib.body (b'_' ∷ b'_' ∷ []) stream)
    ∙ receive_boundary-go ib.body [] stream ib.no_underscore (omega arith)
    ∙ ap (λ t. receive_data t false stream []) (sym ib.shape)

-- A payload that can be sent: a text that is not empty, does not contain its boundary, and fits the
-- receiver's buffer together with it.
pub record CanSend (b payload : Bytes) : Type 0 where
  pub boundary : IsBoundary b
  pub some_payload : 0 < length payload
  pub no_zero : Lacks 0 payload
  pub absent : Absent b payload
  pub fits : length payload + length b < buffer_length

-- The receiver gets exactly the payload that was sent, and leaves on the channel exactly the bytes
-- that were written behind it, if the payload is a text that is not empty, does not contain its
-- boundary, and is shorter than the receiver's buffer by more than the boundary, and the boundary has
-- the shape of a generated one.
pub receive-send :
    (b payload rest : Bytes)
    → CanSend b payload
    → comm_receive_data (comm_send_data b payload (length payload) ++ rest) ≡ received payload rest
receive-send b payload rest c =
    ap (λ t. comm_receive_data (t ++ rest)) (send_bytes b payload c.boundary c.no_zero)
    ∙ ap comm_receive_data (append_assoc b (payload ++ b) rest)
    ∙ receive_behind b ((payload ++ b) ++ rest) c.boundary
    ∙ receive_data-go b payload rest [] (payload ++ b) refl (nonempty payload c.some_payload)
        (All-append _ payload b c.no_zero (boundary-Lacks b c.boundary))
        (Absent-NoEarly b payload c.boundary c.absent) c.some_payload c.fits
  where
    nonempty : (p : Bytes) → 0 < length p → p ++ b ≢ []
    nonempty [] h = absurd (omega arith)
    nonempty (x ∷ p) h = λ e. cc

-- What a sender writes for several messages, each with its boundary, one after another.
abbrev pub wire : List (Bytes × Bytes) → Bytes
wire [] = []
wire ((b, payload) ∷ frames) = comm_send_data b payload (length payload) ++ wire frames

abbrev pub payloads : List (Bytes × Bytes) → List Bytes
payloads [] = []
payloads ((b, payload) ∷ frames) = payload ∷ payloads frames

-- As many calls of `comm_receive_data` as given, one after another on what is left; `none` if one of
-- them does not return.
pub receive_many : ℕ → Bytes → Option (List Bytes × Bytes)
receive_many zero stream = some ([], stream)
receive_many (suc n) stream = elim (comm_receive_data stream) [
  | received payload rest ↦ elim (receive_many n rest) [
    | none ↦ none
    | some (ps, left) ↦ some (payload ∷ ps, left)
  ]
  | blocked ↦ none
  | overflow ↦ none
]

receive_many-step :
    (n : ℕ) (stream payload rest : Bytes) (ps : List Bytes) (left : Bytes)
    → comm_receive_data stream ≡ received payload rest
    → receive_many n rest ≡ some (ps, left)
    → receive_many (suc n) stream ≡ some (payload ∷ ps, left)
unfolding receive_many
receive_many-step n stream payload rest ps left e f = ground arith

-- Messages that are written one after another are received in the same order, none of them lost,
-- merged or cut, and what follows them is left on the channel: if each is a text that is not empty,
-- does not contain its boundary, and is shorter than the receiver's buffer by more than the boundary,
-- and the boundaries have the shape of generated ones.
pub receive_many-wire :
    (frames : List (Bytes × Bytes)) (rest : Bytes)
    → All (λ f. CanSend f.0 f.1) frames
    → receive_many (length frames) (wire frames ++ rest) ≡ some (payloads frames, rest)
receive_many-wire [] rest h = unfold receive_many in refl
receive_many-wire ((b, payload) ∷ frames) rest (c, cs) =
    receive_many-step (length frames) (wire ((b, payload) ∷ frames) ++ rest) payload
      (wire frames ++ rest) (payloads frames) rest
      (ap comm_receive_data
          (append_assoc (comm_send_data b payload (length payload)) (wire frames) rest)
        ∙ receive-send b payload (wire frames ++ rest) c)
      (receive_many-wire frames rest cs)
