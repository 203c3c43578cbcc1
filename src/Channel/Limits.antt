-- ===== src/Channel/Limits.antt =====
-- What does not arrive: an empty payload, and one that is too long for the receiver's buffer.
use itba_os_tp1_ipc_2016_q.Base.{
  ◌+◌, ◌≤◌, ◌<◌, ◌≡◌, refl, ◌≢◌, ◌∙◌, ap, arith, true, false, [], ◌∷◌, ◌++◌, Bytes, length,
  All-append, All-right, Lacks, length-append, append_assoc,
}
use itba_os_tp1_ipc_2016_q.Channel.{
  buffer_length, comm_send_data, blocked, overflow, comm_receive_data, receive_data, at_boundary,
}
use itba_os_tp1_ipc_2016_q.Channel.Boundary.{IsBoundary}
use itba_os_tp1_ipc_2016_q.Channel.Delivery.{NoEarly, at_boundary_end, at_boundary_early}
use itba_os_tp1_ipc_2016_q.Channel.Overlap.{Absent, Absent-NoEarly}
use itba_os_tp1_ipc_2016_q.Channel.Messages.{boundary-Lacks, send_bytes, receive_behind}

at_boundary_short : (b buf : Bytes) → length buf ≤ length b → at_boundary b buf ≡ false
unfolding at_boundary
at_boundary_short b buf h = ground arith

-- The loop makes no test before it has read more than a boundary.
receive_data-short :
    (b x y : Bytes)
    → length x + length y ≤ length b
    → Lacks 0 y
    → length b < buffer_length
    → receive_data b false y x ≡ blocked
unfolding receive_data
receive_data-short b x [] h nz fits = refl
receive_data-short b x (c ∷ y) h nz fits = ground (
  arith,
  receive_data-short b (x ++ c ∷ []) y,
  length-append x (c ∷ []),
  at_boundary_short b (x ++ c ∷ []),
)

-- An empty payload is not received, whatever boundary of the generated shape is around it: behind its
-- two boundaries the receiver waits for more.
pub receive_empty : (b : Bytes) → IsBoundary b → comm_receive_data (comm_send_data b [] 0) ≡ blocked
receive_empty b ib =
    let size : length b ≡ length ib.body + 2 =
      ap length ib.shape ∙ length-append ib.body (b'_' ∷ b'_' ∷ []) in
    ap comm_receive_data (send_bytes b [] ib tt)
    ∙ receive_behind b b ib
    ∙ receive_data-short b [] b (omega arith) (boundary-Lacks b ib) (omega arith)

receive_data-over :
    (b payload rest x y : Bytes)
    → x ++ y ≡ payload ++ b
    → y ≢ []
    → Lacks 0 (payload ++ b)
    → NoEarly b payload
    → 0 < length payload
    → buffer_length ≤ length payload + length b
    → receive_data b false (y ++ rest) x ≡ overflow
unfolding receive_data
receive_data-over b payload rest x [] e ne h early pos large = absurd (ne refl)
receive_data-over b payload rest x (c ∷ []) e ne h early pos large =
    let n : length (x ++ c ∷ []) ≡ length payload + length b =
      ap length e ∙ length-append payload b in
    let l : Lacks 0 (x ++ c ∷ []) = rw e h in
    let nz : c ≢ 0 = (All-right _ x (c ∷ []) l).0 in
    let t : at_boundary b (x ++ c ∷ []) ≡ true = rw e (at_boundary_end b payload h pos) in
    ground (arith, length-append x (c ∷ []))
receive_data-over b payload rest x (c ∷ d ∷ y) e ne h early pos large =
    let l : Lacks 0 (x ++ c ∷ d ∷ y) = rw e h in
    let nz : c ≢ 0 = (All-right _ x (c ∷ d ∷ y) l).0 in
    let e' : (x ++ c ∷ []) ++ d ∷ y ≡ payload ++ b = append_assoc x (c ∷ []) (d ∷ y) ∙ e in
    let t : at_boundary b (x ++ c ∷ []) ≡ false =
      at_boundary_early b payload (x ++ c ∷ []) (d ∷ y) e' (λ f. cc) h early in
    ground
      (arith, receive_data-over b payload rest (x ++ c ∷ []) (d ∷ y) e' (λ f. cc) h early pos large)

-- A payload without zero bytes that does not contain its boundary, of the generated shape, and does
-- not fit the receiver's buffer of 2048 bytes together with it makes the receiver write or look behind
-- the buffer.
pub receive_large :
    (b payload rest : Bytes)
    → IsBoundary b
    → Lacks 0 payload
    → Absent b payload
    → buffer_length ≤ length payload + length b
    → comm_receive_data (comm_send_data b payload (length payload) ++ rest) ≡ overflow
receive_large b payload rest ib h absent large =
    let size : length b ≡ length ib.body + 2 =
      ap length ib.shape ∙ length-append ib.body (b'_' ∷ b'_' ∷ []) in
    ap (λ t. comm_receive_data (t ++ rest)) (send_bytes b payload ib h)
    ∙ ap comm_receive_data (append_assoc b (payload ++ b) rest)
    ∙ receive_behind b ((payload ++ b) ++ rest) ib
    ∙ receive_data-over b payload rest [] (payload ++ b) refl
        (λ e. absurd (omega (arith, ap length e, length-append payload b)))
        (All-append _ payload b h (boundary-Lacks b ib)) (Absent-NoEarly b payload ib absent)
        (omega arith) large
