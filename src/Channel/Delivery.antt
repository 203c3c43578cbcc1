-- ===== src/Channel/Delivery.antt =====
-- `comm_receive_data` on what `comm_send_data` has written.
use itba_os_tp1_ipc_2016_q.Base.{
  ℕ, ◌+◌, ◌-◌, ◌≤◌, ◌<◌, ◌≡◌, refl, ◌≢◌, ◌∙◌, ap, arith, inl, inr, true, false, [], ◌∷◌, ◌++◌,
  Bytes, Bool-cases, length, take, drop, length-append, length-drop, drop-append, take-append_eq,
  drop-append_le, append_assoc, All-left, All-right, All-drop, Lacks, str_eq_refl, str_eq→eq,
}
use itba_os_tp1_ipc_2016_q.Channel.{
  boundary_length, buffer_length, received, c_str, at_boundary, receive_data, receive_boundary,
}

-- The boundary does not stand in the payload and the boundary behind it, but at their end. (The
-- loop makes no test before it has read more than a boundary, so a payload may begin with one.)
abbrev pub NoEarly : Bytes → Bytes → Type 0
NoEarly b payload =
    (k : ℕ) → 0 < k → k < length payload → take (length b) (drop k (payload ++ b)) ≢ b

c_str-Lacks : (s : Bytes) → Lacks 0 s → c_str s ≡ s
unfolding c_str
c_str-Lacks [] h = refl
c_str-Lacks (c ∷ s) h = ground (arith, c_str-Lacks s h.1)

pub at_boundary_end :
    (b payload : Bytes)
    → Lacks 0 (payload ++ b)
    → 0 < length payload
    → at_boundary b (payload ++ b) ≡ true
unfolding at_boundary
at_boundary_end b payload h ne =
    let n : length (payload ++ b) - length b ≡ length payload =
      omega (arith, length-append payload b) in
    rw (n, drop-append payload b) (ground (arith, length-append payload b, str_eq_refl (c_str b)))

-- The last `length b` bytes that were read, as a part of all that will be.
tail-take :
    (b buf z : Bytes)
    → length b ≤ length buf
    → take (length b) (drop (length buf - length b) (buf ++ z)) ≡ drop (length buf - length b) buf
tail-take b buf z h = rw (drop-append_le (length buf - length b) buf z (omega arith)) (
    take-append_eq (length b) (drop (length buf - length b) buf) z
      (omega (arith, length-drop (length buf - length b) buf)))

at_boundary-parts :
    (b buf : Bytes)
    → Lacks 0 buf
    → Lacks 0 b
    → at_boundary b buf ≡ true
    → (length b < length buf) × (drop (length buf - length b) buf ≡ b)
unfolding at_boundary
at_boundary-parts b buf h hb e =
    let last = drop (length buf - length b) buf in
    let l : Lacks 0 last = All-drop _ (length buf - length b) buf h in
    ground (arith, c_str-Lacks last l, c_str-Lacks b hb, str_eq→eq last b)

-- Before the end of the payload and its boundary the loop goes on.
pub at_boundary_early :
    (b payload buf z : Bytes)
    → buf ++ z ≡ payload ++ b
    → z ≢ []
    → Lacks 0 (payload ++ b)
    → NoEarly b payload
    → at_boundary b buf ≡ false
at_boundary_early b payload buf [] e ne h early = absurd (ne refl)
at_boundary_early b payload buf (d ∷ z) e ne h early = elim (Bool-cases (at_boundary b buf)) [
  | inl t ↦
      let hb : Lacks 0 b = All-right _ payload b h in
      let hbuf : Lacks 0 buf = All-left _ buf (d ∷ z) (rw e h) in
      let (lt, found) = at_boundary-parts b buf hbuf hb t in
      let n : length (buf ++ d ∷ z) ≡ length (payload ++ b) = ap length e in
      absurd (
        early (length buf - length b) (omega arith)
          (omega (arith, length-append buf (d ∷ z), length-append payload b))
          (rw (← e) (tail-take b buf (d ∷ z) (omega arith)) ∙ found))
  | inr f ↦ f
]

pub receive_data-go :
    (b payload rest x y : Bytes)
    → x ++ y ≡ payload ++ b
    → y ≢ []
    → Lacks 0 (payload ++ b)
    → NoEarly b payload
    → 0 < length payload
    → length payload + length b < buffer_length
    → receive_data b false (y ++ rest) x ≡ received payload rest
unfolding receive_data
receive_data-go b payload rest x [] e ne h early pos fits = absurd (ne refl)
receive_data-go b payload rest x (c ∷ []) e ne h early pos fits =
    let n : length (x ++ c ∷ []) ≡ length payload + length b =
      ap length e ∙ length-append payload b in
    let l : Lacks 0 (x ++ c ∷ []) = rw e h in
    let nz : c ≢ 0 = (All-right _ x (c ∷ []) l).0 in
    let t : at_boundary b (x ++ c ∷ []) ≡ true = rw e (at_boundary_end b payload h pos) in
    let p : take (length (x ++ c ∷ []) - length b) (x ++ c ∷ []) ≡ payload = rw e (
      take-append_eq (length (payload ++ b) - length b) payload b
        (omega (arith, length-append payload b))) in
    ground (arith, length-append x (c ∷ []))
receive_data-go b payload rest x (c ∷ d ∷ y) e ne h early pos fits =
    let n : length (x ++ c ∷ d ∷ y) ≡ length payload + length b =
      ap length e ∙ length-append payload b in
    let l : Lacks 0 (x ++ c ∷ d ∷ y) = rw e h in
    let nz : c ≢ 0 = (All-right _ x (c ∷ d ∷ y) l).0 in
    let e' : (x ++ c ∷ []) ++ d ∷ y ≡ payload ++ b = append_assoc x (c ∷ []) (d ∷ y) ∙ e in
    let t : at_boundary b (x ++ c ∷ []) ≡ false =
      at_boundary_early b payload (x ++ c ∷ []) (d ∷ y) e' (λ f. cc) h early in
    ground (
      arith,
      length-append x (c ∷ d ∷ y),
      receive_data-go b payload rest (x ++ c ∷ []) (d ∷ y) e' (λ f. cc) h early pos fits,
    )

pub receive_boundary-go :
    (body acc stream : Bytes)
    → Lacks b'_' body
    → length acc + length body + 2 < boundary_length
    → receive_boundary (body ++ b'_' ∷ b'_' ∷ stream) acc
      ≡ receive_data (acc ++ (body ++ b'_' ∷ b'_' ∷ [])) false stream []
unfolding receive_boundary
receive_boundary-go [] acc stream h fits = ground arith
receive_boundary-go (c ∷ []) acc stream h fits = ground (
  arith,
  receive_boundary-go [] (acc ++ c ∷ []) stream tt,
  length-append acc (c ∷ []),
  append_assoc acc (c ∷ []) (b'_' ∷ b'_' ∷ []),
)
receive_boundary-go (c ∷ d ∷ body) acc stream h fits = ground (
  arith,
  receive_boundary-go (d ∷ body) (acc ++ c ∷ []) stream h.1,
  length-append acc (c ∷ []),
  append_assoc acc (c ∷ []) ((d ∷ body) ++ b'_' ∷ b'_' ∷ []),
)
