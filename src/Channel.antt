-- ===== src/Channel.antt =====
-- lib/communication: the framing of a message by a boundary, `gen_boundary` of utils.c, the writes of
-- `comm_send_data` and the loops of `comm_receive_data` (alike over FIFOs and sockets).
pub mod Boundary
pub mod Delivery
pub mod Overlap
pub mod Messages
pub mod Limits
mod Examples
use itba_os_tp1_ipc_2016_q.Base.{
  ℕ, zero, suc, ◌+◌, ◌-◌, ◌%◌, ◌&&◌, ◌||◌, not, Bool, true, false, List, [], ◌∷◌, ◌++◌, Bytes,
  codes, ◌==◌, ltb, leb, if◌then◌else◌, length, take, drop, str_eq,
}
use itba_os_tp1_ipc_2016_q.Base.Decimal.{decimal}
use itba_os_tp1_ipc_2016_q.FileUtils.{write_one_by_one_without_zero}

abbrev pub boundary_prefix : Bytes
boundary_prefix = codes "--boundaryTPSO1IPC"

-- glibc's `RAND_MAX`; its decimal logarithm is rounded up to 10 in `rand_max_digits`.
abbrev pub rand_max : ℕ
rand_max = 2147483647

abbrev pub rand_low : ℕ
rand_low = 1000000000

-- `getrnd(min, max)`, where `rand` is what the call of `rand()` returns.
unfoldable pub getrnd : ℕ → ℕ → ℕ → ℕ
getrnd min max rand = rand % (max - min) + min

-- `gen_boundary()`: the prefix, a number of ten digits and two underscores.
unfoldable pub gen_boundary : ℕ → Bytes
unfolding getrnd
gen_boundary rand = boundary_prefix ++ (decimal (getrnd rand_low rand_max rand) ++ codes "__")

-- The bytes that `comm_send_data` writes for the `size` bytes at `data_`, with this boundary.
unfoldable pub comm_send_data : Bytes → Bytes → ℕ → Bytes
unfolding write_one_by_one_without_zero
comm_send_data boundary data_ size =
    write_one_by_one_without_zero boundary (length boundary)
    ++ (write_one_by_one_without_zero data_ size
        ++ write_one_by_one_without_zero boundary (length boundary))

abbrev pub buffer_length : ℕ
buffer_length = 2048

abbrev pub boundary_length : ℕ
boundary_length = 128

-- The outcome of a receive: the buffer's contents and the bytes that are left to read; a wait for
-- more than the other side has written; or a byte read to, or looked at by `strcmp`, behind one of
-- the two blocks, which were zeroed.
pub data Receive : Type 0 where
  received : Bytes → Bytes → Receive
  blocked : Receive
  overflow : Receive

-- A string in memory ends before the first zero byte.
unfoldable pub c_str : Bytes → Bytes
c_str [] = []
c_str (c ∷ s) = if c == 0 then [] else c ∷ c_str s

-- The loop's condition fails: more is read than a boundary, and what was read ends with it.
unfoldable pub at_boundary : Bytes → Bytes → Bool
unfolding c_str
at_boundary boundary buffer =
    ltb (length boundary) (length buffer)
    && str_eq (c_str (drop (length buffer - length boundary) buffer)) (c_str boundary)

-- The second loop. A zero byte is followed by another read with no test between them: `skipping` is
-- true for that read.
unfoldable pub receive_data : Bytes → Bool → Bytes → Bytes → Receive
unfolding at_boundary
receive_data boundary skipping [] buffer = blocked
receive_data boundary skipping (c ∷ stream) buffer =
    let buffer' = buffer ++ c ∷ [] in
    let zero_read = c == 0 && not skipping in
    let more = receive_data boundary zero_read stream buffer' in
    if leb buffer_length (length buffer)
    then overflow
    else if zero_read || not (at_boundary boundary buffer')
    then more
    else if leb buffer_length (length buffer')
    then overflow
    else received (take (length buffer' - length boundary) buffer') stream

-- The first loop, up to an underscore, and the read of the byte behind it.
unfoldable pub receive_boundary : Bytes → Bytes → Receive
unfolding receive_data
receive_boundary [] boundary = blocked
receive_boundary (c ∷ []) boundary =
    if leb boundary_length (length boundary) then overflow else blocked
receive_boundary (c ∷ d ∷ stream) boundary =
    let more = receive_boundary (d ∷ stream) (boundary ++ c ∷ []) in
    if leb boundary_length (length boundary)
    then overflow
    else if not (c == b'_')
    then more
    else if leb boundary_length (length boundary + 2)
    then overflow
    else receive_data (boundary ++ c ∷ d ∷ []) false stream []

unfoldable pub comm_receive_data : Bytes → Receive
unfolding receive_boundary
comm_receive_data stream = receive_boundary stream []
