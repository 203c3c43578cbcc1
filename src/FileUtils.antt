-- ===== src/FileUtils.antt =====
-- lib/file_utils/file_utils.c: the three-digit file encoding, the byte-wise writers, and the
-- reading and writing of whole files.
pub mod RoundTrip
pub mod Writers
mod Examples
use itba_os_tp1_ipc_2016_q.Base.{
  ℕ, zero, suc, ◌+◌, ◌-◌, ◌*◌, ◌/◌, ◌%◌, ◌&&◌, ◌||◌, ◌>>=◌, not, Bool, true, false, List, [], ◌∷◌,
  ◌++◌, Option, none, some, Bytes, ◌==◌, ltb, if◌then◌else◌, length, take, drop, min,
}

-- `sprintf(tmp, "%03d", byte)` for a value below 1000.
unfoldable pub print03 : ℕ → Bytes
print03 c = (b'0' + c / 100) ∷ (b'0' + c / 10 % 10) ∷ (b'0' + c % 10) ∷ []

-- One round of the loop appends the three digits of the next byte; `data` holds the `size` bytes.
unfoldable pub encode_loop : Bytes → Bytes → Bytes
unfolding print03
encode_loop [] output = output
encode_loop (c ∷ data_) output = encode_loop data_ (output ++ print03 c)

unfoldable pub encode_raw_data : Bytes → Bytes
unfolding encode_loop
encode_raw_data bytes = encode_loop bytes []

-- The `int` that is stored in a `char`: its value modulo 256. A `char` and the byte that it is
-- read from are the same modulo 256, and 5376 = 21 * 256 keeps the difference from stopping at 0.
unfoldable pub decode_char : ℕ → ℕ → ℕ → ℕ
decode_char a b c = (a * 100 + b * 10 + c + 5376 - 48 * 111) % 256

-- What `decode_to_raw_data` leaves behind: the bytes stored from the block's start, the size of
-- the block and the index at which the terminator is written.
pub record Decoded : Type 0 where
  pub cells : Bytes
  pub size : ℕ
  pub terminator : ℕ

-- The loop from index `i`. With two bytes left the third that it reads is the terminator; with
-- one left it reads behind the terminator, which is undefined (`none`).
unfoldable pub decode_loop : Bytes → ℕ → Bytes → Option (Bytes × ℕ)
unfolding decode_char
decode_loop [] i result = some (result, i)
decode_loop (a ∷ []) i result = none
decode_loop (a ∷ b ∷ []) i result = some (result ++ decode_char a b 0 ∷ [], i + 3)
decode_loop (a ∷ b ∷ c ∷ rest) i result =
    decode_loop rest (i + 3) (result ++ decode_char a b c ∷ [])

unfoldable pub finish_decode : ℕ → Option (Bytes × ℕ) → Option Decoded
finish_decode len none = none
finish_decode len (some (result, i)) =
    some (record { cells = result; size = len / 3 + 1; terminator = i })

unfoldable pub decode_to_raw_data : Bytes → Option Decoded
unfolding decode_loop finish_decode
decode_to_raw_data bytes = finish_decode (length bytes) (decode_loop bytes 0 [])

-- The terminator falls behind the block, unless the text is empty. `spares` says, for the size of a
-- block and an index, whether a write there changes nothing that is used; else it is a fault.
unfoldable pub terminate : (ℕ → ℕ → Bool) → Decoded → Option Decoded
terminate spares d = if ltb d.terminator d.size || spares d.size d.terminator then some d else none

unfoldable pub decode_in_memory : (ℕ → ℕ → Bool) → Bytes → Option Decoded
unfolding decode_to_raw_data terminate
decode_in_memory spares bytes = decode_to_raw_data bytes >>= terminate spares

-- The bytes that the loop of the writers puts on the descriptor: at most `size`, and none from the
-- first zero byte on. The end of the list is the string's terminator.
unfoldable pub write_one_by_one_without_zero : Bytes → ℕ → Bytes
write_one_by_one_without_zero bytes zero = []
write_one_by_one_without_zero [] (suc size) = []
write_one_by_one_without_zero (c ∷ bytes) (suc size) =
    let rest = write_one_by_one_without_zero bytes size in if c == 0 then [] else c ∷ rest

unfoldable pub write_one_by_one : Bytes → ℕ → Bytes
unfolding write_one_by_one_without_zero
write_one_by_one bytes size = write_one_by_one_without_zero bytes size ++ 0 ∷ []

-- The file system as the program sees it: the contents of the files that can be opened.
abbrev pub FileSystem : Type 0
FileSystem = Bytes → Option Bytes

-- `none` is the null pointer with `errno = ERR_FILE_NOT_OPENED`; else the contents and the length.
unfoldable pub raw_data_from_file : FileSystem → Bytes → Option (Bytes × ℕ)
raw_data_from_file fs path = elim (fs path) [
  | none ↦ none
  | some contents ↦ some (contents, length contents)
]

-- The `do`-`while` loop around `fwrite`: `counts` are the bytes that the calls would accept, and a
-- call accepts no more than it is given. `none` is a loop that the calls given do not end.
unfoldable pub write_loop : List ℕ → Bytes → ℕ → Bytes → Option Bytes
write_loop [] bytes size file = none
write_loop (n ∷ counts) bytes size file =
    let k = min n size in
    let file' = file ++ take k bytes in
    let rest = write_loop counts (drop k bytes) (size - k) file' in
    if ltb 0 (size - k) then rest else some file'

-- The contents of the file after `file_from_raw_data` on a file that could be opened for writing.
unfoldable pub file_from_raw_data : List ℕ → Bytes → ℕ → Option Bytes
unfolding write_loop
file_from_raw_data counts bytes size = write_loop counts bytes size []
