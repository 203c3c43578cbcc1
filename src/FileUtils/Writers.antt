-- ===== src/FileUtils/Writers.antt =====
-- The byte-wise writers and the loop around `fwrite`: what reaches the descriptor or the file.
use itba_os_tp1_ipc_2016_q.Base.{
  ℕ, Bool, ◌>>=◌, zero, suc, ◌-◌, ◌≤◌, ◌<◌, ◌≡◌, refl, ◌∙◌, ap, arith, Bool-cases, inl, inr, List,
  [], ◌∷◌, ◌++◌, Option, none, some, Bytes, length, take, drop, min, All, Lacks, append_assoc, ltb,
}
use itba_os_tp1_ipc_2016_q.FileUtils.{
  encode_raw_data, decode_in_memory, write_one_by_one_without_zero, FileSystem, raw_data_from_file,
  write_loop, file_from_raw_data,
}
use itba_os_tp1_ipc_2016_q.FileUtils.RoundTrip.{IsByte, Spared, decode_in_memory-encode}

-- Text without a zero byte is written up to the given size.
pub write-take : (s : Bytes) (n : ℕ) → Lacks 0 s → write_one_by_one_without_zero s n ≡ take n s
unfolding write_one_by_one_without_zero
write-take s zero h = refl
write-take [] (suc n) h = refl
write-take (c ∷ s) (suc n) (hc, hs) = ground (arith, write-take s n hs)

pub take_all : (s : Bytes) → take (length s) s ≡ s
take_all [] = refl
take_all (c ∷ s) = ap (λ t. c ∷ t) (take_all s)

-- A C string is written whole when its `strlen` is given as the size.
pub write_string : (s : Bytes) → Lacks 0 s → write_one_by_one_without_zero s (length s) ≡ s
write_string s h = write-take s (length s) h ∙ take_all s

-- Whatever the buffer and the size, `write_one_by_one_without_zero` puts no zero byte on the
-- descriptor and at most `size` bytes.
pub write-Lacks :
    (s : Bytes) (n : ℕ)
    → Lacks 0 (write_one_by_one_without_zero s n) × (length (write_one_by_one_without_zero s n) ≤ n)
unfolding write_one_by_one_without_zero
write-Lacks s zero = (tt, omega arith)
write-Lacks [] (suc n) = (tt, omega arith)
write-Lacks (c ∷ s) (suc n) = ground (arith, write-Lacks s n)

take-nil : (n : ℕ) → take {A = ℕ} n [] ≡ []
take-nil zero = refl
take-nil (suc n) = refl

-- One call that accepts `k` of `n` bytes, and the rest.
take-split : (k n : ℕ) (s : Bytes) → k ≤ n → take k s ++ take (n - k) (drop k s) ≡ take n s
take-split zero n s h = let e : n - 0 ≡ n = omega arith in rw e
take-split (suc k) zero s h = absurd (omega arith)
take-split (suc k) (suc n) [] h = take-nil (suc n - suc k)
take-split (suc k) (suc n) (c ∷ s) h =
    let e : suc n - suc k ≡ n - k = omega arith in
    rw e (ap (λ t. c ∷ t) (take-split k n s (omega arith)))

-- The loop ends once the calls have accepted all, if each of them accepts something.
write_loop-take :
    (counts : List ℕ) (s : Bytes) (size : ℕ) (file : Bytes)
    → All (λ n. 0 < n) counts
    → size ≤ length counts
    → 0 < length counts
    → write_loop counts s size file ≡ some (file ++ take size s)
unfolding write_loop
write_loop-take [] s size file p m ne = absurd (omega arith)
write_loop-take (n ∷ counts) s size file (pn, ps) m ne =
    elim (Bool-cases (ltb 0 (size - min n size))) [
      | inl more ↦
          let lt : n < size = ground arith in
          let e : min n size ≡ n = omega arith in
          let m' : size - min n size ≤ length counts = omega arith in
          let ne' : 0 < length counts = omega arith in
          rw more (
            write_loop-take counts (drop (min n size) s) (size - min n size)
              (file ++ take (min n size) s) ps m' ne'
            ∙ ap some (
                append_assoc file (take (min n size) s)
                  (take (size - min n size) (drop (min n size) s))
                ∙ ap (λ t. file ++ t) (take-split (min n size) size s (omega arith))))
      | inr done ↦ let e : min n size ≡ size = ground arith in rw done (rw e)
    ]

-- `file_from_raw_data` writes the first `size` bytes of its data, however many bytes each `fwrite`
-- accepts, as long as each accepts at least one; `size` calls are then enough (one, for no data).
pub file-take :
    (counts : List ℕ) (s : Bytes) (size : ℕ)
    → All (λ n. 0 < n) counts
    → size ≤ length counts
    → 0 < length counts
    → file_from_raw_data counts s size ≡ some (take size s)
unfolding file_from_raw_data
file-take counts s size p m ne = write_loop-take counts s size [] p m ne

raw_data-length :
    (fs : FileSystem) (path : Bytes) (o : Option Bytes) {s : Bytes} {n : ℕ}
    → fs path ≡ o
    → raw_data_from_file fs path ≡ some (s, n)
    → n ≡ length s
unfolding raw_data_from_file
raw_data-length fs path none e h = ground arith
raw_data-length fs path (some c) e h = ground arith

-- The server gets back the contents of a file that the client has read and encoded, when the encoded
-- text reaches it whole: it decodes the text and writes as many bytes as the client has read, in any
-- number of `fwrite` calls that accept at least a byte each, and the file that it wrote is the one that
-- was read. It is assumed that the terminator that the decoder writes at index 3 * n behind its block
-- of n + 1 bytes, for a file of n bytes, changes nothing that is used.
pub stored_file :
    (fs : FileSystem) (path : Bytes) (s : Bytes) (n : ℕ) (counts : List ℕ) (spares : ℕ → ℕ → Bool)
    → raw_data_from_file fs path ≡ some (s, n)
    → All IsByte s
    → All (λ k. 0 < k) counts
    → n < length counts
    → Spared spares s
    → (decode_in_memory spares (encode_raw_data s) >>= λ d. file_from_raw_data counts d.cells n)
      ≡ some s
stored_file fs path s n counts spares r bytes p m sp =
    let e : n ≡ length s = raw_data-length fs path (fs path) refl r in
    rw (decode_in_memory-encode spares s bytes sp)
      (file-take counts s n p (omega arith) (omega arith) ∙ ap some (rw e (take_all s)))
