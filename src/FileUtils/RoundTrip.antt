-- ===== src/FileUtils/RoundTrip.antt =====
-- `encode_raw_data` and `decode_to_raw_data`: the round trip, the shape of the encoding, and where
-- the terminator of a decoded block is written.
use mathlib.Core.List.{flat_map}
use itba_os_tp1_ipc_2016_q.Base.{
  ℕ, Bool, true, ltb, ◌||◌, ◌+◌, ◌*◌, ◌/◌, ◌%◌, ◌≤◌, ◌<◌, ◌≡◌, refl, ◌≢◌, ◌∙◌, sym, arith, [], ◌∷◌,
  ◌++◌, Option, some, none, Bytes, length, append_assoc, append-nil, All, All-append,
}
use itba_os_tp1_ipc_2016_q.FileUtils.{
  print03, encode_loop, encode_raw_data, decode_char, Decoded, decode_loop, finish_decode,
  decode_to_raw_data, terminate, decode_in_memory,
}

-- A byte as `unsigned char` holds it.
abbrev pub IsByte : ℕ → Type 0
IsByte c = c < 256

abbrev pub IsDigit : ℕ → Type 0
IsDigit c = (b'0' ≤ c) × (c ≤ b'9')

encode_loop-flat_map : (s out : Bytes) → encode_loop s out ≡ out ++ flat_map print03 s
unfolding encode_loop flat_map
encode_loop-flat_map [] out = sym (append-nil out)
encode_loop-flat_map (c ∷ s) out =
    encode_loop-flat_map s (out ++ print03 c) ∙ append_assoc out (print03 c) (flat_map print03 s)

pub encode-flat_map : (s : Bytes) → encode_raw_data s ≡ flat_map print03 s
unfolding encode_raw_data
encode-flat_map s = encode_loop-flat_map s []

decode_char-print :
    (c : ℕ) → IsByte c → decode_char (b'0' + c / 100) (b'0' + c / 10 % 10) (b'0' + c % 10) ≡ c
unfolding decode_char
decode_char-print c h = omega arith

decode_loop-print03 :
    (c : ℕ) (rest : Bytes) (i : ℕ) (out : Bytes)
    → IsByte c
    → decode_loop (print03 c ++ rest) i out ≡ decode_loop rest (i + 3) (out ++ c ∷ [])
unfolding print03 decode_loop
decode_loop-print03 c rest i out h = rw (decode_char-print c h)

decode_loop-flat_map :
    (s : Bytes) (i : ℕ) (out : Bytes)
    → All IsByte s
    → decode_loop (flat_map print03 s) i out ≡ some (out ++ s, i + 3 * length s)
unfolding flat_map
decode_loop-flat_map [] i out h = unfold decode_loop in ground (arith, append-nil out)
decode_loop-flat_map (c ∷ s) i out (hc, hs) =
    rw (decode_loop-print03 c (flat_map print03 s) i out hc) (
      ground
        (arith, decode_loop-flat_map s (i + 3) (out ++ c ∷ []) hs, append_assoc out (c ∷ []) s))

length-flat_map : (s : Bytes) → length (flat_map print03 s) ≡ 3 * length s
unfolding flat_map print03
length-flat_map [] = omega arith
length-flat_map (c ∷ s) = omega (arith, length-flat_map s)

-- The encoding of n bytes has 3 * n characters, so that it and its terminator fit the 3 * n + 2
-- bytes of the output block.
pub length-encode : (s : Bytes) → length (encode_raw_data s) ≡ 3 * length s
length-encode s = rw encode-flat_map (length-flat_map s)

flat_map-IsDigit : (s : Bytes) → All IsByte s → All IsDigit (flat_map print03 s)
unfolding flat_map
flat_map-IsDigit [] h = tt
flat_map-IsDigit (c ∷ s) (hc, hs) =
    All-append IsDigit (print03 c) (flat_map print03 s) (unfold print03 in omega arith)
      (flat_map-IsDigit s hs)

-- Decoding the encoding of any file contents gives every byte back, in a block of one byte more
-- than the contents; the terminator is written at index 3 * n, for n bytes of contents.
pub decode-encode :
    (s : Bytes)
    → All IsByte s
    → decode_to_raw_data (encode_raw_data s)
      ≡ some (record { cells = s; size = length s + 1; terminator = 3 * length s })
unfolding decode_to_raw_data finish_decode
decode-encode s h =
    rw (length-encode s) (rw encode-flat_map (rw (decode_loop-flat_map s 0 [] h) (ground arith)))

-- The encoding of any file contents consists of decimal digits only, three for each byte.
pub encode-IsDigit :
    (s : Bytes)
    → All IsByte s
    → All IsDigit (encode_raw_data s) × (length (encode_raw_data s) ≡ 3 * length s)
encode-IsDigit s h = (rw encode-flat_map (flat_map-IsDigit s h), length-encode s)

decode_loop-index :
    (s : Bytes) (i : ℕ) (out r : Bytes) (j : ℕ)
    → decode_loop s i out ≡ some (r, j)
    → i + length s ≤ j
unfolding decode_loop
decode_loop-index [] i out r j h = ground arith
decode_loop-index (a ∷ []) i out r j h = cc
decode_loop-index (a ∷ b ∷ []) i out r j h = ground arith
decode_loop-index (a ∷ b ∷ c ∷ rest) i out r j h =
    omega (arith, decode_loop-index rest (i + 3) (out ++ decode_char a b c ∷ []) r j h)

finish_decode-some :
    (len : ℕ) (r : Bytes) (j : ℕ) (d : Decoded)
    → finish_decode len (some (r, j)) ≡ some d
    → (d.size ≡ len / 3 + 1) × (d.terminator ≡ j)
unfolding finish_decode
finish_decode-some len r j d h = ground arith

decode_index :
    (s : Bytes) (o : Option (Bytes × ℕ)) (d : Decoded)
    → decode_loop s 0 [] ≡ o
    → finish_decode (length s) o ≡ some d
    → (d.size ≡ length s / 3 + 1) × (length s ≤ d.terminator)
decode_index s none d e h = unfold finish_decode in cc
decode_index s (some (r, j)) d e h =
    omega (arith, finish_decode-some (length s) r j d h, decode_loop-index s 0 [] r j e)

-- Whatever non-empty text is decoded, the terminator is written outside of the block that was
-- allocated for the result.
pub decode_terminator_outside :
    (s : Bytes) (d : Decoded) → s ≢ [] → decode_to_raw_data s ≡ some d → d.size ≤ d.terminator
unfolding decode_to_raw_data
decode_terminator_outside [] d ne h = absurd (ne refl)
decode_terminator_outside (c ∷ s) d ne h =
    omega (arith, decode_index (c ∷ s) (decode_loop (c ∷ s) 0 []) d refl h)

-- The terminator of the block that is decoded for these bytes stays in the block, or what it falls on
-- is spared.
abbrev pub Spared : (ℕ → ℕ → Bool) → Bytes → Type 0
Spared spares bytes =
    (ltb (3 * length bytes) (length bytes + 1) || spares (length bytes + 1) (3 * length bytes))
    ≡ true

pub decode_in_memory-encode :
    (spares : ℕ → ℕ → Bool) (s : Bytes)
    → All IsByte s
    → Spared spares s
    → decode_in_memory spares (encode_raw_data s)
      ≡ some (record { cells = s; size = length s + 1; terminator = 3 * length s })
unfolding decode_in_memory terminate
decode_in_memory-encode spares s h sp = rw (decode-encode s h) (rw sp refl)
