-- ===== src/FileUtils/Examples.antt =====
-- Runs of the encoding and of the writers on small inputs.
use itba_os_tp1_ipc_2016_q.Base.{
  ◌≤◌, ◌≡◌, refl, arith, [], ◌∷◌, none, some, Bytes, codes, length, Lacks, ltb, ◌>>=◌,
}
use itba_os_tp1_ipc_2016_q.FileUtils.{
  encode_raw_data, decode_to_raw_data, decode_in_memory, write_one_by_one_without_zero,
  write_one_by_one, FileSystem, raw_data_from_file, file_from_raw_data,
}
use itba_os_tp1_ipc_2016_q.FileUtils.RoundTrip.{decode_terminator_outside}
use itba_os_tp1_ipc_2016_q.FileUtils.Writers.{write-Lacks, stored_file}

abbrev photo : Bytes
photo = 0 ∷ 255 ∷ 10 ∷ []

photo_text : encode_raw_data photo ≡ codes "000255010"
unfolding encode_raw_data
photo_text = refl

-- Text whose length is 2 modulo 3 is read up to its terminator.
odd_text :
    decode_to_raw_data (codes "06500")
    ≡ some (record { cells = 65 ∷ 208 ∷ []; size = 2; terminator = 6 })
unfolding decode_to_raw_data
odd_text = refl

short_text : decode_to_raw_data (codes "0651") ≡ none
unfolding decode_to_raw_data
short_text = refl

terminated : write_one_by_one (codes "abc") 2 ≡ 97 ∷ 98 ∷ 0 ∷ []
unfolding write_one_by_one
terminated = refl

decode_terminator_outside_example : 3 ≤ 6
unfolding decode_to_raw_data
decode_terminator_outside_example =
    decode_terminator_outside (codes "065066")
      (record { cells = 65 ∷ 66 ∷ []; size = 3; terminator = 6 }) (λ e. cc) refl

write-Lacks_example :
    Lacks 0 (write_one_by_one_without_zero (65 ∷ 0 ∷ []) 2)
    × (length (write_one_by_one_without_zero (65 ∷ 0 ∷ []) 2) ≤ 2)
write-Lacks_example = write-Lacks (65 ∷ 0 ∷ []) 2

abbrev disk : FileSystem
disk path = some photo

stored_file_example :
    (decode_in_memory (λ size i. ltb i 24) (encode_raw_data photo) >>= λ d.
    file_from_raw_data (1 ∷ 1 ∷ 2 ∷ 5 ∷ []) d.cells 3)
    ≡ some photo
unfolding raw_data_from_file
stored_file_example =
    stored_file disk (codes "./icon.gif") photo 3 (1 ∷ 1 ∷ 2 ∷ 5 ∷ []) (λ size i. ltb i 24) refl
      (omega arith) (omega arith) (omega arith) refl
