-- ===== src/Server/Transfer.antt =====
-- process_post_cmd and then process_get_cmd of server/responder.c on one file.
use itba_os_tp1_ipc_2016_q.Base.{
  ℕ, ◌≡◌, ◌<◌, refl, ◌∙◌, ap, arith, Bool, true, List, [], ◌∷◌, ◌++◌, append_assoc, Option, none,
  some, Bytes, codes, ◌>>=◌, length, All, str_eq_refl,
}
use itba_os_tp1_ipc_2016_q.FileUtils.{encode_raw_data, raw_data_from_file, file_from_raw_data}
use itba_os_tp1_ipc_2016_q.FileUtils.RoundTrip.{IsByte, Spared, decode_in_memory-encode}
use itba_os_tp1_ipc_2016_q.FileUtils.Writers.{file-take, take_all}
use itba_os_tp1_ipc_2016_q.Json.{Json}
use itba_os_tp1_ipc_2016_q.Serialization.Commands.{Message, CommandGet, CommandPost}
use itba_os_tp1_ipc_2016_q.Serialization.Parse.{Parsed}
use itba_os_tp1_ipc_2016_q.Sql.Process.{Row, Pipes}
use itba_os_tp1_ipc_2016_q.Sql.Helpers.{FsUser, ask_for_file_to_db, insert_alias_in_db}
use itba_os_tp1_ipc_2016_q.Server.{
  CommError, Status, status_ok, status_down, Server, store, send, with_err, check_user_logged,
  write_file, store_file, post_file, get_file, process_get_cmd, process_post_cmd, dispatch,
  post_status, finish, server_responder,
}

-- The file of a user behind an alias.
abbrev pub file_path : FsUser → Bytes → Bytes
file_path user dest = codes "." ++ (user.home ++ (codes "/" ++ dest))

-- An upload of these bytes.
abbrev pub upload : Bytes → Bytes → CommandPost
upload dest bytes = record { contents = encode_raw_data bytes; dest = dest; size = length bytes }

module _ (json : Json) {Database : Type 0} (exec : Database → Bytes → List Row × Database)
    (opens : Bytes → Bool) (accepts : List ℕ) (spares : ℕ → ℕ → Bool)
    (twice : json.Double → json.Double) (fifo : Bool) where
  write-upload :
      (path bytes : Bytes) (s : Server json Database)
      → opens path ≡ true
      → All (λ k. 0 < k) accepts
      → length bytes < length accepts
      → write_file json exec opens accepts spares twice fifo path bytes (length bytes) s
        ≡ some (record s { files = store s.files path bytes })
  unfolding write_file
  write-upload path bytes s o k lt =
      let w : file_from_raw_data accepts bytes (length bytes) ≡ some bytes =
        file-take accepts bytes (length bytes) k (omega arith) (omega arith)
        ∙ ap some (take_all bytes) in
      rw (o, w) refl

  store-upload :
      (dest bytes : Bytes) (user : FsUser) (s : Server json Database)
      → All IsByte bytes
      → opens (file_path user dest) ≡ true
      → All (λ k. 0 < k) accepts
      → length bytes < length accepts
      → Spared spares bytes
      → store_file json exec opens accepts spares twice fifo (upload dest bytes) user s
        ≡ some (record s { files = store s.files (file_path user dest) bytes })
  unfolding store_file
  store-upload dest bytes user s b o k lt sp =
      rw (decode_in_memory-encode spares bytes b sp)
        (ground (arith, write-upload (file_path user dest) bytes s o k lt))

  dispatch-post :
      (dest bytes : Bytes) (user : FsUser) (s : Server json Database) (p₁ p₂ : Pipes Database)
      (done : Bool)
      → s.user ≡ some user
      → ask_for_file_to_db exec dest user s.pipes ≡ some (none, p₁)
      → insert_alias_in_db exec dest user p₁ ≡ some (done, p₂)
      → All IsByte bytes
      → opens (file_path user dest) ≡ true
      → All (λ k. 0 < k) accepts
      → length bytes < length accepts
      → Spared spares bytes
      → dispatch json exec opens accepts spares twice fifo (Parsed.post_cmd (upload dest bytes)) s
        ≡ some (
            send fifo (Message.raw (codes "File OK") 7) (
              with_err 0
                (codes "OK")
                (record s { pipes = p₂; files = store s.files (file_path user dest) bytes })))
  unfolding dispatch process_post_cmd check_user_logged post_file
  dispatch-post dest bytes user s p₁ p₂ done e a i b o k lt sp =
      let w = store-upload dest bytes user (record s { pipes = p₂ }) b o k lt sp in
      ground (arith, e, a, i, w)

  dispatch-get :
      (cmd : CommandGet) (user : FsUser) (path bytes : Bytes) (s : Server json Database)
      (p₁ : Pipes Database)
      → s.user ≡ some user
      → ask_for_file_to_db exec cmd.path user s.pipes ≡ some (some path, p₁)
      → s.files (codes "." ++ path) ≡ some bytes
      → dispatch json exec opens accepts spares twice fifo (Parsed.get_cmd cmd) s
        ≡ some (
            with_err 0 (codes "OK") (
              send fifo
                (Message.raw (encode_raw_data bytes) (length bytes))
                (record s { pipes = p₁ })))
  unfolding dispatch process_get_cmd check_user_logged get_file raw_data_from_file
  dispatch-get cmd user path bytes s p₁ e a f = ground (arith, e, a, f)

  abbrev respond : CommError → Parsed json → Server json Database → Option (Server json Database)
  respond = server_responder json exec opens accepts spares twice fifo

  -- The worker after a request that succeeded.
  abbrev pub served :
      List (Message json) → List Status → Server json Database → Server json Database
  served messages statuses s = record s {
    sent = s.sent ++ messages;
    err = record { code = 0; msg = codes "OK" };
    statuses = s.statuses ++ statuses;
  }

  finish-served :
      (fresh : CommError) (m : Message json) (s : Server json Database)
      → finish
          (send fifo m (with_err 0 (codes "OK") (post_status status_ok (record s { err = fresh }))))
        ≡ served (m ∷ []) (status_ok ∷ status_down ∷ []) s
  unfolding finish send with_err post_status
  finish-served fresh m s =
      ground (arith, append_assoc s.statuses (status_ok ∷ []) (status_down ∷ []))

  respond-post :
      (fresh : CommError) (dest bytes : Bytes) (user : FsUser) (s : Server json Database)
      (p₁ p₂ : Pipes Database) (done : Bool)
      → s.user ≡ some user
      → ask_for_file_to_db exec dest user s.pipes ≡ some (none, p₁)
      → insert_alias_in_db exec dest user p₁ ≡ some (done, p₂)
      → All IsByte bytes
      → opens (file_path user dest) ≡ true
      → All (λ k. 0 < k) accepts
      → length bytes < length accepts
      → Spared spares bytes
      → respond fresh (Parsed.post_cmd (upload dest bytes)) s
        ≡ some (
            served
              (Message.raw (codes "File OK") 7 ∷ [])
              (status_ok ∷ status_down ∷ [])
              (record s { pipes = p₂; files = store s.files (file_path user dest) bytes }))
  unfolding server_responder post_status
  respond-post fresh dest bytes user s p₁ p₂ done e a i b o k lt sp =
      let d =
        dispatch-post dest bytes user (post_status status_ok (record s { err = fresh })) p₁ p₂ done
          e a i b o k lt sp in
      ground (
        arith,
        d,
        finish-served fresh (Message.raw (codes "File OK") 7)
            (record s { pipes = p₂; files = store s.files (file_path user dest) bytes }),
      )

  respond-get :
      (fresh : CommError) (cmd : CommandGet) (user : FsUser) (path bytes : Bytes)
      (s : Server json Database) (p₁ : Pipes Database)
      → s.user ≡ some user
      → ask_for_file_to_db exec cmd.path user s.pipes ≡ some (some path, p₁)
      → s.files (codes "." ++ path) ≡ some bytes
      → respond fresh (Parsed.get_cmd cmd) s
        ≡ some (
            served
              (Message.raw (encode_raw_data bytes) (length bytes) ∷ [])
              (status_ok ∷ status_down ∷ [])
              (record s { pipes = p₁ }))
  unfolding server_responder post_status send with_err finish
  respond-get fresh cmd user path bytes s p₁ e a f =
      let d =
        dispatch-get cmd user path bytes (post_status status_ok (record s { err = fresh })) p₁ e a
          f in
      ground (arith, d, append_assoc s.statuses (status_ok ∷ []) (status_down ∷ []))

  -- A user who stores a file under a new alias and asks for it gets the same file back: the server
  -- answers `File OK`, and then the encoding of the bytes that were stored, with their number. Over
  -- FIFOs and sockets. It is assumed that the database has no path for the alias before, that it then
  -- has the one that was inserted, that the file can be opened and takes at least a byte with each
  -- call of `fwrite`, and that the terminator that the decoder writes at index 3 * n behind its block of
  -- n + 1 bytes, for a file of n bytes, changes nothing that is used.
  pub post-get :
      (f g : CommError) (dest bytes : Bytes) (user : FsUser) (s : Server json Database)
      (p₁ p₂ p₃ : Pipes Database) (done : Bool)
      → s.user ≡ some user
      → ask_for_file_to_db exec dest user s.pipes ≡ some (none, p₁)
      → insert_alias_in_db exec dest user p₁ ≡ some (done, p₂)
      → ask_for_file_to_db exec dest user p₂ ≡ some (some (user.home ++ (codes "/" ++ dest)), p₃)
      → All IsByte bytes
      → opens (file_path user dest) ≡ true
      → All (λ k. 0 < k) accepts
      → length bytes < length accepts
      → Spared spares bytes
      → (respond f (Parsed.post_cmd (upload dest bytes)) s >>= λ t.
          respond g (Parsed.get_cmd (record { path = dest })) t)
        ≡ some (
            served
              (Message.raw (codes "File OK") 7
                ∷ Message.raw (encode_raw_data bytes) (length bytes)
                ∷ [])
              (status_ok ∷ status_down ∷ status_ok ∷ status_down ∷ [])
              (record s { pipes = p₃; files = store s.files (file_path user dest) bytes }))
  post-get f g dest bytes user s p₁ p₂ p₃ done e a i a' b o k lt sp =
      let stored = record s { pipes = p₂; files = store s.files (file_path user dest) bytes } in
      let file : store s.files (file_path user dest) bytes (file_path user dest) ≡ some bytes =
        rw (str_eq_refl (file_path user dest)) refl in
      let t = served (Message.raw (codes "File OK") 7 ∷ []) (status_ok ∷ status_down ∷ []) stored in
      let second = respond-get g (record { path = dest }) user _ bytes t p₃ e a' file in
      rw (respond-post f dest bytes user s p₁ p₂ done e a i b o k lt sp) (
        second
        ∙ ground (
          arith,
          append_assoc s.statuses (status_ok ∷ status_down ∷ []) (status_ok ∷ status_down ∷ []),
          append_assoc s.sent (Message.raw (codes "File OK") 7 ∷ [])
              (Message.raw (encode_raw_data bytes) (length bytes) ∷ []),
        ))
