-- ===== src/Handshake/Steps.antt =====
-- Every step of connection_open and comm_accept from a joint state of the handshake.
use itba_os_tp1_ipc_2016_q.Base.{
  ℕ, zero, suc, ◌+◌, ◌≤◌, ◌≡◌, refl, ◌∙◌, ap, arith, Bool, true, false, [], ◌∷◌, ◌++◌, some, Bytes,
  ltb, if◌then◌else◌, length, str_eq_refl, Lacks,
}
use mathlib.Core.Option.{map}
use itba_os_tp1_ipc_2016_q.FileUtils.{write_one_by_one, write_one_by_one_without_zero}
use itba_os_tp1_ipc_2016_q.Address.{Addr}
use itba_os_tp1_ipc_2016_q.Client.Commands.{is_ok}
use itba_os_tp1_ipc_2016_q.Handshake.{
  Handshake, pair_name, connection_name, exists, read_zero, read_at_most, can_make, can_open,
  client_at, server_at, fail_server, make_fifo, open_answer, open_ok,
}
use itba_os_tp1_ipc_2016_q.Handshake.Joint.{
  Joint, at_00, at_10, at_20, at_30, at_21, at_31, at_40, at_41, at_42, at_43, at_53, at_44, at_54,
  at_45, at_55, at_65, at_75, at_66, at_76, at_85, at_86, at_87, client_of, server_of, client_next,
  server_next, Fair, fifos_at, state_of,
}

without_zero :
    (text : Bytes) (n : ℕ)
    → Lacks 0 text
    → length text ≤ n
    → write_one_by_one_without_zero text n ≡ text
unfolding write_one_by_one_without_zero
without_zero [] zero h e = refl
without_zero [] (suc n) h e = refl
without_zero (c ∷ text) zero h e = absurd (omega arith)
without_zero (c ∷ text) (suc n) h e = ground (arith, h.0, without_zero text n h.1 (omega arith))

-- What is written one by one is the text and a zero.
written :
    (text : Bytes) (n : ℕ)
    → Lacks 0 text
    → length text ≤ n
    → write_one_by_one text n ≡ text ++ 0 ∷ []
unfolding write_one_by_one
written text n h e = ap (λ l. l ++ 0 ∷ []) (without_zero text n h e)

read_zero-text : (text : Bytes) → Lacks 0 text → read_zero (text ++ 0 ∷ []) ≡ some text
unfolding read_zero
read_zero-text [] h = refl
read_zero-text (c ∷ text) h = ground (arith, h.0, read_zero-text text h.1)

read_at_most-text :
    (n : ℕ) (text : Bytes)
    → Lacks 0 text
    → length text ≤ n
    → read_at_most n (text ++ 0 ∷ []) ≡ some text
unfolding read_at_most
read_at_most-text zero [] h e = refl
read_at_most-text (suc n) [] h e = refl
read_at_most-text zero (c ∷ text) h e = absurd (omega arith)
read_at_most-text (suc n) (c ∷ text) h e =
    ground (arith, h.0, read_at_most-text n text h.1 (omega arith))

module _ (cli srv url : Bytes) (denied : Bytes → Bool) (blank addr : Addr) (s : Handshake)
    (f : Fair cli srv url denied blank addr s.fifos) where
  abbrev of : Joint → Handshake
  of j = state_of cli srv url addr s j

  connection_opens :
      (r q : Bool)
      → can_open cli srv url true denied blank
          (connection_name srv)
          (fifos_at cli srv url addr s r q)
        ≡ true
  unfolding can_open
  connection_opens true true = ground (arith, f.listens, f.allows_connection)
  connection_opens true false = ground (arith, f.listens, f.allows_connection)
  connection_opens false true = ground (arith, f.listens, f.allows_connection)
  connection_opens false false = ground (arith, f.listens, f.allows_connection)

  response_opens :
      (q : Bool)
      → can_open cli srv url true denied blank
          (pair_name srv cli)
          (fifos_at cli srv url addr s true q)
        ≡ true
  unfolding can_open
  response_opens true = ground (arith, f.allows_response, str_eq_refl (pair_name srv cli))
  response_opens false = ground (arith, f.allows_response, str_eq_refl (pair_name srv cli))

  request_opens :
      (r : Bool)
      → can_open cli srv url true denied blank
          (pair_name cli srv)
          (fifos_at cli srv url addr s r true)
        ≡ true
  unfolding can_open
  request_opens true = ground (arith, f.allows_request, str_eq_refl (pair_name cli srv))
  request_opens false = ground (arith, f.allows_request, str_eq_refl (pair_name cli srv))

  response_made : can_make cli srv url true denied blank (pair_name srv cli) s.fifos ≡ true
  unfolding can_make
  response_made = ground (arith, f.allows_response, f.no_response)

  request_made :
      can_make cli srv url true denied blank (pair_name cli srv) (pair_name srv cli ∷ s.fifos)
      ≡ true
  unfolding can_make
  request_made = ground (arith, f.allows_request, f.no_request, f.different)

  connection_there : exists (connection_name srv) (pair_name srv cli ∷ s.fifos) ≡ true
  connection_there = ground (arith, f.listens)

  ack_read : read_at_most (length url) (write_one_by_one url (length url + 2)) ≡ some url
  ack_read =
      ap (λ t. read_at_most (length url) t) (written url (length url + 2) f.no_zero (omega arith))
      ∙ read_at_most-text (length url) url f.no_zero (omega arith)

  ok_read : read_at_most (length url + 1) (write_one_by_one url (length url + 1)) ≡ some url
  ok_read =
      ap (λ t. read_at_most (length url + 1) t)
        (written url (length url + 1) f.no_zero (omega arith))
      ∙ read_at_most-text (length url + 1) url f.no_zero (omega arith)

  url_read : read_zero (write_one_by_one url (length url)) ≡ some url
  url_read =
      ap read_zero (written url (length url) f.no_zero (omega arith)) ∙ read_zero-text url f.no_zero

  fits : ltb (length url) 2048 ≡ true
  fits = ground (arith, f.short)

  pub client_step :
      (j : Joint)
      → client_at cli srv url true denied blank (client_of j) (of j) ≡ map of (client_next j)
  unfolding client_at
  client_step at_00 = rw response_made refl
  client_step at_10 = rw connection_there refl
  client_step at_20 = rw (connection_opens true false) refl
  client_step at_30 = refl
  client_step at_21 = rw (connection_opens true false) refl
  client_step at_31 = refl
  client_step at_40 = rw (response_opens false) refl
  client_step at_41 = rw (response_opens false) refl
  client_step at_42 = rw (response_opens false) refl
  client_step at_43 = rw (response_opens true) refl
  client_step at_53 = refl
  client_step at_44 = rw (response_opens true) refl
  client_step at_54 = refl
  client_step at_45 = rw (response_opens true) refl
  client_step at_55 = rw (ack_read, str_eq_refl url) refl
  client_step at_65 = rw (request_opens true) refl
  client_step at_75 = refl
  client_step at_66 = rw (request_opens true) refl
  client_step at_76 = refl
  client_step at_85 = refl
  client_step at_86 = refl
  client_step at_87 = refl

  pub server_step :
      (j : Joint)
      → server_at cli srv url true denied blank (server_of j) (of j) ≡ map of (server_next j)
  unfolding server_at make_fifo open_answer open_ok
  server_step at_00 = rw (connection_opens false false) refl
  server_step at_10 = rw (connection_opens true false) refl
  server_step at_20 = rw (connection_opens true false) refl
  server_step at_30 = rw (connection_opens true false) refl
  server_step at_21 = refl
  server_step at_31 = refl
  server_step at_40 = rw (connection_opens true false) refl
  server_step at_41 = rw (url_read, fits) refl
  server_step at_42 =
      ap
        (λ r.
          if is_ok r.0
          then make_fifo cli srv url true denied blank r.1.host
              (record (of at_42) { client_aux = r.1 })
          else fail_server 3002 (record (of at_42) { client_aux = r.1 }))
        f.takes
      ∙ ap
          (λ h. make_fifo cli srv url true denied blank h (record (of at_42) { client_aux = addr }))
          f.host
      ∙ rw request_made refl
  server_step at_43 =
      ap (λ h. open_answer cli srv url true denied blank h (of at_43)) f.host
      ∙ rw (response_opens true) refl
  server_step at_53 =
      ap (λ h. open_answer cli srv url true denied blank h (of at_53)) f.host
      ∙ rw (response_opens true) refl
  server_step at_44 = refl
  server_step at_54 = refl
  server_step at_45 =
      ap (λ h. open_ok cli srv url true denied blank h (of at_45)) f.host
      ∙ rw (request_opens true) refl
  server_step at_55 =
      ap (λ h. open_ok cli srv url true denied blank h (of at_55)) f.host
      ∙ rw (request_opens true) refl
  server_step at_65 =
      ap (λ h. open_ok cli srv url true denied blank h (of at_65)) f.host
      ∙ rw (request_opens true) refl
  server_step at_75 =
      ap (λ h. open_ok cli srv url true denied blank h (of at_75)) f.host
      ∙ rw (request_opens true) refl
  server_step at_66 = refl
  server_step at_76 = refl
  server_step at_85 =
      ap (λ h. open_ok cli srv url true denied blank h (of at_85)) f.host
      ∙ rw (request_opens true) refl
  server_step at_86 = rw (ok_read, str_eq_refl url, f.takes) refl
  server_step at_87 = refl
