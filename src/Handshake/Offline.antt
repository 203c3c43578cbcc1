-- ===== src/Handshake/Offline.antt =====
-- connection_open of lib/communication/fifo/comm.connection.fifo.c with no server that listens.
use itba_os_tp1_ipc_2016_q.Base.{
  ◌≡◌, refl, Bool, true, false, ◌∷◌, some, Bytes, str_eq, str_eq_refl,
}
use itba_os_tp1_ipc_2016_q.Address.{Addr}
use itba_os_tp1_ipc_2016_q.Client.{closed}
use itba_os_tp1_ipc_2016_q.Handshake.{
  make_response, look, refused, Handshake, pair_name, connection_name, exists, can_make, client_at,
}

module _ (cli srv url : Bytes) (denied : Bytes → Bool) (blank : Addr) where
  -- A client that finds no server ends with the error 203 and leaves its FIFO behind. Wherever that FIFO
  -- still is, an attempt to open a connection to that server ends with the error 300, whether the server
  -- is there by then or not.
  pub offline :
      (s again : Handshake)
      → denied (pair_name srv cli) ≡ false
      → exists (pair_name srv cli) s.fifos ≡ false
      → exists (connection_name srv) s.fifos ≡ false
      → str_eq (connection_name srv) (pair_name srv cli) ≡ false
      → exists (pair_name srv cli) again.fifos ≡ true
      → (s1 : Handshake) × (s2 : Handshake) × (client_at cli srv url true denied blank make_response
            s
          ≡ some s1)
        × (client_at cli srv url true denied blank look s1 ≡ some s2)
        × (s2.client ≡ refused 203)
        × (exists (pair_name srv cli) s2.fifos ≡ true)
        × (s3 : Handshake) × (client_at cli srv url true denied blank make_response again ≡ some s3)
        × (s3.client ≡ refused 300)
  unfolding client_at can_make
  offline s again d r c e h = (
    record s { client = look; state = closed; fifos = pair_name srv cli ∷ s.fifos },
    record s { client = refused 203; state = closed; fifos = pair_name srv cli ∷ s.fifos },
    rw (d, r) refl,
    rw (e, c) refl,
    refl,
    rw (str_eq_refl (pair_name srv cli)) refl,
    record again { client = refused 300; state = closed },
    rw (d, h) refl,
    refl,
  )
