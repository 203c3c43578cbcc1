-- ===== src/Handshake/Runs.antt =====
-- Whole runs of connection_open and comm_accept, in any order of their steps.
use mathlib.Core.Path.{subst}
use itba_os_tp1_ipc_2016_q.Base.{
  ℕ, suc, ◌<◌, ◌≡◌, refl, ◌∙◌, sym, ap, arith, inl, inr, ◌⊎◌, Bool, true, false, List, [], ◌∷◌,
  Option, none, some, Bytes, str_eq_refl,
}
use mathlib.Core.Option.{map}
use itba_os_tp1_ipc_2016_q.Address.{Addr}
use itba_os_tp1_ipc_2016_q.Client.{open_}
use itba_os_tp1_ipc_2016_q.Handshake.{
  make_response, wait_client, connected, accepted, Handshake, pair_name, exists, unlink, client_at,
  server_at, Step, by_client, by_server, Run, start, later, connection_close,
}
use itba_os_tp1_ipc_2016_q.Handshake.Joint.{
  Joint, at_00, at_10, at_20, at_30, at_21, at_31, at_40, at_41, at_42, at_43, at_53, at_44, at_54,
  at_45, at_55, at_65, at_75, at_66, at_76, at_85, at_86, at_87, client_next, server_next, behind,
  Fair, phase, state_of,
}
use itba_os_tp1_ipc_2016_q.Handshake.Steps.{client_step, server_step}

abbrev Counts : ℕ → Option Joint → Type 0
Counts n none = Unit
Counts n (some j) = behind j ≡ suc n

client-Counts : (j : Joint) → Counts (behind j) (client_next j)
client-Counts at_00 = refl
client-Counts at_10 = refl
client-Counts at_20 = refl
client-Counts at_30 = refl
client-Counts at_21 = refl
client-Counts at_31 = refl
client-Counts at_40 = tt
client-Counts at_41 = tt
client-Counts at_42 = tt
client-Counts at_43 = refl
client-Counts at_53 = tt
client-Counts at_44 = refl
client-Counts at_54 = tt
client-Counts at_45 = refl
client-Counts at_55 = refl
client-Counts at_65 = refl
client-Counts at_75 = refl
client-Counts at_66 = refl
client-Counts at_76 = refl
client-Counts at_85 = tt
client-Counts at_86 = tt
client-Counts at_87 = tt

server-Counts : (j : Joint) → Counts (behind j) (server_next j)
server-Counts at_00 = tt
server-Counts at_10 = tt
server-Counts at_20 = refl
server-Counts at_30 = refl
server-Counts at_21 = tt
server-Counts at_31 = tt
server-Counts at_40 = refl
server-Counts at_41 = refl
server-Counts at_42 = refl
server-Counts at_43 = refl
server-Counts at_53 = refl
server-Counts at_44 = refl
server-Counts at_54 = refl
server-Counts at_45 = tt
server-Counts at_55 = tt
server-Counts at_65 = refl
server-Counts at_75 = refl
server-Counts at_66 = tt
server-Counts at_76 = tt
server-Counts at_85 = refl
server-Counts at_86 = refl
server-Counts at_87 = tt

unlink-absent :
    (name : Bytes) (fifos : List Bytes) → exists name fifos ≡ false → unlink name fifos ≡ fifos
unlink-absent name [] e = refl
unlink-absent name (fifo ∷ fifos) e = ground (arith, unlink-absent name fifos)

-- Both have an open connection, the server has the address of the client, and nothing is left to read.
pub record Connected (addr : Addr) (t : Handshake) : Type 0 where
  pub client_done : t.client ≡ connected
  pub server_done : t.server ≡ accepted
  pub client_open : t.state ≡ open_
  pub server_open : t.server_state ≡ open_
  pub known : t.client_addr ≡ some addr
  pub url_read : t.url_pipe ≡ []
  pub ack_read : t.ack_pipe ≡ []
  pub ok_read : t.ok_pipe ≡ []

module _ (cli srv url : Bytes) (denied : Bytes → Bool) (blank addr : Addr) (s : Handshake)
    (f : Fair cli srv url denied blank addr s.fifos) where
  abbrev of : Joint → Handshake
  of j = state_of cli srv url addr s j

  abbrev Moves : Handshake → Handshake → Type 0
  Moves = Step cli srv url true denied blank

  -- A state of the handshake after so many steps.
  abbrev Known : ℕ → Handshake → Type 0
  Known n t = (j : Joint) × (t ≡ of j) × (behind j ≡ n)

  moved :
      (n : ℕ) (o : Option Joint) (u : Handshake) → Counts n o → map of o ≡ some u → Known (suc n) u
  moved n none u c e = cc
  moved n (some j) u c e = (j, cc, c)

  Step-Known : (n : ℕ) (t u : Handshake) → Known n t → Moves t u → Known (suc n) u
  Step-Known n t u (j, e, b) (by_client c) =
      subst (λ k. Known (suc k) u) b
        (moved (behind j) (client_next j) u (client-Counts j) (
          sym (client_step cli srv url denied blank addr s f j)
          ∙ sym (ap (λ t. client_at cli srv url true denied blank t.client t) e)
          ∙ c))
  Step-Known n t u (j, e, b) (by_server c) =
      subst (λ k. Known (suc k) u) b
        (moved (behind j) (server_next j) u (server-Counts j) (
          sym (server_step cli srv url denied blank addr s f j)
          ∙ sym (ap (λ t. server_at cli srv url true denied blank t.server t) e)
          ∙ c))

  Run-Known :
      (n : ℕ) (a t : Handshake) → a ≡ of at_00 → Run cli srv url true denied blank n a t → Known n t
  Run-Known n a t e (start b) = (at_00, e, refl)
  Run-Known n a u e (later m b t v r q) = Step-Known m t v (Run-Known m b t e r) q

  -- What holds of each joint state: it is the last one, or there is a step.
  abbrev Onward : Joint → Type 0
  Onward j =
      ((j ≡ at_87) × (behind j ≡ 15)) ⊎ ((behind j < 15) × ((u : Handshake) × Moves (of j) u))

  onward : (j : Joint) → Onward j
  onward at_00 =
      inr (omega arith, (of at_10, by_client (client_step cli srv url denied blank addr s f at_00)))
  onward at_10 =
      inr (omega arith, (of at_20, by_client (client_step cli srv url denied blank addr s f at_10)))
  onward at_20 =
      inr (omega arith, (of at_30, by_client (client_step cli srv url denied blank addr s f at_20)))
  onward at_30 =
      inr (omega arith, (of at_40, by_client (client_step cli srv url denied blank addr s f at_30)))
  onward at_21 =
      inr (omega arith, (of at_31, by_client (client_step cli srv url denied blank addr s f at_21)))
  onward at_31 =
      inr (omega arith, (of at_41, by_client (client_step cli srv url denied blank addr s f at_31)))
  onward at_40 =
      inr (omega arith, (of at_41, by_server (server_step cli srv url denied blank addr s f at_40)))
  onward at_41 =
      inr (omega arith, (of at_42, by_server (server_step cli srv url denied blank addr s f at_41)))
  onward at_42 =
      inr (omega arith, (of at_43, by_server (server_step cli srv url denied blank addr s f at_42)))
  onward at_43 =
      inr (omega arith, (of at_53, by_client (client_step cli srv url denied blank addr s f at_43)))
  onward at_53 =
      inr (omega arith, (of at_54, by_server (server_step cli srv url denied blank addr s f at_53)))
  onward at_44 =
      inr (omega arith, (of at_54, by_client (client_step cli srv url denied blank addr s f at_44)))
  onward at_54 =
      inr (omega arith, (of at_55, by_server (server_step cli srv url denied blank addr s f at_54)))
  onward at_45 =
      inr (omega arith, (of at_55, by_client (client_step cli srv url denied blank addr s f at_45)))
  onward at_55 =
      inr (omega arith, (of at_65, by_client (client_step cli srv url denied blank addr s f at_55)))
  onward at_65 =
      inr (omega arith, (of at_75, by_client (client_step cli srv url denied blank addr s f at_65)))
  onward at_75 =
      inr (omega arith, (of at_85, by_client (client_step cli srv url denied blank addr s f at_75)))
  onward at_66 =
      inr (omega arith, (of at_76, by_client (client_step cli srv url denied blank addr s f at_66)))
  onward at_76 =
      inr (omega arith, (of at_86, by_client (client_step cli srv url denied blank addr s f at_76)))
  onward at_85 =
      inr (omega arith, (of at_86, by_server (server_step cli srv url denied blank addr s f at_85)))
  onward at_86 =
      inr (omega arith, (of at_87, by_server (server_step cli srv url denied blank addr s f at_86)))
  onward at_87 = inl (refl, refl)

  ended : Connected addr (of at_87)
  ended = record {
    client_done = refl;
    server_done = refl;
    client_open = refl;
    server_open = refl;
    known = refl;
    url_read = refl;
    ack_read = refl;
    ok_read = refl;
  }

  names_removed : (connection_close cli srv url true denied blank (of at_87)).fifos ≡ s.fifos
  unfolding connection_close
  names_removed = ground (
    arith,
    f.different_back,
    str_eq_refl (pair_name cli srv),
    str_eq_refl (pair_name srv cli),
    unlink-absent (pair_name srv cli) s.fifos f.no_response,
    unlink-absent (pair_name cli srv) s.fifos f.no_request,
  )

  -- A client that opens a connection and a server that accepts one, where the URL of the client has no
  -- zero byte and at most 2047 characters, is valid and gives its host, the server listens, nothing is
  -- left of an earlier connection of the two, the FIFOs of the two directions have different names (so
  -- that the hosts differ), and the system allows the three FIFOs: whatever the order of their steps,
  -- after 15 of them both are connected and the server knows the address of the client, and
  -- `connection_close` then leaves the FIFOs as they were; and before that one of the two can take a
  -- step. So under these conditions neither waits for ever, and neither fails.
  pub handshake :
      (n : ℕ) (t : Handshake)
      → Run cli srv url true denied blank n (phase cli srv url addr s make_response wait_client) t
      → ((n ≡ 15)
          × Connected addr t
          × ((connection_close cli srv url true denied blank t).fifos ≡ s.fifos))
        ⊎ ((n < 15) × ((u : Handshake) × Step cli srv url true denied blank t u))
  handshake n t r =
      let (j, e, b) = Run-Known n (of at_00) t refl r in
      elim (onward j) [
        | inl (k, c) ↦
            let last : t ≡ of at_87 = e ∙ ap of k in
            inl (
              sym b ∙ c,
              subst (Connected addr) (sym last) ended,
              ap (λ t. (connection_close cli srv url true denied blank t).fifos) last
                  ∙ names_removed,
            )
        | inr (c, (u, m)) ↦ inr (
          subst (λ k. k < 15) b c,
          (u, subst (λ t. Step cli srv url true denied blank t u) (sym e) m),
        )
      ]
