-- ===== src/Client/Exchange.antt =====
-- What a client reads behind a message that it has sent to its worker, on every way that this may end.
use mathlib.Core.Path.{subst}
use itba_os_tp1_ipc_2016_q.Base.{
  ℕ, suc, ◌≡◌, refl, ◌∙◌, sym, ap, Bool, List, [], ◌∷◌, ◌++◌, Option, none, some, Bytes, length,
  get_elem?, inl, inr, Bool-cases, codes, append-nil,
}
use itba_os_tp1_ipc_2016_q.Address.{Addr}
use itba_os_tp1_ipc_2016_q.Json.{Json}
use itba_os_tp1_ipc_2016_q.Serialization.Commands.{Message}
use itba_os_tp1_ipc_2016_q.Serialization.Parse.{Parsed}
use itba_os_tp1_ipc_2016_q.Serialization.RoundTrip.{received_as}
use itba_os_tp1_ipc_2016_q.Sql.Process.{Row}
use itba_os_tp1_ipc_2016_q.Server.{CommError, Server}
use itba_os_tp1_ipc_2016_q.Client.{ConnectionState, Peer}
use itba_os_tp1_ipc_2016_q.Server.Slots.{Slots, Slot, placed, maxed, fault, take_slot}
use itba_os_tp1_ipc_2016_q.Server.Loop.Runs.{some-eq}
use itba_os_tp1_ipc_2016_q.Client.Link.{
  Link, fits_block, with_behind, read_answer, receive_answer, take_message, receive_message,
  worker_peer, respond,
}
use itba_os_tp1_ipc_2016_q.Client.Session.{After}

pub get_elem?-last :
    {A : Type 0} (xs : List A) (x : A) → get_elem? (xs ++ x ∷ []) (length xs) ≡ some x
get_elem?-last [] x = refl
get_elem?-last (y ∷ xs) x = get_elem?-last xs x

-- No reader finds a byte behind an unterminated block.
abbrev pub Ended : (Bytes → Bytes) → Type 0
Ended behind = (bytes : Bytes) → behind bytes ≡ []

pub no_bytes_behind :
    {json : Json} (behind : Bytes → Bytes) (p : Parsed json)
    → Ended behind
    → with_behind behind p ≡ p
unfolding with_behind
no_bytes_behind behind (Parsed.raw bytes) z =
    ap Parsed.raw (ap (λ t. bytes ++ t) (z bytes) ∙ append-nil bytes)
no_bytes_behind behind (Parsed.int x) z = refl
no_bytes_behind behind (Parsed.double x) z = refl
no_bytes_behind behind (Parsed.string x) z = refl
no_bytes_behind behind (Parsed.get_cmd x) z = refl
no_bytes_behind behind (Parsed.post_cmd x) z = refl
no_bytes_behind behind (Parsed.login_cmd x) z = refl
no_bytes_behind behind (Parsed.new_user_cmd x) z = refl
no_bytes_behind behind (Parsed.change_pass_cmd x) z = refl
no_bytes_behind behind (Parsed.unknown x) z = refl
no_bytes_behind behind Parsed.logout_cmd z = refl
no_bytes_behind behind Parsed.close_cmd z = refl

module _ {json : Json} {Database : Type 0} (behind : Bytes → Bytes) (margin : Bytes → ℕ) where
  -- What is read is an answer, or the client waits for ever.
  read-After :
      (P : Parsed json → Link json Database → Type 0) (Q : Link json Database → Type 0)
      (l : Link json Database) (o : Option (Message json))
      → ((m : Message json)
          → o ≡ some m
          → P (with_behind behind (received_as json m)) (record l { read = suc l.read }))
      → After P Q (read_answer behind margin l o)
  unfolding read_answer
  read-After P Q l none h = tt
  read-After P Q l (some m) h = elim (Bool-cases (fits_block json margin m)) [
    | inl fits ↦ rw fits (h m refl)
    | inr long ↦ rw long tt
  ]

  -- The answer that a worker has added is the next one to be read.
  pub answered :
      (P : Parsed json → Link json Database → Type 0) (Q : Link json Database → Type 0)
      (l : Link json Database) (s s' : Server json Database) (m : Message json)
      → Ended behind
      → l.read ≡ length s.sent
      → s'.sent ≡ s.sent ++ m ∷ []
      → P (received_as json m) (record l { read = suc l.read })
      → After P Q (receive_answer behind margin l (some s'))
  unfolding receive_answer
  answered P Q l s s' m z e h p =
      let found : get_elem? s'.sent l.read ≡ some m =
        ap (λ k. get_elem? k l.read) h
        ∙ ap (λ n. get_elem? (s.sent ++ m ∷ []) n) e
        ∙ get_elem?-last s.sent m in
      read-After P Q l (get_elem? s'.sent l.read) (λ m' f.
        let same : m ≡ m' = some-eq m m' (sym found ∙ f) in
        subst (λ p. P p (record l { read = suc l.read }))
          (sym (no_bytes_behind behind (received_as json m') z))
          (subst (λ m. P (received_as json m) (record l { read = suc l.read })) same p))

  -- What is read when the worker is gone may be anything that it has left.
  gone :
      (P : Parsed json → Link json Database → Type 0) (Q : Link json Database → Type 0)
      (l : Link json Database)
      → ((p : Parsed json) → P p (record l { read = suc l.read }))
      → After P Q (receive_answer behind margin l none)
  unfolding receive_answer
  gone P Q l h = read-After P Q l (get_elem? l.parting l.read) (λ m e. h _)

module _ (json : Json) {Database : Type 0} (exec : Database → Bytes → List Row × Database)
    (opens : Bytes → Bool) (accepts : List ℕ) (spares : ℕ → ℕ → Bool)
    (twice : json.Double → json.Double) (fifo : Bool) (fresh : CommError) (max_threads : ℕ)
    (behind : Bytes → Bytes) (margin : Bytes → ℕ)
    (connect : Addr
      → Addr
      → ConnectionState
      → Link json Database
      → ℕ × ConnectionState × Link json Database) where
  abbrev pub peer : Peer json
  peer =
      worker_peer json exec opens accepts spares twice fifo fresh max_threads behind margin connect

  abbrev pub answers : Message json → Server json Database → Option (Server json Database)
  answers =
      respond json exec opens accepts spares twice fifo fresh max_threads behind margin connect

  -- What holds of the link once the worker is gone, whatever is then read.
  abbrev pub Gone : (Parsed json → Link json Database → Type 0) → Type 0
  Gone P = (p : Parsed json) (l : Link json Database) → l.worker ≡ none → P p l

  -- A message that reaches the worker, with every way that it may end.
  pub exchanged :
      (P : Parsed json → Link json Database → Type 0) (Q : Link json Database → Type 0)
      (m : Message json) (l : Link json Database) (w : Option (Server json Database))
      → l.worker ≡ w
      → Gone P
      → ((s s' : Server json Database) (slots : Slots)
          → w ≡ some s
          → answers m s ≡ some s'
          → After P Q (
              receive_answer behind margin
                (record l { worker = some s'; slots = slots })
                (some s')))
      → (let l' =
            receive_message json exec opens accepts spares twice fifo fresh max_threads behind
              margin connect m l w in
          After P Q (receive_answer behind margin l' l'.worker))
  unfolding receive_message take_message
  exchanged P Q m l none e g h =
      subst (λ o. After P Q (receive_answer behind margin l o)) (sym e)
        (gone behind margin P Q l (λ p. g p (record l { read = suc l.read }) e))
  exchanged P Q m l (some s) e g h = elim (Bool-cases (fits_block json margin m)) [
    | inr long ↦ rw long (gone behind margin P Q (record l { worker = none }) (λ p. g p _ refl))
    | inl fits ↦ rw fits (taken (take_slot max_threads l.slots))
  ]
    where
      ended :
          (slots : Slots) (o : Option (Server json Database))
          → answers m s ≡ o
          → After P Q (receive_answer behind margin (record l { worker = o; slots = slots }) o)
      ended slots none k =
          gone behind margin P Q (record l { worker = none; slots = slots }) (λ p. g p _ refl)
      ended slots (some s') k = h s s' slots refl k

      taken :
          (slot : Slot)
          → (let l' =
                take_message json exec opens accepts spares twice fifo fresh max_threads behind
                  margin connect m l s slot in
              After P Q (receive_answer behind margin l' l'.worker))
      taken (placed slots) = ended slots (answers m s) refl
      taken maxed =
          gone behind margin P Q
            (record l {
              worker = none;
              parting = s.sent ++ Message.raw (codes "Server maxed capacity") 21 ∷ [];
            })
            (λ p. g p _ refl)
      taken fault = gone behind margin P Q (record l { worker = none }) (λ p. g p _ refl)
