-- ===== src/Config/Addresses.antt =====
-- The addresses that the server and a client make of their configurations, in both builds.
use mathlib.Core.Path.{subst}
use native.Mathlib.Nat.{pow-suc, pow-le-pow_right}
use itba_os_tp1_ipc_2016_q.Base.{
  ℕ, zero, suc, ◌+◌, ◌-◌, ◌/◌, ◌^◌, ◌<◌, ◌≤◌, ◌≡◌, refl, sym, ap, arith, inl, inr, Bool-cases, leb,
  true, false, [], ◌∷◌, ◌++◌, append-nil, Option, none, some, Bytes, codes, ltb, length,
  length-append, All, All-append,
}
use itba_os_tp1_ipc_2016_q.Base.Decimal.{
  decimal, IsDigit, decimal-IsDigit, length-decimal, decimal_3000,
}
use itba_os_tp1_ipc_2016_q.Base.Words.{pos, int_of_word}
use itba_os_tp1_ipc_2016_q.Address.{AddrError, address_ok, Addr}
use itba_os_tp1_ipc_2016_q.Address.Fifo
use itba_os_tp1_ipc_2016_q.Address.Socket
use itba_os_tp1_ipc_2016_q.Address.Shape.{IsToken, stops}
use itba_os_tp1_ipc_2016_q.Address.Urls.{fifo_address, socket_address}
use itba_os_tp1_ipc_2016_q.Channel.{getrnd}
use itba_os_tp1_ipc_2016_q.Channel.Boundary.{getrnd_bounds}
use itba_os_tp1_ipc_2016_q.Config.{
  ServerConfig, Build, fifo, socket, print_int, server_url, server_url_room, client_name,
  client_url, client_url_room,
}

-- `address_from_url` of a build.
abbrev pub address_in : Build → Bytes → Addr → AddrError × Addr
address_in fifo url a = Fifo.address_from_url url a
address_in socket url a = Socket.address_from_url url a

-- The address of a host; only sockets have a port.
abbrev pub address_of : Build → Bytes → Bytes → ℕ → Addr → Addr
address_of fifo url host port a = record a {
  url = some url;
  protocol = some (codes "fifo");
  host = some host;
  valid = true;
}
address_of socket url host port a = record {
  url = some url;
  protocol = some (codes "socket");
  host = some host;
  valid = true;
  port = some port;
}

-- A logarithm to the base 10 that is rounded down, at least; `float` may round it up.
abbrev pub IsFloorLog : (ℕ → ℕ) → Type 0
IsFloorLog floor_log10 = (k n : ℕ) → 10 ^ k ≤ n → k ≤ floor_log10 n

some_power : (fuel n : ℕ) → n ≤ fuel → 0 < n → (k : ℕ) × (10 ^ k ≤ n) × (n < 10 ^ suc k)
some_power zero n h p = absurd (omega (arith, h, p))
some_power (suc fuel) n h p = elim (Bool-cases (ltb n 10)) [
  | inl e ↦ (0, omega (arith, p), ground (arith, e))
  | inr e ↦
      let (k, lo, hi) = some_power fuel (n / 10) (ground (arith, h, e)) (ground (arith, e)) in
      (suc k, omega (arith, lo, pow-suc 10 k), omega (arith, hi, pow-suc 10 k, pow-suc 10 (suc k)))
]

-- The logarithm itself is such a function.
abbrev pub floor_digits : ℕ → ℕ
floor_digits n = length (decimal n) - 1

pub floor_digits-IsFloorLog : IsFloorLog floor_digits
floor_digits-IsFloorLog k n h =
    let one_up : 10 ^ 0 ≤ 10 ^ k =
      pow-le-pow_right {n = 10} (omega arith) {i = 0} {j = k} (omega arith) in
    let (m, lo, hi) = some_power n n (omega arith) (omega (arith, h, one_up)) in
    elim (Bool-cases (leb k m)) [
      | inl e ↦ ground (arith, e, length-decimal m n lo hi)
      | inr e ↦
          let above : 10 ^ suc m ≤ 10 ^ k =
            pow-le-pow_right {n = 10} (omega arith) {i = suc m} {j = k} (ground (arith, e)) in
          absurd (omega (arith, above, h, hi))
    ]

printed_port : (port : ℕ) → port < 2 ^ 31 → print_int (int_of_word port) ≡ decimal port
unfolding print_int
printed_port port h = let e : int_of_word port ≡ pos port = ground arith in rw e refl

digits_fit :
    (floor_log10 : ℕ → ℕ) (port : ℕ)
    → IsFloorLog floor_log10
    → 0 < port
    → length (decimal port) ≤ suc (floor_log10 port)
digits_fit floor_log10 port log p =
    let (k, lo, hi) = some_power port port (omega arith) p in
    omega (arith, length-decimal k port lo hi, log k port lo)

-- What is listened on: the address of the server's name and port, from a text that fits its block.
abbrev pub Listens : (ℕ → ℕ) → Build → ServerConfig → Addr → Type 0
Listens floor_log10 build config a =
    let url = server_url build config in
    (address_in build url a ≡ (address_ok, address_of build url config.server_name config.port a))
    × (length url + 1 ≤ server_url_room floor_log10 config)

-- In both builds, if the name of the server has no colon, no newline and no byte 255, the port is
-- between 1 and 2^31 - 1, and the logarithm that the block is computed from is not rounded below the
-- true one, the text of the server's URL fits its block, and the address made of it is valid and has
-- this name and, with sockets, this port.
pub server-Listens :
    (floor_log10 : ℕ → ℕ) (build : Build) (config : ServerConfig) (a : Addr)
    → IsFloorLog floor_log10
    → IsToken config.server_name
    → 0 < config.port
    → config.port < 2 ^ 31
    → Listens floor_log10 build config a
unfolding server_url server_url_room
server-Listens floor_log10 fifo config a log t p q = (
  fifo_address (server_url fifo config) (codes "fifo") config.server_name a (
    [],
    record {
      more = codes "ifo";
      first_char = refl;
      protocol_token = (refl, (refl, (refl, (refl, tt))));
      host_token = t;
      tail_stops = tt;
      shape = ap (λ host. codes "fifo://" ++ host) (sym (append-nil config.server_name));
    },
  ),
  omega arith,
)
server-Listens floor_log10 socket config a log t p q =
    let url : Bytes → Bytes =
      λ port. codes "socket://" ++ (config.server_name ++ (codes ":" ++ port)) in
    let e : print_int (int_of_word config.port) ≡ decimal config.port =
      printed_port config.port q in
    (
      subst
          (λ port.
            Socket.address_from_url (url port) a
            ≡ (address_ok, address_of socket (url port) config.server_name config.port a))
          (sym e)
          (socket_address (codes "socket") config.server_name (codes "ocket") config.port a refl
            (refl, (refl, (refl, (refl, (refl, (refl, tt)))))) t (omega arith)),
      subst (λ port. length (url port) + 1 ≤ server_url_room floor_log10 config) (sym e)
          (omega (
            arith,
            length-append config.server_name (codes ":" ++ decimal config.port),
            digits_fit floor_log10 config.port log p,
          )),
    )

digits-IsToken : (s : Bytes) → All IsDigit s → IsToken s
digits-IsToken [] d = tt
digits-IsToken (c ∷ s) (d, ds) = (ground (arith, d), digits-IsToken s ds)

-- A name that an option gives is a host.
abbrev pub NameFits : Option Bytes → Type 0
NameFits none = Unit
NameFits (some name) = IsToken name

name-IsToken : (opt : Option Bytes) (rand : ℕ) → NameFits opt → IsToken (client_name opt rand)
unfolding client_name
name-IsToken none rand h =
    All-append (λ c. stops c ≡ false) (codes "anon") (decimal (getrnd 1000 10000 rand))
      (refl, (refl, (refl, (refl, tt))))
      (digits-IsToken (decimal (getrnd 1000 10000 rand)) (decimal-IsDigit (getrnd 1000 10000 rand)))
name-IsToken (some name) rand h = h

-- A name that is made up fits its block of 9 bytes.
pub anonymous_fits : (rand : ℕ) → length (client_name none rand) + 1 ≡ 9
unfolding client_name
anonymous_fits rand =
    let (lo, hi) = getrnd_bounds 1000 10000 rand (omega arith) in
    omega (
      arith,
      length-append (codes "anon") (decimal (getrnd 1000 10000 rand)),
      length-decimal 3 (getrnd 1000 10000 rand) (omega (arith, lo)) (omega (arith, hi)),
    )

-- The address of a client, from a text that fits its block.
abbrev pub IsAddressed : Build → Bytes → Addr → Type 0
IsAddressed build name a =
    let url = client_url build name in
    (address_in build url a ≡ (address_ok, address_of build url name 3000 a))
    × (length url + 1 ≡ client_url_room build name)

named : (build : Build) (name : Bytes) (a : Addr) → IsToken name → IsAddressed build name a
unfolding client_url client_url_room
named fifo name a t = (
  fifo_address (client_url fifo name) (codes "fifo") name a (
    codes ":3000",
    record {
      more = codes "ifo";
      first_char = refl;
      protocol_token = (refl, (refl, (refl, (refl, tt))));
      host_token = t;
      tail_stops = refl;
      shape = refl;
    },
  ),
  omega (arith, length-append name (codes ":3000")),
)
named socket name a t = (
  subst
      (λ port. Socket.address_from_url (codes "socket://" ++ (name ++ (codes ":" ++ port))) a ≡ (
        address_ok,
        address_of socket (codes "socket://" ++ (name ++ (codes ":" ++ port))) name 3000 a,
      ))
      decimal_3000
      (socket_address (codes "socket") name (codes "ocket") 3000 a refl
        (refl, (refl, (refl, (refl, (refl, (refl, tt)))))) t (omega arith)),
  omega (arith, length-append name (codes ":3000")),
)

-- In both builds a client that is started without a name has a valid address, whatever `rand()` gives,
-- with the name that is made up for it and, with sockets, the port 3000; and so has a client whose
-- name has no colon, no newline and no byte 255. The text of the URL fills its block exactly.
pub client-IsAddressed :
    (build : Build) (opt : Option Bytes) (rand : ℕ) (a : Addr)
    → NameFits opt
    → IsAddressed build (client_name opt rand) a
client-IsAddressed build opt rand a h =
    named build (client_name opt rand) a (name-IsToken opt rand h)
