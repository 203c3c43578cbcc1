-- ===== src/Address/Urls.antt =====
-- The URLs that each variant takes, and the address that it finds.
use itba_os_tp1_ipc_2016_q.Base.{
  ℕ, ◌-◌, ◌%◌, ◌^◌, ◌<◌, min, ◌≡◌, refl, ◌∙◌, ap, arith, true, [], ◌∷◌, ◌++◌, some, Bytes, codes,
  All,
}
use itba_os_tp1_ipc_2016_q.Base.Decimal.{decimal, atoi-text, IsDigit, decimal-IsDigit}
use itba_os_tp1_ipc_2016_q.Address.{address_ok, Addr}
use itba_os_tp1_ipc_2016_q.Address.Shape.{
  IsToken, IsUrl, token-append, read_url-IsUrl, read_url-parts,
}
use itba_os_tp1_ipc_2016_q.Address.Fifo
use itba_os_tp1_ipc_2016_q.Address.Socket
use itba_os_tp1_ipc_2016_q.Address.Socket.{read_port, after_host, all_digits, atoi_unsigned}

-- The FIFO variant takes a URL with this protocol and host.
abbrev pub TakesFifo : Bytes → Bytes → Bytes → Type 0
TakesFifo url protocol host = (tail : Bytes) × IsUrl b'f' url protocol host tail

-- With FIFOs, a URL that is a protocol with a first letter `f`, the characters `://`, a host and
-- nothing, or a colon, a newline or a byte 255 and any text, gives an address with this protocol and
-- host, and the port as it was.
pub fifo_address :
    (url protocol host : Bytes) (a : Addr)
    → TakesFifo url protocol host
    → Fifo.address_from_url url a ≡ (
      address_ok,
      record a { url = some url; protocol = some protocol; host = some host; valid = true },
    )
unfolding Fifo.address_from_url Fifo.read_host
fifo_address url protocol host a (tail, u) =
    read_url-IsUrl b'f' Fifo.read_host url protocol host tail
      (record a { valid = true; url = some url }) u
    ∙ ap
        (λ t. (
          address_ok,
          record a { url = some url; protocol = some protocol; host = some t.0; valid = true },
        ))
        (token-append host tail u.host_token u.tail_stops)

-- With FIFOs, a URL is taken only if it is a protocol with a first letter `f`, the characters `://`, a
-- host, and nothing or a colon, a newline or a byte 255 with any text; the address then has this
-- protocol and host, and the port as it was.
pub fifo_taken :
    (url : Bytes) (a : Addr)
    → (Fifo.address_from_url url a).0 ≡ address_ok
    → (protocol : Bytes) × (host : Bytes) × (tail : Bytes) × IsUrl b'f' url protocol host tail
      × (Fifo.address_from_url url a ≡ (
        address_ok,
        record a { url = some url; protocol = some protocol; host = some host; valid = true },
      ))
fifo_taken url a e =
    let (protocol, host, tail, u) =
      read_url-parts b'f' Fifo.read_host url (record a { valid = true; url = some url }) refl
        (unfold Fifo.address_from_url in e) in
    (protocol, host, tail, u, fifo_address url protocol host a (tail, u))

all_digits-IsDigit : (s : Bytes) → All IsDigit s → all_digits s ≡ true
unfolding all_digits
all_digits-IsDigit [] h = refl
all_digits-IsDigit (c ∷ s) (h, hs) = ground (arith, all_digits-IsDigit s hs)

read_port-decimal :
    (port : ℕ) (a : Addr)
    → port < 2 ^ 32
    → read_port (decimal port) a ≡ (address_ok, record a { port = some port })
unfolding read_port atoi_unsigned
read_port-decimal port a h =
    let e : min port (2 ^ 63 - 1) % 2 ^ 32 ≡ port = omega (arith, h) in
    rw (all_digits-IsDigit (decimal port) (decimal-IsDigit port), atoi-text port) (rw e refl)

-- With sockets, the URL of a protocol with a first letter `s`, a host and a port below 2^32 gives an address with
-- this protocol, host and port.
pub socket_address :
    (protocol host more : Bytes) (port : ℕ) (a : Addr)
    → protocol ≡ b's' ∷ more
    → IsToken protocol
    → IsToken host
    → port < 2 ^ 32
    → let url = protocol ++ (codes "://" ++ (host ++ (codes ":" ++ decimal port))) in
      Socket.address_from_url url a ≡ (
        address_ok,
        record {
          url = some url;
          protocol = some protocol;
          host = some host;
          valid = true;
          port = some port;
        },
      )
unfolding Socket.address_from_url Socket.read_host
socket_address protocol host more port a e ip ih small =
    let tail = codes ":" ++ decimal port in
    let url = protocol ++ (codes "://" ++ (host ++ tail)) in
    let u : IsUrl b's' url protocol host tail = record {
      more = more;
      first_char = e;
      protocol_token = ip;
      host_token = ih;
      tail_stops = refl;
      shape = refl;
    } in
    read_url-IsUrl b's' Socket.read_host url protocol host tail
      (record a { valid = true; url = some url }) u
    ∙ ap
        (λ t.
          after_host t.1
            (record a { url = some url; protocol = some protocol; host = some t.0; valid = true }))
        (token-append host tail ih refl)
    ∙ unfold after_host in read_port-decimal port _ small
