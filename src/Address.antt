-- ===== src/Address.antt =====
-- lib/communication/fifo/comm.addr.fifo.c and lib/communication/socket/comm.addr.socket.c: the address
-- that a URL stands for.
pub mod Fifo
pub mod Socket
pub mod Shape
pub mod Urls
mod Examples
use itba_os_tp1_ipc_2016_q.Base.{
  ℕ, Bool, true, false, ◌||◌, ◌&&◌, List, [], ◌∷◌, ◌++◌, Option, none, some, Bytes, codes, ◌==◌,
  ltb, if◌then◌else◌,
}
use itba_os_tp1_ipc_2016_q.Base.Decimal.{atoi}

abbrev pub colon : ℕ
colon = b':'

abbrev pub slash : ℕ
slash = b'/'

-- `comm_addr_error_t` of both; the FIFO one has no errors of ports.
pub data AddrError : Type 0 where
  address_ok : AddrError
  invalid_protocol : AddrError
  missing_protocol_token : AddrError
  missing_port_token : AddrError
  invalid_port : AddrError

-- `comm_addr_t`; a pointer that was not assigned is `none`. The port is that of `extra`.
pub record Addr : Type 0 where
  pub url : Option Bytes
  pub protocol : Option Bytes
  pub host : Option Bytes
  pub valid : Bool
  pub port : Option ℕ

-- A newline, or the byte 255, which is `EOF` as a `char`. The zero byte is the end of the list.
abbrev pub ends_text : ℕ → Bool
ends_text c = c == b'\n' || c == 255

-- The characters before the first colon or end of the text, and what follows them.
unfoldable pub token : Bytes → Bytes × Bytes
token [] = ([], [])
token (c ∷ offset) =
    let rest = token offset in
    if c == colon || ends_text c then ([], c ∷ offset) else (c ∷ rest.0, rest.1)

abbrev pub fail : AddrError → Addr → AddrError × Addr
fail error address = (error, record address { valid = false })

-- What stands behind the two slashes, if the rest begins with a colon and them.
unfoldable pub after_protocol : Bytes → Option Bytes
after_protocol [] = none
after_protocol (c ∷ []) = none
after_protocol (c ∷ d ∷ []) = none
after_protocol (c ∷ d ∷ e ∷ rest) =
    if c == colon && (d == slash && e == slash) then some rest else none

-- The protocol is stored, and the host is read from behind the slashes.
unfoldable pub read_offset :
    (Bytes → Addr → AddrError × Addr) → Bytes → Option Bytes → Addr → AddrError × Addr
read_offset read_host protocol none address = fail missing_protocol_token address
read_offset read_host protocol (some offset) address =
    read_host offset (record address { protocol = some protocol })

-- The reading of the protocol, which both have, up to what `read_host` does with the rest.
unfoldable pub read_protocol : (Bytes → Addr → AddrError × Addr) → Bytes → Addr → AddrError × Addr
unfolding token after_protocol read_offset
read_protocol read_host url address =
    let (protocol, rest) = token url in read_offset read_host protocol (after_protocol rest) address

-- The first character decides; an address that it does not fit stays valid.
unfoldable pub read_url : ℕ → (Bytes → Addr → AddrError × Addr) → Bytes → Addr → AddrError × Addr
unfolding read_protocol
read_url first read_host [] address = (invalid_protocol, address)
read_url first read_host (c ∷ url) address =
    if c == first then read_protocol read_host (c ∷ url) address else (invalid_protocol, address)
