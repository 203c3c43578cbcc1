-- ===== src/Address/Socket.antt =====
-- lib/communication/socket/comm.addr.socket.c: the host and the port, and the whole reading.
use itba_os_tp1_ipc_2016_q.Base.{
  ℕ, ◌-◌, ◌%◌, ◌^◌, min, Bool, true, false, ◌||◌, [], ◌∷◌, some, Bytes, ◌==◌, ltb, if◌then◌else◌,
}
use itba_os_tp1_ipc_2016_q.Base.Decimal.{atoi}
use itba_os_tp1_ipc_2016_q.Address.{
  AddrError, address_ok, missing_port_token, invalid_port, Addr, colon, ends_text, fail, token,
  read_url,
}

-- The characters up to the end of the text are digits.
unfoldable pub all_digits : Bytes → Bool
all_digits [] = true
all_digits (c ∷ offset) =
    let rest = all_digits offset in
    if ends_text c then true else if ltb c b'0' || ltb b'9' c then false else rest

-- `atoi` reads a `long`, which ends at its greatest value, and gives its low 32 bits; they are stored
-- in an `unsigned int`.
unfoldable pub atoi_unsigned : Bytes → ℕ
atoi_unsigned s = min (atoi s) (2 ^ 63 - 1) % 2 ^ 32

unfoldable pub read_port : Bytes → Addr → AddrError × Addr
unfolding all_digits atoi_unsigned
read_port start address =
    if all_digits start
    then (address_ok, record address { port = some (atoi_unsigned start) })
    else fail invalid_port address

-- Without a colon behind the host the port is missing, and the address stays valid.
unfoldable pub after_host : Bytes → Addr → AddrError × Addr
unfolding read_port
after_host [] address = (missing_port_token, address)
after_host (c ∷ offset) address =
    if ends_text c
    then (missing_port_token, address)
    else if c == colon
    then read_port offset address
    else fail missing_port_token address

unfoldable pub read_host : Bytes → Addr → AddrError × Addr
unfolding token after_host
read_host offset address =
    let (host, rest) = token offset in after_host rest (record address { host = some host })

unfoldable pub address_from_url : Bytes → Addr → AddrError × Addr
unfolding read_url read_host
address_from_url url address =
    read_url b's' read_host url (record address { valid = true; url = some url })
