-- ===== src/Address/Fifo.antt =====
-- lib/communication/fifo/comm.addr.fifo.c: the host, and the whole reading.
use itba_os_tp1_ipc_2016_q.Base.{true, some, Bytes}
use itba_os_tp1_ipc_2016_q.Address.{AddrError, address_ok, Addr, token, read_url}

unfoldable pub read_host : Bytes → Addr → AddrError × Addr
unfolding token
read_host offset address =
    let (host, _) = token offset in (address_ok, record address { host = some host })

unfoldable pub address_from_url : Bytes → Addr → AddrError × Addr
unfolding read_url read_host
address_from_url url address =
    read_url b'f' read_host url (record address { valid = true; url = some url })
