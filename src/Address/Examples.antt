-- ===== src/Address/Examples.antt =====
-- Addresses of both variants.
use itba_os_tp1_ipc_2016_q.Base.{Bytes, ◌++◌, ◌≡◌, refl, arith, true, false, none, some, codes}
use itba_os_tp1_ipc_2016_q.Base.Decimal.{decimal}
use itba_os_tp1_ipc_2016_q.Address.{
  address_ok, Addr, read_url, read_protocol, token, after_protocol, read_offset,
}
use itba_os_tp1_ipc_2016_q.Address.Shape.{IsUrl}
use itba_os_tp1_ipc_2016_q.Address.Urls.{fifo_address, fifo_taken, socket_address}
use itba_os_tp1_ipc_2016_q.Address.Fifo
use itba_os_tp1_ipc_2016_q.Address.Socket

abbrev blank : Addr
blank = record { url = none; protocol = none; host = none; valid = false; port = none }

fifo_address_example : Fifo.address_from_url (codes "fifo://anon7:3000") blank ≡ (
  address_ok,
  record {
    url = some (codes "fifo://anon7:3000");
    protocol = some (codes "fifo");
    host = some (codes "anon7");
    valid = true;
    port = none;
  },
)
fifo_address_example =
    fifo_address (codes "fifo://anon7:3000") (codes "fifo") (codes "anon7") blank (
      codes ":3000",
      record {
        more = codes "ifo";
        first_char = refl;
        protocol_token = ground arith;
        host_token = ground arith;
        tail_stops = refl;
        shape = refl;
      },
    )

taken : (Fifo.address_from_url (codes "fifo://srv") blank).0 ≡ address_ok
unfolding Fifo.address_from_url Fifo.read_host read_url read_protocol token after_protocol
    read_offset
taken = refl

fifo_taken_example :
    (protocol : Bytes) × (host : Bytes) × (tail : Bytes) × IsUrl b'f'
      (codes "fifo://srv")
      protocol
      host
      tail
    × (Fifo.address_from_url (codes "fifo://srv") blank ≡ (
      address_ok,
      record blank {
        url = some (codes "fifo://srv");
        protocol = some protocol;
        host = some host;
        valid = true;
      },
    ))
fifo_taken_example = fifo_taken (codes "fifo://srv") blank taken

socket_address_example :
    Socket.address_from_url
      (codes "socket" ++ (codes "://" ++ (codes "localhost" ++ (codes ":" ++ decimal 3000))))
      blank
    ≡ (
      address_ok,
      record {
        url =
            some (
              codes "socket"
              ++ (codes "://" ++ (codes "localhost" ++ (codes ":" ++ decimal 3000))));
        protocol = some (codes "socket");
        host = some (codes "localhost");
        valid = true;
        port = some 3000;
      },
    )
socket_address_example =
    socket_address (codes "socket") (codes "localhost") (codes "ocket") 3000 blank refl
      (ground arith) (ground arith) (omega arith)
