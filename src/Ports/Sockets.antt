-- ===== src/Ports/Sockets.antt =====
-- Port, SendingPort and ReceivingPort of common.h and common.cpp: socket addresses and the opening of
-- a port. What the system answers is a parameter: `Resolver` for names, `SystemCalls` for the calls
-- of one `init`, and the result of `sendto`.
use communication_network.Base.{
  ℕ, ◌+◌, ◌-◌, ◌%◌, ℤ, pos, negsuc, List, [], ◌∷◌, Option, none, some, ◌&&◌, Exec, ok, failure,
  guard, ◌>>◌, ◌>>=◌, if◌then◌else◌, not, or_fault,
}
use communication_network.Host.State.{◌==ℤ◌}
use communication_network.Wire.Packet.{Packet, Allocator, mtu_size, max_buf_length, send_packet}
use communication_network.Ports.Addresses.{
  Address, to_short, non_negative, is_set, set_port, set_hostname, new_address, unset_address,
  default_send_port, default_recv_port,
}

pub record Resolver : Type 0 where
  pub inet_aton : List ℕ → Option ℕ
  pub gethostbyname : List ℕ → Option ℕ
  pub inet_ntoa : ℕ → List ℕ

-- The results of `socket`, `bind` and `setsockopt`.
pub record SystemCalls : Type 0 where
  pub socket : ℤ
  pub bind : ℤ
  pub setsockopt : ℤ

-- `struct sockaddr_in`: the port as the 16 bits that `htons` gets, the address as a number.
pub record SockAddress : Type 0 where
  pub sin_port : ℕ
  pub sin_addr : ℕ

pub record UdpPort : Type 0 where
  pub myaddr : Address
  pub itsaddr : Address
  pub my_sock_address : Option SockAddress
  pub sockfd : ℤ
  pub bcastflag : ℤ
  pub buffer : Option (List ℕ)

-- A `short` as 16 bits, and back (`htons` and `ntohs` turn the same octets over).
abbrev pub to_unsigned : ℤ → ℕ
to_unsigned (pos n) = n % 65536
to_unsigned (negsuc n) = 65535 - n % 65536

abbrev pub from_unsigned : ℕ → ℤ
from_unsigned n = to_short (pos n)

abbrev pub localhost : List ℕ
localhost = 108 ∷ 111 ∷ 99 ∷ 97 ∷ 108 ∷ 104 ∷ 111 ∷ 115 ∷ 116 ∷ []

-- The address that a name stands for: the one it spells, or the one that the name server gives.
unfoldable pub resolve : Resolver → List ℕ → Exec ℕ
resolve dns [] = ok 0
resolve dns (c ∷ cs) = elim (dns.inet_aton (c ∷ cs)) [
  | some a ↦ ok a
  | none ↦ or_fault (dns.gethostbyname (c ∷ cs)) failure
]

-- `setSockAddress`.
unfoldable pub set_sock_address : Resolver → Address → Exec SockAddress
unfolding resolve
set_sock_address dns a = do
  address ← resolve dns a.hostname
  ok (record { sin_port = to_unsigned a.port; sin_addr = address })

-- `decodeSockAddress`.
unfoldable pub decode_sock_address : Resolver → Address → SockAddress → Exec Address
decode_sock_address dns a address = do
  named ← set_hostname (some (dns.inet_ntoa address.sin_addr)) a
  ok (set_port (from_unsigned address.sin_port) named)

-- `Port::setAddress` and `setRemoteAddress`.
unfoldable pub set_address : Address → UdpPort → Exec UdpPort
set_address addr p = do
  a ← set_hostname (some addr.hostname) p.myaddr
  ok (record p { myaddr = set_port addr.port a })

unfoldable pub set_remote_address : Address → UdpPort → Exec UdpPort
set_remote_address daddr p = do
  a ← set_hostname (some daddr.hostname) p.itsaddr
  ok (record p { itsaddr = set_port daddr.port a })

-- `Port()`.
abbrev pub unopened : List ℕ → List ℕ → UdpPort
unopened block remote_block = record {
  myaddr = unset_address block;
  itsaddr = unset_address remote_block;
  my_sock_address = none;
  sockfd = pos 0;
  bcastflag = pos 0;
  buffer = none;
}

-- `SendingPort(hostname, port)`, and `SendingPort()`.
unfoldable pub sending_port_at : List ℕ → List ℕ → List ℕ → ℤ → Exec UdpPort
sending_port_at block remote_block hostname port = do
  let p = unopened block remote_block
  a ← set_hostname (some hostname) p.myaddr
  ok (record p { myaddr = set_port port a })

unfoldable pub sending_port : List ℕ → List ℕ → Exec UdpPort
unfolding sending_port_at
sending_port block remote_block = sending_port_at block remote_block localhost default_send_port

-- `setBroadcast` and `setBroadcastOff`.
abbrev pub set_broadcast : UdpPort → UdpPort
set_broadcast p = record p { bcastflag = pos 1 }

abbrev pub set_broadcast_off : UdpPort → UdpPort
set_broadcast_off p = record p { bcastflag = pos 0 }

-- The address that a port takes where it has none.
unfoldable pub default_address : ℤ → UdpPort → Exec UdpPort
default_address port p =
    if is_set p.myaddr
    then ok p
    else (set_hostname (some localhost) p.myaddr >>= λ a.
        ok (record p { myaddr = set_port port a }))

-- The socket is made and bound to the port's number on every address of the machine.
unfoldable pub open_socket : Resolver → SystemCalls → List ℕ → UdpPort → Exec UdpPort
open_socket dns calls block p = do
  guard (non_negative calls.socket) failure
  empty_addr ← new_address block [] p.myaddr.port
  addr ← set_sock_address dns empty_addr
  guard (non_negative calls.bind) failure
  ok (record p { my_sock_address = some addr; sockfd = calls.socket })

-- `SendingPort::init`.
unfoldable pub init_sending : Resolver → SystemCalls → Allocator → UdpPort → Exec UdpPort
unfolding default_address open_socket
init_sending dns calls new p =
    if not (p.sockfd ==ℤ pos 0)
    then ok p
    else (default_address default_send_port p >>= λ q.
        guard (is_set q.itsaddr) failure
        >> (open_socket dns calls (new.block 6) q >>= λ r.
            guard (not (r.bcastflag ==ℤ pos 1 && (calls.setsockopt ==ℤ negsuc 0))) failure
            >> ok (record r { buffer = some (new.block (mtu_size + 1)) })))

-- `ReceivingPort::init`.
unfoldable pub init_receiving : Resolver → SystemCalls → Allocator → UdpPort → Exec UdpPort
unfolding default_address open_socket
init_receiving dns calls new p =
    if not (p.sockfd ==ℤ pos 0)
    then ok p
    else (default_address default_recv_port p >>= λ q.
        open_socket dns calls (new.block 6) q >>= λ r.
        ok (record r { buffer = some (new.block max_buf_length) }))

-- `SendingPort::sendPacket`: the destination and the bytes that are handed to `sendto`, whose result
-- is `len`.
unfoldable pub send_to : Resolver → ℤ → Packet → UdpPort → Exec (SockAddress × List ℕ)
send_to dns len pkt p = do
  bytes ← send_packet pkt
  dest ← set_sock_address dns p.itsaddr
  guard (not (len ==ℤ negsuc 0)) failure
  ok (dest, bytes)
