-- ===== src/Wire/Make.antt =====
-- CommonProject.h and CommonProject.cpp: the three kinds of packet and the octets of their headers.
use communication_network.Base.{ℕ, ◌-◌, ◌%◌, ℤ, pos, negsuc, Exec, ok, ◌>>=◌}
use communication_network.Wire.Header.{set_octet}
use communication_network.Wire.Packet.{Packet}

abbrev pub packet_type_pos : ℕ
packet_type_pos = 0

abbrev pub contentid_pos : ℕ
contentid_pos = 1

abbrev pub hostid_or_hops_pos : ℕ
hostid_or_hops_pos = 2

abbrev pub request : ℕ
request = 0x00

abbrev pub response : ℕ
response = 0x01

abbrev pub announcement : ℕ
announcement = 0x02

-- `(unsigned char)` of an `int`.
abbrev pub to_octet : ℤ → ℕ
to_octet (pos n) = n % 256
to_octet (negsuc n) = 255 - n % 256

-- The three `setOctet` calls on the packet's header.
unfoldable pub fill_header : ℕ → ℤ → ℤ → Packet → Exec Packet
fill_header kind c_id third p = do
  h ← set_octet kind packet_type_pos p.header
  h ← set_octet (to_octet c_id) contentid_pos h
  h ← set_octet (to_octet third) hostid_or_hops_pos h
  ok (record p { header = h })

unfoldable pub make_request_packet : ℤ → ℤ → Packet → Exec Packet
unfolding fill_header
make_request_packet c_id h_id p = fill_header request c_id h_id p

unfoldable pub make_response_packet : ℤ → ℤ → Packet → Exec Packet
unfolding fill_header
make_response_packet c_id h_id p = fill_header response c_id h_id p

unfoldable pub make_announcement_packet : ℤ → ℤ → Packet → Exec Packet
unfolding fill_header
make_announcement_packet c_id hop_count p = fill_header announcement c_id hop_count p
