-- ===== src/Network/Exchange.antt =====
-- One hop each: what a router's thread holds after a datagram, and what a host does with one.
use communication_network.Base.{
  ℕ, ◌+◌, ◌%◌, ◌≤◌, ◌<◌, ◌≡◌, refl, ap, ◌∙◌, ℤ, pos, List, [], ◌∷◌, ◌++◌, false, Exec, ok, ◌>>=◌,
  arith, length, drop, le→leb, length-append, take-append,
}
use communication_network.Wire.Header.{set_octet, get_octet, four_octets}
use communication_network.Wire.Packet.{
  Packet, ReceivingPort, Allocator, send_packet, make_packet, receive_packet, mtu_size,
}
use communication_network.Wire.Make.{request, response, make_request_packet, fill_header}
use communication_network.Wire.Received.{IsReady, received, receive_packet-eq}
use communication_network.Router.State.{Receiver, message_packet}
use communication_network.Router.Rounds.{Carries, datagram_of}
use communication_network.Router.SharedMessage.{holding}
use communication_network.Host.State.{Host, send}
use communication_network.Host.Threads.{get, rx, new_packet, answer_request, take_response}

-- The loop of `rxthread`, once: the port's packet is the one that is handled.
unfoldable pub host_receives : Allocator → List ℕ → ReceivingPort → Host → Exec Host
host_receives new datagram port s = do port ← receive_packet new datagram port; rx new port.pkt s

-- A datagram with a header of three octets.
abbrev pub datagram : ℕ → ℕ → ℕ → List ℕ → List ℕ
datagram kind content third payload = 3 ∷ kind ∷ content ∷ third ∷ payload

abbrev pub three : ℕ → ℕ → ℕ → List ℕ
three kind content third = kind ∷ content ∷ third ∷ []

module _ (kind content third : ℕ) (ps : List ℕ) where
  pub holding-Carries :
      (r : Receiver)
      → IsReady r.port
      → length ps + 4 ≤ mtu_size
      → Carries (holding (three kind content third) ps r) kind content third 0
  holding-Carries r ready small =
      let (x, y, z, w, e) = four_octets r.port.pkt.header.info ready.sound.header_block in
      record {
        last = w;
        octets = ap (λ (i : List ℕ). three kind content third ++ drop 3 i) e;
        header_room = omega arith;
        filled = omega (arith, length-append ps (drop (length ps) r.port.pkt.payload));
        fits = omega arith;
      }

  pub holding-datagram :
      (r : Receiver)
      → datagram_of (message_packet (holding (three kind content third) ps r))
        ≡ datagram kind content third ps
  holding-datagram r =
      ap (λ (b : List ℕ). 3 ∷ kind ∷ content ∷ third ∷ b)
        (take-append ps (drop (length ps) r.port.pkt.payload))

  -- The octets of the packet that a port has received.
  module _ (port : ReceivingPort) where
    abbrev pub arrived : Packet
    arrived = (received (three kind content third) ps port).pkt

    pub octets_arrived :
        (get_octet 0 arrived.header ≡ ok kind)
        × (get_octet 1 arrived.header ≡ ok content)
        × (get_octet 2 arrived.header ≡ ok third)
    unfolding get_octet
    octets_arrived = (refl, refl, refl)

    pub host_receives-eq :
        (new : Allocator) (s : Host)
        → IsReady port
        → length ps + 4 ≤ mtu_size
        → host_receives new (datagram kind content third ps) port s ≡ rx new arrived s
    unfolding host_receives
    host_receives-eq new s ready small =
        rw
          (receive_packet-eq new (three kind content third) ps port (omega arith) (omega arith)
            ready)
          refl

-- A request or a response reaches its handler.
pub rx-request :
    (new : Allocator) (content third : ℕ) (ps : List ℕ) (port : ReceivingPort) (s : Host)
    → rx new (arrived request content third ps port) s ≡ answer_request new content third s
unfolding rx get_octet
rx-request new content third ps port s = refl

pub rx-response :
    (new : Allocator) (content third : ℕ) (ps : List ℕ) (port : ReceivingPort) (s : Host)
    → rx new (arrived response content third ps port) s
      ≡ take_response content (arrived response content third ps port) s
unfolding rx get_octet
rx-response new content third ps port s = refl

-- GET sends the request's header and nothing else.
abbrev pub asking : ℕ → ℕ → ℕ → Packet → Packet
asking content host last p = record p {
  header = record { info = request ∷ content ∷ host ∷ last ∷ []; header_length = 3 };
}

make_request_packet-eq :
    (content host : ℕ) (p : Packet) (x y z w : ℕ)
    → content < 256
    → host < 256
    → p.header.info ≡ x ∷ y ∷ z ∷ w ∷ []
    → p.header.header_length ≡ 0
    → make_request_packet (pos content) (pos host) p ≡ ok (asking content host w p)
unfolding make_request_packet fill_header set_octet
make_request_packet-eq content host p x y z w small small' e fresh =
    let a : content % 256 ≡ content = omega arith in
    let b : host % 256 ≡ host = omega arith in rw (e, fresh, a, b)

send-asking :
    (content host w : ℕ) (p : Packet) (s : Host)
    → p.size ≡ 0
    → send (asking content host w p) s
      ≡ ok (record s { sent = s.sent ++ datagram request content host [] ∷ [] })
unfolding send send_packet make_packet
send-asking content host w p s empty = rw empty (rw (le→leb 0 (length p.payload) (omega arith)))

pub get-eq :
    (new : Allocator) (content host : ℕ) (s : Host)
    → s.host_id ≡ pos host
    → content < 256
    → host < 256
    → (p : Packet) × (get new (pos content) s
        ≡ ok (
          p,
          record s {
            content_number = pos content;
            content_resp = false;
            sent = s.sent ++ datagram request content host [] ∷ [];
          },
        ))
unfolding get
get-eq new content host s named small small' =
    let (x, y, z, w, e) = four_octets (new.block 4) (new.length-block 4) in
    let t = record s { content_number = pos content; content_resp = false } in
    (
      asking content host w (new_packet new),
      ap
            (λ (h : ℤ). make_request_packet (pos content) h (new_packet new) >>= λ p.
              send p t >>= λ u. ok (p, u))
            named
          ∙ rw (make_request_packet-eq content host (new_packet new) x y z w small small' e refl)
              (rw (send-asking content host w (new_packet new) t refl)),
    )
