-- ===== src/Ambitious/Misaddressed.antt =====
-- A request at the router of Ambitious Version, the host that answers it, and the router again.
use communication_network.Base.{
  ℕ, ◌+◌, ◌≤◌, ◌<◌, ◌≡◌, ◌≢◌, ap, sym, subst, ◌∙◌, ℤ, pos, negsuc, List, [], ◌∷◌, ◌++◌, Option,
  some, true, not, out_of_range, guard, ok, ◌>>=◌, ◌>>◌, drop, arith, length, length-append, ◌==◌,
}
use communication_network.Wire.Header.{get_octet, four_octets}
use communication_network.Wire.Packet.{
  Packet, ReceivingPort, Allocator, receive_packet, fill_payload, mtu_size,
}
use communication_network.Wire.Make.{
  packet_type_pos, contentid_pos, request, response, make_response_packet,
}
use communication_network.Wire.Received.{IsReady, received, receive_packet-eq}
use communication_network.Router.Rounds.{send_packet-eq_datagram}
use communication_network.Host.State.{Host, fn_generator, send}
use communication_network.Host.Threads.{answer_request, new_packet, read_all, set_file_size}
use communication_network.Host.Answering.{answer_request_lem, answered, FitsDatagram}
use communication_network.Ambitious.Pending.{note_request, get_interface_from_pending_table}
use communication_network.Ambitious.PendingLaws.{get-note}
use communication_network.Ambitious.Routing.{get_interface_from_routing_table}
use communication_network.Ambitious.Main.{CdnRouter, process}
use communication_network.Ambitious.Answers.{
  Sendable, IsInterface, through, process-request, process-unasked_response,
}
use communication_network.Ambitious.Hosts.{rx_packet, answer_as_owner}

-- The response of host `k`, without the length octet.
abbrev pub reply : ℕ → ℕ → List ℕ → List ℕ
reply content k bytes = 3 ∷ response ∷ content ∷ k ∷ bytes ++ 255 ∷ []

answer_as_owner-eq :
    (new : Allocator) (content k : ℕ) (s : Host)
    → s.host_id ≡ pos k
    → answer_as_owner new content s ≡ answer_request new content k s
unfolding answer_as_owner answer_request
answer_as_owner-eq new content k s named =
    let file = s.files (fn_generator (pos content) true) in
    let d = read_all file in
    ap
      (λ (z : ℤ). make_response_packet (pos content) z (new_packet new) >>= λ p.
        guard (not (length d == 0)) out_of_range
        >> (fill_payload new (length d) d (set_file_size new file p) >>= λ q. send q s))
      named

-- A host with the number `k` that has the content answers every request for it.
owner_replies :
    (new : Allocator) (content k : ℕ) (bytes : List ℕ) (q : Packet) (s : Host)
    → s.host_id ≡ pos k
    → content < 256
    → k < 256
    → length bytes + 4 ≤ mtu_size
    → s.files (fn_generator (pos content) true) ≡ some bytes
    → get_octet contentid_pos q.header ≡ ok content
    → get_octet packet_type_pos q.header ≡ ok request
    → rx_packet new q s ≡ ok (record s { sent = s.sent ++ reply content k bytes ∷ [] })
unfolding rx_packet
owner_replies new content k bytes q s named small small' fits opened ec ek =
    rw (ec, ◌>>=◌)
      (rw (ek, ◌>>=◌)
        (answer_as_owner-eq new content k s named
          ∙ answer_request_lem new content k s small small' (subst FitsDatagram (sym opened) fits)
          ∙ ap (λ (o : Option (List ℕ)). answered content k o s) opened))

-- What a router's port holds after a response.
received-Sendable :
    (content k : ℕ) (ps : List ℕ) (port : ReceivingPort)
    → IsReady port
    → length ps + 4 ≤ mtu_size + 1
    → Sendable (received (response ∷ content ∷ k ∷ []) ps port).pkt response content k
received-Sendable content k ps port ready small =
    let (x, y, z, w, e) = four_octets port.pkt.header.info ready.sound.header_block in
    record {
      last = w;
      octets = ap (λ (i : List ℕ). (response ∷ content ∷ k ∷ []) ++ drop 3 i) e;
      sends =
          send_packet-eq_datagram (received (response ∷ content ∷ k ∷ []) ps port).pkt (omega arith)
            (omega (arith, length-append ps (drop (length ps) port.pkt.payload))) (omega arith);
    }

-- A request of host `h` for `content` passes a router, which notes it, and reaches a host with the
-- number `k`, not `h`, that has the content. The host answers, and the router's port receives the
-- answer; but it carries the number `k` of the host that sent it, and where no request of host `k`
-- for the content is pending the router drops it: nothing is sent, the tables stay, and the request
-- of host `h` is still pending.
pub reply_is_dropped :
    (new new_at_router : Allocator) (i j content h k : ℕ) (bytes : List ℕ) (p q : Packet)
    (s : CdnRouter) (owner : Host) (port : ReceivingPort)
    → Sendable p request content h
    → IsInterface s.num_interfaces (get_interface_from_routing_table content s.routing_table)
    → get_interface_from_pending_table content k s.pending_table ≡ negsuc 0
    → k ≢ h
    → owner.host_id ≡ pos k
    → content < 256
    → k < 256
    → length bytes + 4 ≤ mtu_size
    → owner.files (fn_generator (pos content) true) ≡ some bytes
    → get_octet contentid_pos q.header ≡ ok content
    → get_octet packet_type_pos q.header ≡ ok request
    → IsReady port
    → (noted : CdnRouter) × (back : ReceivingPort) × (process i p s ≡ ok noted)
      × (rx_packet new q owner
          ≡ ok (record owner { sent = owner.sent ++ reply content k bytes ∷ [] }))
      × (receive_packet new_at_router (reply content k bytes) port ≡ ok back)
      × (process j back.pkt noted ≡ ok noted)
      × (get_interface_from_pending_table content h noted.pending_table ≡ pos i)
reply_is_dropped new new_at_router i j content h k bytes p q s owner port m routed not_asked other
      named small small' fits opened ec ek ready =
    let ps = bytes ++ 255 ∷ [] in
    let longer : length ps ≡ length bytes + 1 = omega (arith, length-append bytes (255 ∷ [])) in
    let noted = record s {
      pending_table = note_request content h i s.pending_table;
      sent = s.sent ++ through (get_interface_from_routing_table content s.routing_table) p;
    } in
    let back = received (response ∷ content ∷ k ∷ []) ps port in
    let unasked : get_interface_from_pending_table content k noted.pending_table ≡ negsuc 0 =
      ground (arith, not_asked, other, get-note content h i content k s.pending_table) in
    (
      noted,
      back,
      process-request i content h p s m routed,
      owner_replies new content k bytes q owner named small small' fits opened ec ek,
      receive_packet-eq new_at_router (response ∷ content ∷ k ∷ []) ps port (omega arith)
          (omega (arith, longer)) ready,
      process-unasked_response j content k back.pkt noted
          (received-Sendable content k ps port ready (omega (arith, longer))) unasked,
      ground (arith, get-note content h i content h s.pending_table),
    )
