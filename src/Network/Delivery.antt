-- ===== src/Network/Delivery.antt =====
-- From GET on one host, through a router, to the host that offers the content, and back.
use communication_network.Base.{
  lt-of_get_elem?, ℕ, ◌+◌, ◌≤◌, ◌<◌, ◌≡◌, ◌≢◌, refl, ap, ◌∙◌, pos, List, [], ◌∷◌, ◌++◌, Option,
  none, some, true, false, ok, ◌>>=◌, arith, length, drop, get_elem?, get_elem?-set, length-append,
}
use communication_network.Wire.Packet.{Packet, ReceivingPort, Allocator, mtu_size}
use communication_network.Wire.Make.{request, response}
use communication_network.Wire.Received.{IsReady}
use communication_network.Router.Tables.{RtRecord, PrtRecord, find_route, find_pending}
use communication_network.Router.State.{Receiver, Router, message_packet}
use communication_network.Router.Loop.{receive}
use communication_network.Router.Rounds.{round, datagram_of}
use communication_network.Router.Requests.{along_route, to_requester}
use communication_network.Router.Returns.{find_pending-await, answered_on, await-InRange}
use communication_network.Router.SharedMessage.{holding}
use communication_network.Host.State.{Host, fn_generator}
use communication_network.Host.Threads.{get, arm, c_string}
use communication_network.Host.Answering.{answered}
use communication_network.Network.Exchange.{
  host_receives, datagram, three, holding-datagram, get-eq,
}
use communication_network.Network.Hops.{
  IsIdle, Offers, after_request, after_response, sent_content, router_request, router_response,
  host_answers, host_saves,
}

-- The router is idle again, and the other thread holds what it held.
pub after_request-IsIdle :
    (i content host : ℕ) (r : Receiver) (R : Router)
    → i < R.num_interfaces
    → IsIdle R
    → IsIdle (after_request i content host r R)
after_request-IsIdle i content host r R inside idle = record {
  no_routes = refl;
  no_pendings = refl;
  queued = refl;
  routes = idle.routes;
  pendings = await-InRange R.num_interfaces content host i R.pending_table inside idle.pendings;
}

pub other_thread :
    (i j content host : ℕ) (r q : Receiver) (R : Router)
    → i ≢ j
    → get_elem? R.receivers i ≡ some r
    → get_elem? R.receivers j ≡ some q
    → get_elem? (after_request i content host r R).receivers j ≡ some q
other_thread i j content host r q R apart fr fq = ground (
  arith,
  apart,
  fq,
  get_elem?-set R.receivers i j (holding (three request content host) [] r)
      (lt-of_get_elem? R.receivers i fr),
)

-- The request goes to the interface of the route.
pub request_goes :
    (i j content host : ℕ) (r : Receiver) (R : Router) (x : RtRecord)
    → find_route content R.routing_table ≡ some x
    → x.interface ≡ j
    → (after_request i content host r R).sent ≡ R.sent ++ (j, datagram request content host []) ∷ []
request_goes i j content host r R x found at =
    let y = holding (three request content host) [] r in
    ap (λ (o : Option RtRecord). R.sent ++ along_route o (message_packet y)) found
    ∙ ap (λ (k : ℕ). R.sent ++ (k, datagram request content host []) ∷ []) at

-- The response goes to the interface that the request came from.
pub response_goes :
    (i j content host : ℕ) (ps : List ℕ) (r q : Receiver) (R : Router)
    → find_pending content host R.pending_table ≡ none
    → (after_response j content host ps q (after_request i content host r R)).sent
      ≡ (after_request i content host r R).sent ++ (i, datagram response content host ps) ∷ []
response_goes i j content host ps r q R fresh =
    let T = after_request i content host r R in
    let y = holding (three response content host) ps q in
    let (x, found, at, full) = find_pending-await content host i R.pending_table in
    let home : x.interface ≡ i = at ∙ ap (answered_on i) fresh in
    ap (λ (o : Option PrtRecord). T.sent ++ to_requester o (message_packet y)) found
    ∙ ap (λ (k : ℕ). T.sent ++ (k, datagram_of (message_packet y)) ∷ []) home
    ∙ ap (λ (d : List ℕ). T.sent ++ (i, d) ∷ []) (holding-datagram response content host ps q)

-- A content is delivered. Host `A` asks for it; the router `R`, idle and with ready threads, has a
-- route to it through interface `j` and no pending request of `A` for it, and hears `A` on another
-- interface `i`; host `B` offers it as a text that fits one datagram. Then every stage finishes
-- without a fault: `A` sends the request, `R` sends it on through `j`, `B` answers it, `R` sends the
-- answer through `i`, and `A` saves the text, with the octet 255 and what stood behind it in the
-- buffer up to a zero, and stops asking.
pub content_is_delivered :
    (new : Allocator) (content host i j : ℕ) (bytes stale : List ℕ) (A B : Host)
    (port_a port_b : ReceivingPort) (R : Router) (r q : Receiver) (x : RtRecord)
    → content < 256
    → host < 256
    → A.host_id ≡ pos host
    → Offers B content bytes
    → IsReady port_a
    → IsReady port_b
    → c_string (drop (length (sent_content bytes)) port_a.pkt.payload) ≡ ok stale
    → IsIdle R
    → i < R.num_interfaces
    → i ≢ j
    → get_elem? R.receivers i ≡ some r
    → get_elem? R.receivers j ≡ some q
    → IsReady r.port
    → IsReady q.port
    → find_route content R.routing_table ≡ some x
    → x.interface ≡ j
    → find_pending content host R.pending_table ≡ none
    → let asked = datagram request content host [] in
      let answer = datagram response content host (sent_content bytes) in
      (p : Packet) × (A1 : Host) × (A2 : Host) × (B1 : Host) × (R1 : Router) × (R2 : Router) × (get
          new
          (pos content)
          A
        ≡ ok (p, A1))
      × (A1.sent ≡ A.sent ++ asked ∷ [])
      × ((receive new i false asked R >>= round) ≡ ok R1)
      × (R1.sent ≡ R.sent ++ (j, asked) ∷ [])
      × (host_receives new asked port_b B ≡ ok B1)
      × (B1.sent ≡ B.sent ++ answer ∷ [])
      × ((receive new j false answer R1 >>= round) ≡ ok R2)
      × (R2.sent ≡ R1.sent ++ (i, answer) ∷ [])
      × (host_receives new answer port_a (arm p A1) ≡ ok A2)
      × (A2.files (fn_generator (pos content) false) ≡ some (bytes ++ 255 ∷ stale))
      × (A2.ackflag ≡ true)
unfolding arm
content_is_delivered new content host i j bytes stale A B port_a port_b R r q x small small' named
      offers ready_a ready_b ends idle inside apart fr fq ready_r ready_q routed at fresh =
    let (p, asks) = get-eq new content host A named small small' in
    let A1 = record A {
      content_number = pos content;
      content_resp = false;
      sent = A.sent ++ datagram request content host [] ∷ [];
    } in
    let R1 = after_request i content host r R in
    let fits : length (sent_content bytes) + 4 ≤ mtu_size =
      omega (arith, length-append bytes (255 ∷ []), offers.small) in
    let (A2, saves, saved, answered) =
      host_saves new content host bytes small small' stale (arm p A1) port_a refl offers.text
        offers.small ready_a ends in
    (
      p,
      A1,
      A2,
      record B { sent = B.sent ++ datagram response content host (sent_content bytes) ∷ [] },
      R1,
      after_response j content host (sent_content bytes) q R1,
      asks,
      refl,
      router_request new i content host r R idle fr ready_r,
      request_goes i j content host r R x routed at,
      host_answers new content host bytes small small' B port_b offers ready_b,
      refl,
      router_response new j content host q R1 (after_request-IsIdle i content host r R inside idle)
          (other_thread i j content host r q R apart fr fq) ready_q (sent_content bytes) fits,
      response_goes i j content host (sent_content bytes) r q R fresh,
      saves,
      saved,
      answered,
    )
