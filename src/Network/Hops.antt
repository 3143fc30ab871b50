-- ===== src/Network/Hops.antt =====
-- The four hops of an exchange: a router takes a request and a response, a host answers and saves.
use communication_network.Base.{
  ℕ, ◌+◌, ◌≤◌, ◌<◌, ◌≡◌, ◌≢◌, refl, sym, subst, ap, ◌∙◌, pos, List, [], ◌∷◌, ◌++◌, Option, some,
  true, false, ok, ◌>>=◌, arith, length, drop, set, get_elem?, All, All-append, length-append,
}
use mathlib.Core.List.{append_assoc}
use communication_network.Wire.Packet.{ReceivingPort, Allocator, mtu_size}
use communication_network.Wire.Make.{request, response}
use communication_network.Wire.Received.{IsReady}
use communication_network.Router.Tables.{find_route, find_pending}
use communication_network.Router.State.{Receiver, Router, message_packet, polling}
use communication_network.Router.Loop.{receive}
use communication_network.Router.Ranges.{RouteInRange, PendingInRange}
use communication_network.Router.Rounds.{round}
use communication_network.Router.Requests.{
  await, along_route, to_requester, request-round, response-round,
}
use communication_network.Router.SharedMessage.{holding, receive-eq, get_elem?-set_at}
use communication_network.Host.State.{Host, fn_generator}
use communication_network.Host.Threads.{c_string}
use communication_network.Host.Answering.{
  answer_request_lem, answered, FitsDatagram, take_response_lem,
}
use communication_network.Network.Exchange.{
  host_receives, datagram, three, holding-Carries, arrived, host_receives-eq, rx-request,
  rx-response,
}

-- A router between two passes of its loop, with nothing queued.
pub record IsIdle (R : Router) : Type 0 where
  pub no_routes : R.rt_local ≡ []
  pub no_pendings : R.prt_local ≡ []
  pub queued : R.message_queue ≡ []
  pub routes : All (RouteInRange R.num_interfaces) R.routing_table
  pub pendings : All (PendingInRange R.num_interfaces) R.pending_table

-- The router after the pass over a request.
abbrev pub after_request : ℕ → ℕ → ℕ → Receiver → Router → Router
after_request i content host r R =
    let y = holding (three request content host) [] r in
    record R {
      receivers = set R.receivers i y;
      pending_table = await content host i R.pending_table;
      rt_local = [];
      prt_local = [];
      message_queue = [];
      sent = R.sent ++ along_route (find_route content R.routing_table) (message_packet y);
      phase = polling;
    }

abbrev pub after_response : ℕ → ℕ → ℕ → List ℕ → Receiver → Router → Router
after_response i content host ps r R =
    let y = holding (three response content host) ps r in
    record R {
      receivers = set R.receivers i y;
      rt_local = [];
      prt_local = [];
      message_queue = [];
      sent = R.sent ++ to_requester (find_pending content host R.pending_table) (message_packet y);
      phase = polling;
    }

module _ (new : Allocator) (i content host : ℕ) (r : Receiver) (R : Router) (idle : IsIdle R)
    (found : get_elem? R.receivers i ≡ some r) (ready : IsReady r.port) where
  pub router_request :
      (receive new i false (datagram request content host []) R >>= round)
      ≡ ok (after_request i content host r R)
  router_request =
      let y = holding (three request content host) [] r in
      rw
        (receive-eq new i (three request content host) [] r R found ready (omega arith)
          (omega arith))
        (request-round i content host [] y
          (record R { receivers = set R.receivers i y; message_queue = R.message_queue ++ i ∷ [] })
          idle.no_routes idle.no_pendings (ap (λ (q : List ℕ). q ++ i ∷ []) idle.queued)
          (get_elem?-set_at R.receivers i r y found) idle.routes
          (holding-Carries request content host [] r ready (omega arith)))

  pub router_response :
      (ps : List ℕ)
      → length ps + 4 ≤ mtu_size
      → (receive new i false (datagram response content host ps) R >>= round)
        ≡ ok (after_response i content host ps r R)
  router_response ps small =
      let y = holding (three response content host) ps r in
      rw
        (receive-eq new i (three response content host) ps r R found ready (omega arith)
          (omega arith))
        (response-round i content host [] y
          (record R { receivers = set R.receivers i y; message_queue = R.message_queue ++ i ∷ [] })
          idle.no_routes idle.no_pendings (ap (λ (q : List ℕ). q ++ i ∷ []) idle.queued)
          (get_elem?-set_at R.receivers i r y found) idle.pendings
          (holding-Carries response content host ps r ready small))

-- The host offers the content as a text without zero octets that fits one datagram.
pub record Offers (B : Host) (content : ℕ) (bytes : List ℕ) : Type 0 where
  pub file : B.files (fn_generator (pos content) true) ≡ some bytes
  pub small : length bytes + 5 ≤ mtu_size
  pub text : All (λ b. b ≢ 0) bytes

-- What a host sends for a content: the bytes of the file and the octet 255.
abbrev pub sent_content : List ℕ → List ℕ
sent_content bytes = bytes ++ 255 ∷ []

module _ (new : Allocator) (content host : ℕ) (bytes : List ℕ) (small : content < 256)
    (small' : host < 256) where
  pub host_answers :
      (B : Host) (port : ReceivingPort)
      → Offers B content bytes
      → IsReady port
      → host_receives new (datagram request content host []) port B
        ≡ ok
            (record B { sent = B.sent ++ datagram response content host (sent_content bytes) ∷ [] })
  host_answers B port o ready =
      host_receives-eq request content host [] port new B ready (omega arith)
      ∙ rx-request new content host [] port B
      ∙ answer_request_lem new content host B small small'
          (subst (λ f. FitsDatagram f) (sym o.file) (omega (arith, o.small)))
      ∙ ap (λ (f : Option (List ℕ)). answered content host f B) o.file

  pub host_saves :
      (stale : List ℕ) (A : Host) (port : ReceivingPort)
      → A.content_number ≡ pos content
      → All (λ b. b ≢ 0) bytes
      → length bytes + 5 ≤ mtu_size
      → IsReady port
      → c_string (drop (length (sent_content bytes)) port.pkt.payload) ≡ ok stale
      → (t : Host) × (host_receives new (datagram response content host (sent_content bytes)) port A
          ≡ ok t)
        × (t.files (fn_generator (pos content) false) ≡ some (bytes ++ 255 ∷ stale))
        × (t.ackflag ≡ true)
  host_saves stale A port wanted text fits ready ends =
      let ps = sent_content bytes in
      let (t, taken, file, resp, ack, out) =
        take_response_lem content ps stale (drop (length ps) port.pkt.payload)
          (arrived response content host ps port) A wanted refl
          (All-append (λ b. b ≢ 0) bytes (255 ∷ []) text (omega arith, tt)) ends in
      (
        t,
        host_receives-eq response content host ps port new A ready
              (omega (arith, length-append bytes (255 ∷ []), fits))
            ∙ rx-response new content host ps port A
            ∙ taken,
        file ∙ ap some (append_assoc bytes (255 ∷ []) stale),
        ack,
      )
