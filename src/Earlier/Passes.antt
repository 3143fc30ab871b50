-- ===== src/Earlier/Passes.antt =====
-- One round of a receiving thread of simple_router.cpp for a request and for a response.
use communication_network.Base.{
  ◌∙◌, ℕ, ◌<◌, ◌≡◌, refl, ap, List, [], ◌∷◌, ◌++◌, some, Bool, true, false, ok, ◌>>=◌, guard,
  if◌then◌else◌, arith, lt→ltb,
}
use communication_network.Wire.Header.{get_octet}
use communication_network.Wire.Packet.{Packet, send_packet}
use communication_network.Wire.Make.{
  packet_type_pos, contentid_pos, hostid_or_hops_pos, request, response,
}
use communication_network.Earlier.Tables.{
  RtRecord, PrtRecord, pending_for, scan_pendings, scan_routes, erase_pending,
}
use communication_network.Earlier.State.{RxThread, Shared, send_at}
use communication_network.Earlier.Handlers.{
  copy_pendings, copy_routes, pending_of, send_towards, handle_request, handle_response,
  handle_packet, make_change, end_round, pass,
}

-- The table has a record of the content and the host.
abbrev pub has_pending : ℕ → ℕ → List PrtRecord → Bool
has_pending c h [] = false
has_pending c h (r ∷ rs) = if pending_for c h r then true else has_pending c h rs

scan_pendings-missing :
    (c h : ℕ) (unset last : PrtRecord) (front : List PrtRecord)
    → has_pending c h (front ++ last ∷ []) ≡ false
    → scan_pendings c h unset (front ++ last ∷ []) ≡ (last, false)
unfolding scan_pendings
scan_pendings-missing c h unset last [] e = ground (arith, e)
scan_pendings-missing c h unset last (r ∷ rs) e =
    ground (arith, e, scan_pendings-missing c h r last rs)

scan_pendings-none :
    (c h : ℕ) (unset : PrtRecord) (table : List PrtRecord)
    → (scan_pendings c h unset table).1 ≡ has_pending c h table
unfolding scan_pendings
scan_pendings-none c h unset [] = refl
scan_pendings-none c h unset (r ∷ rs) = ground (arith, scan_pendings-none c h r rs)

scan_pendings-pushed :
    (c h i : ℕ) (unset : PrtRecord) (table : List PrtRecord)
    → has_pending c h table ≡ false
    → scan_pendings c h unset (table ++ pending_of c h i ∷ []) ≡ (pending_of c h i, true)
unfolding scan_pendings
scan_pendings-pushed c h i unset [] e = ground arith
scan_pendings-pushed c h i unset (r ∷ rs) e = ground (arith, e, scan_pendings-pushed c h i r rs)

erase_pending-pushed :
    (c h : ℕ) (last : PrtRecord) (table : List PrtRecord)
    → has_pending c h table ≡ false
    → pending_for c h last ≡ true
    → erase_pending c h (table ++ last ∷ []) ≡ table
unfolding erase_pending
erase_pending-pushed c h last [] e f = ground (arith, f)
erase_pending-pushed c h last (r ∷ rs) e f = ground (arith, e, erase_pending-pushed c h last rs)

-- The first record that is for the content and the host goes.
erase_pending-first :
    (c h : ℕ) (before behind : List PrtRecord) (r : PrtRecord)
    → has_pending c h before ≡ false
    → pending_for c h r ≡ true
    → erase_pending c h (before ++ r ∷ behind) ≡ before ++ behind
unfolding erase_pending
erase_pending-first c h [] behind r e f = ground (arith, f)
erase_pending-first c h (x ∷ xs) behind r e f =
    ground (arith, e, erase_pending-first c h xs behind r)

-- A thread about to begin its round for a packet with these three octets.
pub record Carries (ty c h : ℕ) (t : RxThread) : Type 0 where
  pub no_routes : t.rt_local ≡ []
  pub no_pendings : t.prt_local ≡ []
  pub type_octet : get_octet packet_type_pos t.port.pkt.header ≡ ok ty
  pub content_octet : get_octet contentid_pos t.port.pkt.header ≡ ok c
  pub third_octet : get_octet hostid_or_hops_pos t.port.pkt.header ≡ ok h

-- A response that no request asked for, in a round with empty copies and no other thread in between:
-- nothing is sent, and of the records for the content and the host of the last record of the table
-- the first is erased. That is the last record itself where it is the only one of them.
pub unasked_response_erases :
    (unset : PrtRecord) (i c h : ℕ) (t : RxThread) (s : Shared)
    (front before behind : List PrtRecord) (last r : PrtRecord)
    → Carries response c h t
    → s.pending_table ≡ front ++ last ∷ []
    → has_pending c h (front ++ last ∷ []) ≡ false
    → front ++ last ∷ [] ≡ before ++ r ∷ behind
    → has_pending last.c_id last.h_id before ≡ false
    → pending_for last.c_id last.h_id r ≡ true
    → pass unset i s t ≡ ok (record s { pending_table = before ++ behind }, end_round t)
unfolding pass handle_packet handle_response copy_pendings copy_routes make_change end_round
unasked_response_erases unset i c h t s front before behind last r k at unasked split first same =
    let erased =
      ap (erase_pending last.c_id last.h_id) split
      ∙ erase_pending-first last.c_id last.h_id before behind r first same in
    rw (k.type_octet, ◌>>=◌)
      (rw (k.content_octet, ◌>>=◌)
        (rw (k.third_octet, ◌>>=◌)
          (rw (k.no_pendings, at, scan_pendings-missing c h unset last front unasked)
            (ap (λ (l : List PrtRecord). ok (record s { pending_table = l }, end_round t))
              erased))))

send_at-ok :
    (i : ℕ) (p : Packet) (s : Shared) {bytes : List ℕ}
    → i < s.num_interfaces
    → send_packet p ≡ ok bytes
    → send_at i p s ≡ ok (record s { sent = s.sent ++ (i, bytes) ∷ [] })
unfolding send_at
send_at-ok i p s inside e = rw (lt→ltb i s.num_interfaces inside, guard) (rw e refl)

-- What a request leaves: a pending record, and the datagram sent on.
abbrev pub after_request : ℕ → ℕ → ℕ → ℕ → List ℕ → Shared → Shared
after_request c h i towards asked s = record s {
  pending_table = s.pending_table ++ pending_of c h i ∷ [];
  sent = s.sent ++ (towards, asked) ∷ [];
}

request-pass :
    (unset : PrtRecord) (i c h : ℕ) (t : RxThread) (s : Shared) (r : RtRecord) (asked : List ℕ)
    → Carries request c h t
    → has_pending c h s.pending_table ≡ false
    → scan_routes c s.routing_table ≡ some r
    → r.interface < s.num_interfaces
    → send_packet t.port.pkt ≡ ok asked
    → pass unset i s t ≡ ok (after_request c h i r.interface asked s, end_round t)
unfolding pass handle_packet handle_request send_towards copy_pendings copy_routes make_change
    end_round
request-pass unset i c h t s r asked k fresh route inside sends =
    rw (k.type_octet, ◌>>=◌)
      (rw (k.content_octet, ◌>>=◌)
        (rw (k.third_octet, ◌>>=◌)
          (rw (k.no_pendings, k.no_routes, route)
            (rw (send_at-ok r.interface t.port.pkt s inside sends, ◌>>=◌)
              (rw (scan_pendings-none c h unset s.pending_table, fresh) refl)))))

response-pass :
    (unset : PrtRecord) (i j c h : ℕ) (u : RxThread) (s : Shared) (table : List PrtRecord)
    (answer : List ℕ)
    → Carries response c h u
    → has_pending c h table ≡ false
    → i < s.num_interfaces
    → send_packet u.port.pkt ≡ ok answer
    → pass unset j (record s { pending_table = table ++ pending_of c h i ∷ [] }) u
      ≡ ok (record s { pending_table = table; sent = s.sent ++ (i, answer) ∷ [] }, end_round u)
unfolding pass handle_packet handle_response copy_pendings copy_routes make_change end_round
response-pass unset i j c h u s table answer k fresh inside sends =
    let noted = record s { pending_table = table ++ pending_of c h i ∷ [] } in
    rw (k.type_octet, ◌>>=◌)
      (rw (k.content_octet, ◌>>=◌)
        (rw (k.third_octet, ◌>>=◌)
          (rw (k.no_pendings, scan_pendings-pushed c h i unset table fresh)
            (rw (send_at-ok i u.port.pkt noted inside sends, ◌>>=◌)
              (rw (erase_pending-pushed c h (pending_of c h i) table fresh (ground arith)) refl)))))

-- A host's request for a content that the table has a route for and no pending record of the host,
-- and later the response, each in a round with no other thread in between: the request is sent on
-- through the interface of the route and noted, the response is sent through the interface that the
-- request came from, and the pending table is then what it was before the request.
pub request_is_answered :
    (unset unset_later : PrtRecord) (i j c h : ℕ) (t u : RxThread) (s : Shared) (r : RtRecord)
    (asked answer : List ℕ)
    → Carries request c h t
    → Carries response c h u
    → has_pending c h s.pending_table ≡ false
    → scan_routes c s.routing_table ≡ some r
    → r.interface < s.num_interfaces
    → i < s.num_interfaces
    → send_packet t.port.pkt ≡ ok asked
    → send_packet u.port.pkt ≡ ok answer
    → (pass unset i s t ≡ ok (after_request c h i r.interface asked s, end_round t))
      × (pass unset_later j (after_request c h i r.interface asked s) u
          ≡ ok (
            record s { sent = (s.sent ++ (r.interface, asked) ∷ []) ++ (i, answer) ∷ [] },
            end_round u,
          ))
request_is_answered unset unset_later i j c h t u s r asked answer kt ku fresh route inside own
      sends answers =
    (
      request-pass unset i c h t s r asked kt fresh route inside sends,
      response-pass unset_later i j c h u (record s { sent = s.sent ++ (r.interface, asked) ∷ [] })
          s.pending_table answer ku fresh own answers,
    )
