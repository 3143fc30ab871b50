-- ===== src/Router/StaleCache.antt =====
-- What the main loop does with caches that an idle pass left behind.
use communication_network.Base.{
  ℕ, ◌<◌, ◌≡◌, ap, ◌∙◌, List, [], ◌∷◌, ◌++◌, none, some, ok, get_elem?, if◌then◌else◌, arith,
}
use communication_network.Wire.Make.{announcement}
use communication_network.Router.Tables.{RtRecord, find_route, replace_route, refresh_route}
use communication_network.Router.State.{Receiver, Router, polling, committing}
use communication_network.Router.Handlers.{announced, set_header}
use communication_network.Router.Keys.{find_route-append, find_route-c_id}
use communication_network.Router.Rounds.{
  settle, round, Carries, grown_caches, round_grown-eq, decide-announcement,
}
use communication_network.Router.Announcements.{
  decide_announcement-eq, next_packet, commit-announced,
}
use communication_network.Router.Learning.{learned}
use communication_network.Router.Broadcast.{others, to_all}

replace_route_missing :
    (r : RtRecord) (table : List RtRecord)
    → find_route r.c_id table ≡ none
    → replace_route r table ≡ table
unfolding replace_route
replace_route_missing r table missing = rw missing

refreshed_gone :
    (content hops i : ℕ) (x : RtRecord) (cache table : List RtRecord)
    → find_route content cache ≡ some x
    → find_route content table ≡ none
    → find_route (refresh_route hops i x).c_id table ≡ none
unfolding refresh_route
refreshed_gone content hops i x cache table stale gone =
    ground (arith, find_route-c_id content cache stale, gone)

-- A pass whose cache still has a record of the content that the routing table has lost: the
-- announcement is not stored. The routing table is the same after it, without the content.
pub announcement_lost :
    (i content hops : ℕ) (rest : List ℕ) (r : Receiver) (x : RtRecord) (s : Router)
    → s.message_queue ≡ i ∷ rest
    → get_elem? s.receivers i ≡ some r
    → i < s.num_interfaces
    → Carries r announcement content hops 1
    → find_route content s.rt_local ≡ some x
    → find_route content s.routing_table ≡ none
    → (t : Router) × (round s ≡ ok t)
      × (t.routing_table ≡ s.routing_table)
      × (find_route content t.routing_table ≡ none)
unfolding settle set_header
announcement_lost i content hops rest r x s queued found inside m stale gone =
    let u = grown_caches rest s in
    let o = find_route content u.rt_local in
    let b = (announced o content hops i).1 in
    let p = next_packet content hops m.last r in
    let t = record (set_header i r p.header u) {
      sent = s.sent ++ (if b then to_all (others s.num_interfaces 0 i) p else []);
      phase = committing (announced o content hops i).0;
    } in
    let hit : o ≡ some x = find_route-append content s.rt_local s.routing_table ∙ rw stale in
    let key = refreshed_gone content hops i x s.rt_local s.routing_table stale gone in
    let same : learned o content hops i s.routing_table ≡ s.routing_table =
      rw hit (replace_route_missing (refresh_route hops i x) s.routing_table key) in
    (
      record t {
        routing_table = learned o content hops i s.routing_table;
        rt_local = [];
        prt_local = [];
        phase = polling;
      },
      rw (round_grown-eq i rest r s queued found) (
          rw (decide-announcement i rest r u content hops m.last m.octets) (
            rw (decide_announcement-eq m i u inside)
              (ap ok (commit-announced o content hops i t)))),
      same,
      ap (find_route content) same ∙ gone,
    )
