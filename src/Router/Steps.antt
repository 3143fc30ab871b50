-- ===== src/Router/Steps.antt =====
-- The threads of a router as one step relation. Each step is one stretch of code between two
-- operations on a mutex or on the message queue, so every interleaving is a sequence of steps.
use communication_network.Base.{ℕ, ◌≡◌, List, [], Bool, ok, length}
use communication_network.Wire.Packet.{Allocator}
use communication_network.Router.State.{
  Receiver, Update, Router, polling, cached_pending, cached, committing, cache_pending,
  cache_routes,
}
use communication_network.Router.Loop.{poll, commit, expire_routes, expire_pendings, receive}

pub data Step : Router → Router → Type 0 where
  caches_pending : {s : Router} → s.phase ≡ polling → Step s (cache_pending s)
  caches_routes : {s : Router} → s.phase ≡ cached_pending → Step s (cache_routes s)
  polls : {s t : Router} → s.phase ≡ cached → poll s ≡ ok t → Step s t
  commits : {s : Router} (u : Update) → s.phase ≡ committing u → Step s (commit u s)
  expires_routes : {s : Router} → Step s (expire_routes s)
  expires_pendings : {s : Router} → Step s (expire_pendings s)
  receives :
      {s t : Router} (new : Allocator) (i : ℕ) (dropped : Bool) (datagram : List ℕ)
      → receive new i dropped datagram s ≡ ok t
      → Step s t

pub data Reach (s : Router) : Router → Type 0 where
  here : Reach s s
  next : {t u : Router} → Reach s t → Step t u → Reach s u

-- `main` after it has started its threads: empty tables and queue, one receiver to an interface.
unfoldable pub started : List Receiver → Router
started receivers = record {
  num_interfaces = length receivers;
  routing_table = [];
  pending_table = [];
  rt_local = [];
  prt_local = [];
  receivers = receivers;
  message_queue = [];
  sent = [];
  phase = polling;
}
