-- ===== src/Earlier/Steps.antt =====
-- The receiving threads of simple_router.cpp as one step relation. The thread of interface `i` is
-- number `i` of a list; a step is what one thread does up to its next lock, in any order of threads.
use communication_network.Base.{ℕ, ◌≡◌, List, [], Bool, some, ok, length, get_elem?, set, map}
use communication_network.Wire.Packet.{Allocator, ReceivingPort}
use communication_network.Earlier.Tables.{PrtRecord}
use communication_network.Earlier.State.{
  Change, waiting, taken, has_pendings, has_routes, changing, RxThread, Shared,
}
use communication_network.Earlier.Handlers.{
  take_packet, copy_pendings, copy_routes, handle_packet, make_change, end_round,
}

pub record System : Type 0 where
  pub shared : Shared
  pub threads : List RxThread

-- What thread `i` does: `Act i s t s' t'` from the shared state and its own to the next.
pub data Act (i : ℕ) : Shared → RxThread → Shared → RxThread → Type 0 where
  takes :
      {s : Shared} {t u : RxThread} (new : Allocator) (dropped : Bool) (datagram : List ℕ)
      → t.stage ≡ waiting
      → take_packet new dropped datagram t ≡ ok u
      → Act i s t s u
  copies_pendings : {s : Shared} {t : RxThread} → t.stage ≡ taken → Act i s t s (copy_pendings s t)
  copies_routes :
      {s : Shared} {t : RxThread} → t.stage ≡ has_pendings → Act i s t s (copy_routes s t)
  handles :
      {s v : Shared} {t u : RxThread} (unset : PrtRecord)
      → t.stage ≡ has_routes
      → handle_packet unset i t s ≡ ok (v, u)
      → Act i s t v u
  changes :
      {s : Shared} {t : RxThread} (c : Change)
      → t.stage ≡ changing c
      → Act i s t (make_change c s) (end_round t)

pub data Step : System → System → Type 0 where
  acts :
      {m : System} {s : Shared} {t u : RxThread} (i : ℕ)
      → get_elem? m.threads i ≡ some t
      → Act i m.shared t s u
      → Step m (record { shared = s; threads = set m.threads i u })

pub data Reach (m : System) : System → Type 0 where
  here : Reach m m
  next : {n o : System} → Reach m n → Step n o → Reach m o

-- A thread at the start of its loop.
abbrev pub ready : ReceivingPort → RxThread
ready port = record { port = port; rt_local = []; prt_local = []; stage = waiting }

-- `main` when it has created a thread for each interface: the tables are empty.
unfoldable pub system_started : List ReceivingPort → System
system_started ports = record {
  shared = record {
    num_interfaces = length ports;
    routing_table = [];
    pending_table = [];
    sent = [];
  };
  threads = map ready ports;
}
