-- ===== src/Ambitious/Loop.antt =====
-- The threads of Ambitious Version/Router.cpp: RxThreadFunc, the queue of messages, the loop of `main`,
-- and the timer threads of the pending records.
use communication_network.Base.{
  ℕ, ◌≡◌, List, [], ◌∷◌, ◌++◌, Bool, Exec, ok, overrun, or_fault, ◌>>=◌, ◌==◌, if◌then◌else◌,
  length, get_elem?, set,
}
use communication_network.Wire.Header.{get_octet}
use communication_network.Wire.Packet.{Packet, Allocator, receive_packet}
use communication_network.Wire.Make.{packet_type_pos, announcement}
use communication_network.Router.State.{Receiver, message_packet}
use communication_network.Ambitious.Pending.{expire_record}
use communication_network.Ambitious.Main.{CdnRouter, handle_announcement_packet, process}

-- The queue holds the numbers of threads: each pushes a pointer to its one Message.
pub record CdnThreads : Type 0 where
  pub router : CdnRouter
  pub receivers : List Receiver
  pub message_queue : List ℕ

-- A round of RxThreadFunc. A datagram that LossyReceivingPort drops has been read into the packet.
unfoldable pub rx_thread_func : Allocator → ℕ → Bool → List ℕ → CdnThreads → Exec CdnThreads
rx_thread_func new i dropped datagram s = do
  r ← or_fault (get_elem? s.receivers i) overrun
  port ← receive_packet new datagram r.port
  ok (
      if dropped
      then record s { receivers = set s.receivers i (record r { port = port }) }
      else record s {
        receivers = set s.receivers i (record {
          port = port;
          message_size = port.pkt.size;
          message_buffer_length = port.pkt.buffer_length;
        });
        message_queue = s.message_queue ++ i ∷ [];
      })

-- The packet of the message as the `switch` leaves it.
unfoldable pub left_packet : ℕ → Packet → CdnRouter → Exec Packet
left_packet rx_interface p s = do
  packet_type ← get_octet packet_type_pos p.header
  (if packet_type == announcement
      then handle_announcement_packet rx_interface p s >>= (λ r. ok r.0)
      else ok p)

-- A message is handled; the header of its packet is the one that the port shares.
unfoldable pub handle_message : ℕ → Receiver → CdnThreads → Exec CdnThreads
unfolding left_packet
handle_message i r s = do
  router ← process i (message_packet r) s.router
  q ← left_packet i (message_packet r) s.router
  ok (record s {
    router = router;
    receivers =
        set s.receivers i
          (record r { port = record r.port { pkt = record r.port.pkt { header = q.header } } });
  })

-- `messageQueue.pop` and the `switch`, or `continue`.
unfoldable pub pop_from : List ℕ → CdnThreads → Exec CdnThreads
unfolding handle_message
pop_from [] s = ok s
pop_from (i ∷ rest) s = do
  r ← or_fault (get_elem? s.receivers i) overrun
  handle_message i r (record s { message_queue = rest })

unfoldable pub pop_message : CdnThreads → Exec CdnThreads
unfolding pop_from
pop_message s = pop_from s.message_queue s

-- A timer thread of the pending table ends its sleep.
unfoldable pub record_expires : ℕ → CdnThreads → CdnThreads
record_expires k s = record s {
  router = record s.router { pending_table = expire_record k s.router.pending_table };
}

pub data CdnStep : CdnThreads → CdnThreads → Type 0 where
  receives :
      {s t : CdnThreads} (new : Allocator) (i : ℕ) (dropped : Bool) (datagram : List ℕ)
      → rx_thread_func new i dropped datagram s ≡ ok t
      → CdnStep s t
  pops : {s t : CdnThreads} → pop_message s ≡ ok t → CdnStep s t
  expires : {s : CdnThreads} (k : ℕ) → CdnStep s (record_expires k s)

pub data CdnReach (s : CdnThreads) : CdnThreads → Type 0 where
  here : CdnReach s s
  next : {t u : CdnThreads} → CdnReach s t → CdnStep t u → CdnReach s u

-- `main` once its threads have started.
unfoldable pub cdn_started : List Receiver → CdnThreads
cdn_started receivers = record {
  router = record {
    num_interfaces = length receivers;
    routing_table = [];
    pending_table = [];
    sent = [];
  };
  receivers = receivers;
  message_queue = [];
}
