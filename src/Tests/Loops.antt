-- ===== src/Tests/Loops.antt =====
-- A router of Ambitious Version with two interfaces, from a datagram to the stored route.
use communication_network.Base.{
  ℕ, ◌≡◌, ◌≢◌, ◌⊎◌, refl, List, [], ◌∷◌, false, ok, fault, overrun, out_of_range,
}
use communication_network.Wire.Header.{get_octet, set_octet}
use communication_network.Wire.Packet.{
  send_packet, receive_packet, extract_header, receive_from, fill_payload, make_packet,
}
use communication_network.Wire.Make.{announcement}
use communication_network.Ambitious.Routing.{
  fresh_route, note_announcement, update_routing_table, insert_into_routing_table,
  reuse_existing_invalid_route,
}
use communication_network.Ambitious.Main.{
  process, handle_announcement_packet, send_to_all, send_through,
}
use communication_network.Ambitious.Loop.{
  CdnThreads, rx_thread_func, left_packet, handle_message, pop_from, pop_message, record_expires,
  receives, pops, expires, CdnReach, here, next, cdn_started,
}
use communication_network.Ambitious.Serving.{Serves, loop_keeps_serving}
use communication_network.Tests.Values.{heard_thread, two_threads, thread, zeroed}

abbrev heard : CdnThreads
heard = record {
  router = record { num_interfaces = 2; routing_table = []; pending_table = []; sent = [] };
  receivers = thread 0 0 0 0 ∷ heard_thread 0 3 ∷ [];
  message_queue = 1 ∷ [];
}

abbrev announced : List ℕ
announced = 4 ∷ announcement ∷ 7 ∷ 1 ∷ 0 ∷ []

abbrev served : CdnThreads
served = record {
  router = record {
    num_interfaces = 2;
    routing_table = fresh_route 7 0 1 ∷ [];
    pending_table = [];
    sent = (0, announced) ∷ (1, announced) ∷ [];
  };
  receivers = thread 0 0 0 0 ∷ heard_thread 1 4 ∷ [];
  message_queue = [];
}

hears :
    rx_thread_func zeroed 1 false (3 ∷ announcement ∷ 7 ∷ 0 ∷ []) (cdn_started two_threads)
    ≡ ok heard
unfolding rx_thread_func cdn_started receive_packet extract_header receive_from fill_payload
hears = refl

serves : pop_message heard ≡ ok served
unfolding pop_message pop_from handle_message left_packet process handle_announcement_packet
    send_to_all send_through send_packet make_packet get_octet set_octet note_announcement
    update_routing_table insert_into_routing_table reuse_existing_invalid_route
serves = refl

reached : CdnReach (cdn_started two_threads) (record_expires 0 served)
reached = next (next (next here (receives zeroed 1 false _ hears)) (pops serves)) (expires 0)

loop_keeps_serving_example :
    Serves 2 (record_expires 0 served)
    × (pop_message (record_expires 0 served) ≢ fault out_of_range)
    × ((pop_message (record_expires 0 served) ≡ fault overrun)
        ⊎ ((t : CdnThreads) × (pop_message (record_expires 0 served) ≡ ok t)))
loop_keeps_serving_example = loop_keeps_serving two_threads reached
