-- ===== src/Tests/Senders.antt =====
-- The first host program on concrete contents.
use communication_network.Base.{
  ℕ, ◌≡◌, refl, pos, List, [], ◌∷◌, ◌++◌, Option, some, true, ok, fault, overrun, leb, arith,
  length, if◌then◌else◌,
}
use communication_network.Wire.Packet.{ReceivingPort, receive_packet}
use communication_network.Host.State.{FileName, Host, fn_generator}
use communication_network.Host.Retrying.{booted}
use communication_network.Sender.Threads.{bcast_cids, send_data, rx_data}
use communication_network.Sender.Announcing.{growing, bcast_cids_lem}
use communication_network.Sender.Misfiled.{data_datagram, response_is_misfiled}
use communication_network.Tests.Values.{zeros, zeroed, port, port-IsReady}

abbrev same_text : FileName → Option (List ℕ)
same_text f = some (104 ∷ 105 ∷ [])

abbrev sender : Host
sender = record (booted (pos 1) same_text true) { list1 = pos 7 ∷ pos 8 ∷ pos 9 ∷ pos 10 ∷ [] }

bcast_cids_lem_example :
    (x : ℕ) × (y : ℕ) × (bcast_cids zeroed sender ≡ (
      if leb (length sender.list1) 3
      then ok (record sender { sent = sender.sent ++ growing x y 2 sender.list1 })
      else fault overrun))
bcast_cids_lem_example = bcast_cids_lem zeroed sender

-- Content 7 goes to the file of content 0, whose number the port read before.
response_is_misfiled_example :
    (got : ReceivingPort) × (u : Host) × (send_data zeroed 7 sender
      ≡ ok (record sender { sent = sender.sent ++ data_datagram (104 ∷ 105 ∷ []) ∷ [] }))
    × (receive_packet zeroed (data_datagram (104 ∷ 105 ∷ [])) port ≡ ok got)
    × (rx_data zeroed got.pkt sender ≡ ok u)
    × (u.files (fn_generator (pos 0) true) ≡ some (104 ∷ 105 ∷ 255 ∷ []))
    × (u.ackflag ≡ true)
    × (u.sent ≡ sender.sent)
unfolding zeros
response_is_misfiled_example =
    response_is_misfiled zeroed zeroed 7 0 (104 ∷ 105 ∷ []) [] sender sender port
      (fn_generator (pos 0) true) refl (omega arith) (omega arith, (omega arith, tt)) port-IsReady
      refl refl
