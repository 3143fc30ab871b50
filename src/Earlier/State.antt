-- ===== src/Earlier/State.antt =====
-- What the threads of simple_router.cpp share, and what each has of its own. A thread has the port of
-- one interface; the ports to send through, and the trace of what was sent, are shared.
use communication_network.Base.{
  ℕ, List, [], ◌∷◌, ◌++◌, Exec, ok, out_of_range, guard, ◌>>◌, ◌>>=◌, ltb,
}
use communication_network.Wire.Packet.{Packet, ReceivingPort, send_packet}
use communication_network.Earlier.Tables.{RtRecord, PrtRecord}

-- What a thread still has to do under a lock.
pub data Change : Type 0 where
  add_pending : PrtRecord → Change
  keep_pending : ℕ → ℕ → Change
  drop_pending : ℕ → ℕ → Change
  add_route : RtRecord → Change
  keep_route : ℕ → ℕ → Change
  no_change : Change

-- Where a thread stands in its loop.
pub data Stage : Type 0 where
  waiting taken has_pendings has_routes : Stage
  changing : Change → Stage

pub record RxThread : Type 0 where
  pub port : ReceivingPort
  pub rt_local : List RtRecord
  pub prt_local : List PrtRecord
  pub stage : Stage

pub record Shared : Type 0 where
  pub num_interfaces : ℕ
  pub routing_table : List RtRecord
  pub pending_table : List PrtRecord
  pub sent : List (ℕ × List ℕ)

-- `MySendingPorts.at(i)->sendPacket(p)`.
unfoldable pub send_at : ℕ → Packet → Shared → Exec Shared
send_at i p s = do
  guard (ltb i s.num_interfaces) out_of_range
  bytes ← send_packet p
  ok (record s { sent = s.sent ++ (i, bytes) ∷ [] })
