-- ===== src/Network/Runs.antt =====
-- Every run of the two hosts keeps their logs sound, so that nothing is sent but captured packets, to
-- their destinations.
mod Sound
unfoldable pub use Sound.*
use ip_ndn_stack_cpp.Prelude.{◌≡◌, List, [], Bool, All}
use ip_ndn_stack_cpp.Text.{Bytes}
use ip_ndn_stack_cpp.Boost.{Boost}
use ip_ndn_stack_cpp.Tuple.{Tuple}
use ip_ndn_stack_cpp.Ndn.State.{Ndn}
use ip_ndn_stack_cpp.Ndn.Handlers.{Sockets, start}
use ip_ndn_stack_cpp.Capture.{Host}
use ip_ndn_stack_cpp.Network.{Forwarder, Event, run}

module _ (forwarder : Forwarder) (boost : Boost) (sockets : Sockets)
    (Captured : Bytes × Tuple → Type 0) where
  -- Let the sender start with an empty sequence table and empty logs, and the receiver with empty
  -- logs and the filters that `start` sets, whichever the face accepts. Then in every run, with
  -- interests and data late, repeated, out of order, lost, or matched by a prefix of their names,
  -- whatever the receiver sends is the bytes of a packet that the sender captured, from its IP header
  -- on and of its IP length, to the packet's destination. Of the captured packets
  -- `Captured` holds, their fields hold what their C types hold, and their uuids hold no slash.
  pub run-IsGenuine :
      (accepts : Bytes → Bool) (es : List Event) (h : Host) (s : Ndn)
      → h.sequence_table ≡ []
      → (h.ndn.published ≡ []) × (h.ndn.expressed ≡ [])
      → (s.expressed ≡ []) × (s.filters ≡ []) × (s.sent ≡ [])
      → All (Among Captured) es
      → All
          (IsGenuine Captured)
          (run forwarder boost sockets es
            (record { sender = h; receiver = start accepts s })).receiver.sent
  run-IsGenuine accepts es h s table empty idle a =
      (run-IsSound forwarder boost sockets Captured es
        (record { sender = h; receiver = start accepts s }) a
        (start-IsSound forwarder boost sockets Captured accepts h s table empty
          idle)).receiver.genuine
