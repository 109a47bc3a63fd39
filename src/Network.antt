-- ===== src/Network.antt =====
-- Two hosts and the network between them: one captures packets, publishes and announces them
-- (helper/LibPcapHelper.cpp); the other has the filters that NDNHelper::start set, answers
-- announcements, and sends on what comes back (helper/NDNHelper.cpp). A run is any sequence of events:
-- announcements and data may come late, twice, out of order or not at all.
pub mod Kinds
pub mod Sender
pub mod Receiver
pub mod Runs
pub mod Delivered
pub mod Frames
pub mod Wire
pub mod Guessed
pub mod Serving
pub mod Examples
use ip_ndn_stack_cpp.Prelude.{
  ℕ, zero, suc, ◌≡◌, ◌++◌, List, [], ◌∷◌, Bool, true, Option, none, some, get_elem?, if◌then◌else◌,
}
use ip_ndn_stack_cpp.Text.{Bytes}
use ip_ndn_stack_cpp.Boost.{Boost}
use ip_ndn_stack_cpp.Tuple.{Memory, Tuple}
use ip_ndn_stack_cpp.Packet.Fields.{offset}
use ip_ndn_stack_cpp.Ndn.State.{Ndn, Request, Publication, Filter}
use ip_ndn_stack_cpp.Ndn.Handlers.{Sockets, on_interest, on_data}
use ip_ndn_stack_cpp.Capture.{Host, deal}

-- NDN matches a name against a prefix of it: an interest against a filter, and data against an
-- interest that may be a prefix.
pub record Forwarder : Type 0 where
  pub matches : Bytes → Bytes → Bool
  pub matches-extends :
      (prefix name : Bytes) → matches prefix name ≡ true → (rest : Bytes) × (name ≡ prefix ++ rest)
  pub matches_self : (name : Bytes) → matches name name ≡ true

pub record World : Type 0 where
  pub sender : Host
  pub receiver : Ndn

-- The sender captures a packet, with the uuid that it would get; an interest that the sender
-- expressed reaches a filter of the receiver; or a publication of the sender comes back for an
-- interest that the receiver expressed, within its lifetime. The numbers are places in the logs.
pub data Event : Type 0 where
  captures : Bytes → Tuple → Event
  asks : ℕ → ℕ → Event
  brings : ℕ → ℕ → Event

-- The content that is copied from memory.
unfoldable pub bytes_of : Memory → ℕ → Bytes
bytes_of m zero = []
bytes_of m (suc size) = m 0 ∷ bytes_of (offset m 1) size

module _ (forwarder : Forwarder) (boost : Boost) (sockets : Sockets) where
  unfoldable pub hear : Option Request → Option Filter → Ndn → Ndn
  hear none f s = s
  hear (some r) none s = s
  hear (some r) (some f) s =
      if forwarder.matches f.prefix r.name then (on_interest boost r.name f.pre f.tcp s).1 else s

  -- No data can be made of the null pointer.
  unfoldable pub receive_content : Request → Publication → Option Memory → Ndn → Ndn
  receive_content r p none s = s
  receive_content r p (some m) s =
      if forwarder.matches r.name p.name
      then (on_data sockets boost p.name (bytes_of m p.size) r.is_pre r.is_tcp s).1
      else s

  unfoldable pub receive : Option Request → Option Publication → Ndn → Ndn
  unfolding receive_content
  receive none p s = s
  receive (some r) none s = s
  receive (some r) (some p) s = receive_content r p p.pkt s

  unfoldable pub step : World → Event → World
  unfolding hear receive
  step w (captures uuid t) = record w { sender = deal uuid t w.sender }
  step w (asks k j) = record w {
    receiver =
        hear (get_elem? w.sender.ndn.expressed k) (get_elem? w.receiver.filters j) w.receiver;
  }
  step w (brings k j) = record w {
    receiver =
        receive (get_elem? w.receiver.expressed k) (get_elem? w.sender.ndn.published j) w.receiver;
  }

  unfoldable pub run : List Event → World → World
  run [] w = w
  run (e ∷ es) w = run es (step w e)
