-- ===== src/Network/Serving.antt =====
-- The event loop of the face on the receiving host (the end of NDNHelper::start in
-- helper/NDNHelper.cpp), which dealNDN (main.cpp) runs in a thread of its own. The loop calls a handler
-- for each interest and each data. An exception of a handler leaves the loop, `start` and the thread,
-- outside of the try block of main, so that the process is terminated. Reading past the end of a vector
-- is undefined.
pub mod Timely
pub mod Faultless
pub mod Stray
pub mod Overflow
pub mod Examples
use ip_ndn_stack_cpp.Prelude.{ℕ, List, [], ◌∷◌, Option, none, some, get_elem?, if◌then◌else◌}
use ip_ndn_stack_cpp.Text.{Bytes}
use ip_ndn_stack_cpp.Boost.{Boost}
use ip_ndn_stack_cpp.Tuple.{Memory}
use ip_ndn_stack_cpp.Capture.{handle_read}
use ip_ndn_stack_cpp.Network.Wire.{WireEvent, reads, interest_passes, data_passes}
use ip_ndn_stack_cpp.Ndn.State.{
  Ndn, Request, Publication, Filter, M, Outcome, returns, throws, out_of_range, pure,
}
use ip_ndn_stack_cpp.Ndn.Handlers.{Sockets, on_interest, on_data}
use ip_ndn_stack_cpp.Network.{Forwarder, World, bytes_of}

-- What reaches the hosts: an event of the two of them, or an interest with a name of anyone's choice,
-- for the filter at a place of the receiver's.
pub data Arrival : Type 0 where
  regular : WireEvent → Arrival
  stray : Bytes → ℕ → Arrival

-- The receiver goes on to serve, was terminated by an exception, or did what is undefined; and the
-- world by then.
pub data Fate : Type 0 where
  serving : World → Fate
  terminated : World → Fate
  undefined : World → Fate

abbrev pub with_receiver : World → Outcome (Unit {0}) × Ndn → Outcome (Unit {0}) × World
with_receiver w (o, s) = (o, record w { receiver = s })

abbrev pub go_on : (World → Fate) → Outcome (Unit {0}) × World → Fate
go_on k (returns u, w) = k w
go_on k (throws e, w) = terminated w
go_on k (out_of_range, w) = undefined w

module _ (forwarder : Forwarder) (boost : Boost) (sockets : Sockets) where
  -- The face calls the callback of a filter that the name matches.
  unfoldable pub call_filter : Bytes → Option Filter → M (Unit {0})
  call_filter name none = pure tt
  call_filter name (some f) =
      if forwarder.matches f.prefix name then on_interest boost name f.pre f.tcp else pure tt

  unfoldable pub call_on_interest : Option Request → Option Filter → M (Unit {0})
  unfolding call_filter
  call_on_interest none f = pure tt
  call_on_interest (some r) f = call_filter r.name f

  -- The face calls the callback of an interest that the data matches.
  unfoldable pub call_with_content : Request → Publication → Option Memory → M (Unit {0})
  call_with_content r p none = pure tt
  call_with_content r p (some m) =
      if forwarder.matches r.name p.name
      then on_data sockets boost p.name (bytes_of m p.size) r.is_pre r.is_tcp
      else pure tt

  unfoldable pub call_on_data : Option Request → Option Publication → M (Unit {0})
  unfolding call_with_content
  call_on_data none p = pure tt
  call_on_data (some r) none = pure tt
  call_on_data (some r) (some p) = call_with_content r p p.pkt

  -- An event, and how the handler that it calls ends.
  unfoldable pub handle : World → Arrival → Outcome (Unit {0}) × World
  unfolding call_filter call_on_interest call_on_data
  handle w (regular (reads error poll err now uuid)) =
      (returns tt, record w { sender = (handle_read error poll err now uuid w.sender).0 })
  handle w (regular (interest_passes k j)) = with_receiver w (
      call_on_interest (get_elem? w.sender.ndn.expressed k) (get_elem? w.receiver.filters j)
        w.receiver)
  handle w (regular (data_passes k j)) = with_receiver w (
      call_on_data (get_elem? w.receiver.expressed k) (get_elem? w.sender.ndn.published j)
        w.receiver)
  handle w (stray name j) =
      with_receiver w (call_filter name (get_elem? w.receiver.filters j) w.receiver)

  -- The loop of processEvents, until a handler does not return.
  unfoldable pub process_events : List Arrival → World → Fate
  process_events [] w = serving w
  process_events (a ∷ rest) w = go_on (process_events rest) (handle w a)
