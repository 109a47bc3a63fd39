-- ===== src/Capture/Turns.antt =====
-- The two threads of one host, which take turns: the service of the capture (helper/LibPcapHelper.cpp)
-- and the handlers of NDNHelper (helper/NDNHelper.cpp). A handler that throws has its turn up to there.
pub mod Capturing
pub mod Sending
pub mod Examples
use ip_ndn_stack_cpp.Prelude.{
  ℕ, ◌<◌, length, map, ◌≡◌, refl, sym, ap, ◌∙◌, List, [], ◌∷◌, ◌++◌, Bool, true, false, Option,
  none, some, Bool-cases, inl, inr, if◌then◌else◌, get_elem?,
}
use mathlib.Core.Path.{subst}
use ip_ndn_stack_cpp.Text.{Bytes, slash}
use ip_ndn_stack_cpp.Boost.{Boost}
use ip_ndn_stack_cpp.Ndn.State.{Ndn, Publication, ◌>>=◌, update, pure, from_field}
use ip_ndn_stack_cpp.Ndn.Handlers.{Sockets, on_interest, on_data, deal_on_data, send_packet_to}
use ip_ndn_stack_cpp.Ndn.Logs.{on_interest-Asks}
use ip_ndn_stack_cpp.Packet.Stat.{Globals}
use ip_ndn_stack_cpp.Capture.{Host, read_next_packet_after_decode, deal_read}
use ip_ndn_stack_cpp.Word.{int_limit}
use ip_ndn_stack_cpp.Capture.Fresh.{published_names, expected_names}
use ip_ndn_stack_cpp.Capture.Loop.{Completion, Capturer, complete, start, before_error, captured}
use ip_ndn_stack_cpp.Capture.Loop.Deals.{
  start-stopped, start-next, complete-read, complete-error, read_done, start-publishes,
}
use ip_ndn_stack_cpp.Capture.Loop.Alike.{IsAlike, deal_read-IsAlike}

-- Whose turn it is: a read completes, an interest reaches one of the filters, or data comes back.
pub data Turn : Type 0 where
  read_completes : Completion → Turn
  interest_arrives : Bytes → Bool → Bool → Turn
  data_arrives : Bytes → Bytes → Bool → Bool → Turn

-- The reads among the turns.
unfoldable pub reads_of : List Turn → List Completion
reads_of [] = []
reads_of (read_completes e ∷ ts) = e ∷ reads_of ts
reads_of (interest_arrives name pre tcp ∷ ts) = reads_of ts
reads_of (data_arrives name content pre tcp ∷ ts) = reads_of ts

-- A read that completes while none is waited for cannot be.
unfoldable pub read_turn : Completion → Capturer → Capturer
read_turn e c = if c.waiting then complete e c else c

abbrev pub with_ndn : Ndn → Capturer → Capturer
with_ndn s c = record c { host = record c.host { ndn = s } }

module _ (sockets : Sockets) (boost : Boost) where
  -- What a turn does to the NDN side by its handlers.
  unfoldable pub handler_turn : Turn → Ndn → Ndn
  handler_turn (read_completes e) s = s
  handler_turn (interest_arrives name pre tcp) s = (on_interest boost name pre tcp s).1
  handler_turn (data_arrives name content pre tcp) s =
      (on_data sockets boost name content pre tcp s).1

  unfoldable pub take_turn : Turn → Capturer → Capturer
  unfolding handler_turn
  take_turn (read_completes e) c = read_turn e c
  take_turn (interest_arrives name pre tcp) c =
      with_ndn (handler_turn (interest_arrives name pre tcp) c.host.ndn) c
  take_turn (data_arrives name content pre tcp) c =
      with_ndn (handler_turn (data_arrives name content pre tcp) c.host.ndn) c

  unfoldable pub take_turns : List Turn → Capturer → Capturer
  take_turns [] c = c
  take_turns (t ∷ ts) c = take_turns ts (take_turn t c)

  -- The handlers of the turns alone.
  unfoldable pub handler_turns : List Turn → Ndn → Ndn
  handler_turns [] s = s
  handler_turns (t ∷ ts) s = handler_turns ts (handler_turn t s)
