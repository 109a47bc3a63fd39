-- ===== src/Capture/Loop.antt =====
-- The event loop of LibPcapHelper (helper/LibPcapHelper.cpp): the wait for a read, start, close and
-- handleError, over the answers that the capture socket and libpcap give, in order.
pub mod Decoder
pub mod Deals
pub mod Order
pub mod Alike
use ip_ndn_stack_cpp.Prelude.{
  ℕ, suc, ◌+◌, ◌≤◌, ◌<◌, length, map, ◌≡◌, refl, sym, ap, ◌∙◌, List, [], ◌∷◌, ◌++◌, Bool, true,
  false, Option, none, some, not, ltb, arith, Bool-cases, inl, inr, if◌then◌else◌,
}
use ip_ndn_stack_cpp.Text.{Bytes}
use ip_ndn_stack_cpp.Word.{int_limit}
use ip_ndn_stack_cpp.Tuple.{Tuple}
use ip_ndn_stack_cpp.Ndn.State.{Ndn, Publication}
use ip_ndn_stack_cpp.Packet.Stat.{Globals}
use ip_ndn_stack_cpp.Device
use ip_ndn_stack_cpp.Capture.{
  Host, Poll, read_next_packet_after_decode, deal, deal_first, deal_next, deal_other, announce_next,
  publish, deal_read, handle_read,
}
use ip_ndn_stack_cpp.Naming.Injective.{flow_key}
use ip_ndn_stack_cpp.Table.{Table, get, save}
use ip_ndn_stack_cpp.Capture.Numbering.{flow_of, is_flow}
use ip_ndn_stack_cpp.Capture.Fresh.{
  deal_all, published_names, expected_names, deal_all-names, empty-Counts,
}

-- The end of a wait: whether asio reports an error, and what the calls that follow would give.
pub record Completion : Type 0 where
  pub error : Bool
  pub poll : Poll
  pub last_error : Bytes
  pub now : ℕ
  pub uuid : Bytes

-- `socket_open` is `m_socket.is_open()`, `waiting` that a read is waited for, and `device` is
-- `mPcap`.
pub record Capturer : Type 0 where
  pub host : Host
  pub socket_open : Bool
  pub waiting : Bool
  pub device : Device.Device

unfoldable pub async_read : Capturer → Capturer
async_read c = record c { waiting = true }

-- The handler of a completed wait: it waits again as its last step, if it comes there.
unfoldable pub complete : Completion → Capturer → Capturer
unfolding async_read
complete e c =
    let (host, again) = handle_read e.error e.poll e.last_error e.now e.uuid c.host in
    let c' = record c { host = host; waiting = false } in if again then async_read c' else c'

-- start: the service runs handlers while something is waited for.
unfoldable pub start : List Completion → Capturer → Capturer
start [] c = c
start (e ∷ es) c = let rest = start es (complete e c) in if c.waiting then rest else c

-- close; the wait that it cancels completes with an error, which handle_read leaves at once.
unfoldable pub close : Capturer → Capturer
close c = record c {
  socket_open = false;
  waiting = if c.socket_open then false else c.waiting;
  device = Device.close c.device;
}

unfoldable pub handle_error : Bytes → Capturer → Capturer
unfolding close
handle_error message c = close c

-- The completions up to the first one with an error.
unfoldable pub before_error : List Completion → List Completion
before_error [] = []
before_error (e ∷ es) = if e.error then [] else e ∷ before_error es

abbrev pub no_error : List Completion → Bool
no_error [] = true
no_error (e ∷ es) = if e.error then false else no_error es

-- The tuples that the frames give, in order, with their uuids, and what decoding leaves in the globals;
-- those of 8600 bytes or more are left out.
unfoldable pub kept_packet : Bytes → Option Tuple → List (Bytes × Tuple) → List (Bytes × Tuple)
kept_packet uuid none rest = rest
kept_packet uuid (some t) rest = if ltb t.ip_size 8600 then (uuid, t) ∷ rest else rest

unfoldable pub captured : List Completion → Globals → List (Bytes × Tuple)
unfolding kept_packet
captured [] g = []
captured (e ∷ es) g =
    let (res, g') = read_next_packet_after_decode e.poll e.last_error e.now g in
    kept_packet e.uuid res.0 (captured es g')

unfoldable pub globals_after : List Completion → Globals → Globals
globals_after [] g = g
globals_after (e ∷ es) g =
    globals_after es (read_next_packet_after_decode e.poll e.last_error e.now g).1
