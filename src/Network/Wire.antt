-- ===== src/Network/Wire.antt =====
-- The two hosts from the wire on: the sender reads whatever frames libpcap gives it (handleRead of
-- helper/LibPcapHelper.cpp, over the decoder of libpcapcapture/packet.cpp), good or bad.
pub mod Examples
use mathlib.Core.Path.{subst}
use ip_ndn_stack_cpp.Prelude.{
  ℕ, ◌-◌, ◌<◌, ◌≡◌, sym, ap, ◌∙◌, ◌⊎◌, inl, inr, List, [], ◌∷◌, Bool, Option, none, some, All,
}
use ip_ndn_stack_cpp.Text.{Bytes, slash, Lacks}
use ip_ndn_stack_cpp.Word.{int_limit}
use ip_ndn_stack_cpp.Boost.{Boost}
use ip_ndn_stack_cpp.Tuple.{Memory, Tuple}
use ip_ndn_stack_cpp.Packet.Fields.{ip_dst, IsMemory}
use ip_ndn_stack_cpp.Packet.Accepts.{IsWhole}
use ip_ndn_stack_cpp.Ndn.State.{Ndn, Datagram}
use ip_ndn_stack_cpp.Ndn.Handlers.{Sockets, start}
use ip_ndn_stack_cpp.Capture.{Host, Poll, handle_read}
use ip_ndn_stack_cpp.Capture.Reads.{
  ip_of, IsOfWhole, decoded_tuple, decoded-IsFlow, decoded_cases, Deals, Idles, handle_read_cases,
}
use ip_ndn_stack_cpp.Network.{Forwarder, World, asks, brings, bytes_of, step}
use ip_ndn_stack_cpp.Network.Sender.{SoundSender, deal-SoundSender}
use ip_ndn_stack_cpp.Network.Runs.{IsGenuine, IsSound, step-IsSound, start-IsSound}

-- A read completes, with an error or with what libpcap answers, at a time and with a uuid at hand; or
-- an interest or a publication passes between the hosts, as `asks` and `brings` do.
pub data WireEvent : Type 0 where
  reads : Bool → Poll → Bytes → ℕ → Bytes → WireEvent
  interest_passes : ℕ → ℕ → WireEvent
  data_passes : ℕ → ℕ → WireEvent

module _ (forwarder : Forwarder) (boost : Boost) (sockets : Sockets) where
  unfoldable pub wire_step : World → WireEvent → World
  wire_step w (reads error poll err now uuid) = record w {
    sender = (handle_read error poll err now uuid w.sender).0;
  }
  wire_step w (interest_passes k j) = step forwarder boost sockets w (asks k j)
  wire_step w (data_passes k j) = step forwarder boost sockets w (brings k j)

  unfoldable pub wire_run : List WireEvent → World → World
  wire_run [] w = w
  wire_run (e ∷ es) w = wire_run es (wire_step w e)

-- `Seen` holds of the answers of libpcap; their frames are of bytes, and the uuids hold no slash.
abbrev pub Legible : (Poll → Type 0) → WireEvent → Type 0
Legible Seen (reads error poll err now uuid) =
    Seen poll
    × ((frame : Memory) → poll.packet ≡ some frame → IsMemory frame)
    × (poll.caplen < int_limit)
    × Lacks slash uuid
Legible Seen (interest_passes k j) = Unit {0}
Legible Seen (data_passes k j) = Unit {0}

-- A datagram is the bytes of a frame with an IPv4 packet whose headers are captured, from its IP
-- header on and 14 fewer than were captured, to the destination in that header.
pub record IsWired (Seen : Poll → Type 0) (d : Datagram) : Type 0 where
  pub poll : Poll
  pub seen : Seen poll
  pub frame : Memory
  pub there : poll.packet ≡ some frame
  pub whole : IsWhole frame poll.caplen
  pub buffer : d.buffer ≡ bytes_of (ip_of frame) (poll.caplen - 14)
  pub address : d.address ≡ ip_dst (ip_of frame)

-- A tuple that is of a frame, or has no content.
pub record FromWire (Seen : Poll → Type 0) (x : Bytes × Tuple) : Type 0 where
  pub poll : Poll
  pub seen : Seen poll
  pub frame : Memory
  pub there : poll.packet ≡ some frame
  pub content : (x.1.pkt ≡ none) ⊎ IsOfWhole poll frame x.1

same_memory : (a b : Memory) → ◌≡◌ {A = Option Memory} (some a) (some b) → a ≡ b
same_memory a b e = cc

module _ (Seen : Poll → Type 0) where
  genuine-IsWired : (d : Datagram) → IsGenuine (FromWire Seen) d → IsWired Seen d
  genuine-IsWired d g = by_content g.member.content
    where
      x : Tuple
      x = g.packet.1

      by_content : (x.pkt ≡ none) ⊎ IsOfWhole g.member.poll g.member.frame x → IsWired Seen d
      by_content (inl empty) = cc
      by_content (inr w) =
          let same = same_memory g.memory (ip_of g.member.frame) (sym g.pointer ∙ w.pointer) in
          record {
            poll = g.member.poll;
            seen = g.member.seen;
            frame = g.member.frame;
            there = g.member.there;
            whole = w.whole;
            buffer =
                g.buffer
                ∙ ap (λ m. bytes_of m x.ip_size) same
                ∙ ap (bytes_of (ip_of g.member.frame)) w.size;
            address = g.address ∙ w.address;
          }

  all-IsWired : (ds : List Datagram) → All (IsGenuine (FromWire Seen)) ds → All (IsWired Seen) ds
  all-IsWired [] h = tt
  all-IsWired (d ∷ ds) (hd, h) = (genuine-IsWired d hd, all-IsWired ds h)

  Idles-SoundSender :
      (h h' : Host) → Idles h h' → SoundSender (FromWire Seen) h → SoundSender (FromWire Seen) h'
  Idles-SoundSender h h' i s = record {
    distinct = rw i.sequence_table s.distinct;
    published = rw i.ndn s.published;
    announced = rw i.ndn s.announced;
  }

  Deals-SoundSender :
      (poll : Poll) (now : ℕ) (uuid : Bytes) (h h' : Host)
      → Deals poll now uuid h h'
      → Seen poll
      → ((frame : Memory) → poll.packet ≡ some frame → IsMemory frame)
      → poll.caplen < int_limit
      → Lacks slash uuid
      → SoundSender (FromWire Seen) h
      → SoundSender (FromWire Seen) h'
  Deals-SoundSender poll now uuid h h' d seen bytes lt lacks s =
      subst (SoundSender (FromWire Seen)) (sym d.dealt) (
        deal-SoundSender (FromWire Seen) uuid (decoded_tuple poll d.frame now h)
          (record h { globals = d.globals })
          (record {
            poll = poll;
            seen = seen;
            frame = d.frame;
            there = d.there;
            content = decoded_cases poll d.frame now h lt;
          })
          (record {
            fits = decoded-IsFlow poll d.frame now h (bytes d.frame d.there);
            uuid_slashless = lacks;
          })
          (record { distinct = s.distinct; published = s.published; announced = s.announced }))

  module _ (forwarder : Forwarder) (boost : Boost) (sockets : Sockets) where
    pub wire_step-IsSound :
        (e : WireEvent) (w : World)
        → Legible Seen e
        → IsSound (FromWire Seen) w
        → IsSound (FromWire Seen) (wire_step forwarder boost sockets w e)
    unfolding wire_step
    wire_step-IsSound (reads error poll err now uuid) w (seen, bytes, lt, lacks) h = record {
      sender = elim (handle_read_cases error poll err now uuid w.sender) [
        | inl i ↦ Idles-SoundSender w.sender _ i h.sender
        | inr d ↦ Deals-SoundSender poll now uuid w.sender _ d seen bytes lt lacks h.sender
      ];
      receiver = h.receiver;
    }
    wire_step-IsSound (interest_passes k j) w a h =
        step-IsSound forwarder boost sockets (FromWire Seen) (asks k j) w tt h
    wire_step-IsSound (data_passes k j) w a h =
        step-IsSound forwarder boost sockets (FromWire Seen) (brings k j) w tt h

    wire_run-IsSound :
        (es : List WireEvent) (w : World)
        → All (Legible Seen) es
        → IsSound (FromWire Seen) w
        → IsSound (FromWire Seen) (wire_run forwarder boost sockets es w)
    unfolding wire_run
    wire_run-IsSound [] w a h = h
    wire_run-IsSound (e ∷ es) w (ae, a) h =
        wire_run-IsSound es (wire_step forwarder boost sockets w e) a (wire_step-IsSound e w ae h)

    -- Let the sender start with an empty sequence table and empty logs, and the receiver with empty
    -- logs and the filters that `start` sets, whichever the face accepts. Let the sender read any
    -- frames, whole, cut short or malformed, time out and fail, in any order with the interests and
    -- the data that pass, which may be late, repeated, lost or matched by a prefix of their names.
    -- Then whatever the receiver sends comes from a frame that libpcap gave to the sender and that
    -- holds an IPv4 packet, its IP and transport headers captured whole and its header sum right. It
    -- is the bytes of that frame's memory from the IP header on, 14 fewer than were captured, which
    -- behind a VLAN header end four bytes past the captured ones, and it goes to the destination in
    -- the IP header. `Seen` holds of the answers of libpcap, their frames are of bytes, captured
    -- lengths are below 2^31, and the uuids hold no slash.
    pub wire_run-IsWired :
        (accepts : Bytes → Bool) (es : List WireEvent) (h : Host) (s : Ndn)
        → h.sequence_table ≡ []
        → (h.ndn.published ≡ []) × (h.ndn.expressed ≡ [])
        → (s.expressed ≡ []) × (s.filters ≡ []) × (s.sent ≡ [])
        → All (Legible Seen) es
        → All
            (IsWired Seen)
            (wire_run forwarder boost sockets es
              (record { sender = h; receiver = start accepts s })).receiver.sent
    wire_run-IsWired accepts es h s table empty idle a =
        all-IsWired _
          (wire_run-IsSound es (record { sender = h; receiver = start accepts s }) a
            (start-IsSound forwarder boost sockets (FromWire Seen) accepts h s table empty
              idle)).receiver.genuine
