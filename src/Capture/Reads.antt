-- ===== src/Capture/Reads.antt =====
-- What one completed read (handleRead of helper/LibPcapHelper.cpp) does to a host, whatever libpcap
-- answers: it leaves the host's NDN side alone, or it deals with the tuple of the frame.
use ip_ndn_stack_cpp.Prelude.{
  ℕ, ◌-◌, ◌<◌, ◌≤◌, ◌≡◌, ◌≢◌, refl, ap, ◌⊎◌, inl, inr, Bool, true, false, Option, none, some, ltb,
  Bool-cases, arith, ◌==◌,
}
use ip_ndn_stack_cpp.Text.{Bytes}
use ip_ndn_stack_cpp.Word.{int_limit}
use ip_ndn_stack_cpp.Tuple.{Memory, Tuple}
use ip_ndn_stack_cpp.Naming.Injective.{IsFlow}
use ip_ndn_stack_cpp.Packet.Fields.{offset, ip_dst, IsMemory}
use ip_ndn_stack_cpp.Packet.Stat.{Status, valid, Globals}
use ip_ndn_stack_cpp.Packet.Decode.{frame_status, is_valid, decode, read_key}
use ip_ndn_stack_cpp.Packet.Accepts.{header_len, IsWhole, frame_status-valid}
use ip_ndn_stack_cpp.Packet.Results.{
  IsTuple, accepted_tuple, decode-accepted, decode-rejected, decode-IsTuple,
}
use ip_ndn_stack_cpp.Capture.{
  Host, Poll, is_negative, new_tuple, read_packet, read_next_packet_after_decode, deal, deal_read,
  handle_read,
}
use ip_ndn_stack_cpp.Capture.Numbering.{flow_of}

-- Where the IP packet of a frame starts.
abbrev pub ip_of : Memory → Memory
ip_of frame = offset frame (header_len frame)

-- What a tuple says of the frame with a whole packet that it was read from.
pub record IsOfWhole (poll : Poll) (frame : Memory) (t : Tuple) : Type 0 where
  pub whole : IsWhole frame poll.caplen
  pub pointer : t.pkt ≡ some (ip_of frame)
  pub size : t.ip_size ≡ poll.caplen - 14
  pub address : t.key.dst_ip ≡ ip_dst (ip_of frame)

abbrev pub decoded_tuple : Poll → Memory → ℕ → Host → Tuple
decoded_tuple poll frame now h = (decode frame poll.caplen poll.len now new_tuple h.globals).1

pub new_tuple-IsTuple : IsTuple new_tuple
new_tuple-IsTuple = record {
  src_ip_fits = omega arith;
  dst_ip_fits = omega arith;
  src_port_fits = omega arith;
  dst_port_fits = omega arith;
  proto_fits = omega arith;
  size_fits = omega arith;
  ip_size_fits = omega arith;
}

pub tuple-IsFlow : (t : Tuple) → IsTuple t → IsFlow (flow_of t)
tuple-IsFlow t i = record {
  src_ip_fits = i.src_ip_fits;
  dst_ip_fits = i.dst_ip_fits;
  src_port_fits = i.src_port_fits;
  dst_port_fits = i.dst_port_fits;
}

pub decoded-IsFlow :
    (poll : Poll) (frame : Memory) (now : ℕ) (h : Host)
    → IsMemory frame
    → IsFlow (flow_of (decoded_tuple poll frame now h))
decoded-IsFlow poll frame now h bytes =
    tuple-IsFlow (decoded_tuple poll frame now h)
      (decode-IsTuple frame poll.caplen poll.len now new_tuple h.globals bytes new_tuple-IsTuple)

is_valid-valid : (st : Status) → is_valid st ≡ true → st ≡ valid
is_valid-valid st h = ground arith

is_valid-ne_valid : (st : Status) → is_valid st ≡ false → st ≢ valid
is_valid-ne_valid st h = ground arith

whole_long : (frame : Memory) (cap_len : ℕ) → IsWhole frame cap_len → 14 ≤ cap_len
whole_long frame cap_len w = ground (arith, w.captured)

accepted-IsOfWhole :
    (poll : Poll) (frame : Memory) (now : ℕ) (h : Host)
    → poll.caplen < int_limit
    → IsWhole frame poll.caplen
    → IsOfWhole poll frame (accepted_tuple frame (ip_of frame) poll.caplen now new_tuple h.globals)
unfolding read_key
accepted-IsOfWhole poll frame now h lt w =
    let long = whole_long frame poll.caplen w in
    record { whole = w; pointer = refl; size = omega arith; address = refl }

-- A decoded tuple has no content, or it is of a frame with a whole packet.
pub decoded_cases :
    (poll : Poll) (frame : Memory) (now : ℕ) (h : Host)
    → poll.caplen < int_limit
    → ((decoded_tuple poll frame now h).pkt ≡ none)
      ⊎ IsOfWhole poll frame (decoded_tuple poll frame now h)
decoded_cases poll frame now h lt =
    elim (Bool-cases (is_valid (frame_status frame poll.caplen).1)) [
      | inl good ↦
          let e = is_valid-valid _ good in
          inr (
            rw (decode-accepted frame poll.caplen poll.len now new_tuple h.globals e) (
              accepted-IsOfWhole poll frame now h lt
                ((frame_status-valid frame poll.caplen lt).0 e)))
      | inr bad ↦ inl (
          ap (λ (t : Tuple). t.pkt)
            (decode-rejected frame poll.caplen poll.len now new_tuple h.globals
              (is_valid-ne_valid _ bad)))
    ]

-- The tuple of a frame is dealt with, among what the decoder counts.
pub record Deals (poll : Poll) (now : ℕ) (uuid : Bytes) (h h' : Host) : Type 0 where
  pub frame : Memory
  pub globals : Globals
  pub there : poll.packet ≡ some frame
  pub dealt : h' ≡ deal uuid (decoded_tuple poll frame now h) (record h { globals = globals })

-- The NDN side and the sequence table stay as they are.
pub record Idles (h h' : Host) : Type 0 where
  pub ndn : h'.ndn ≡ h.ndn
  pub sequence_table : h'.sequence_table ≡ h.sequence_table

packet_cases :
    (poll : Poll) (o : Option Memory) (err : Bytes) (now : ℕ) (h : Host)
    → ((read_packet poll o err now h.globals).0.0 ≡ none)
      ⊎ ((frame : Memory) × (o ≡ some frame)
          × ((read_packet poll o err now h.globals).0.0 ≡ some (decoded_tuple poll frame now h)))
unfolding read_packet
packet_cases poll none err now h = inl refl
packet_cases poll (some frame) err now h = elim (Bool-cases (is_negative poll.ret)) [
  | inl failed ↦ inl (rw failed refl)
  | inr good ↦ elim (Bool-cases (poll.ret == 0)) [
    | inl late ↦ inl (rw (good, late) refl)
    | inr there ↦ inr (frame, refl, rw (good, there) refl)
  ]
]

small_cases :
    (poll : Poll) (now : ℕ) (uuid : Bytes) (frame : Memory) (h : Host) (g : Globals)
    → poll.packet ≡ some frame
    → Idles h (deal_read uuid (some (decoded_tuple poll frame now h)) (record h { globals = g }))
      ⊎ Deals poll now uuid h
          (deal_read uuid (some (decoded_tuple poll frame now h)) (record h { globals = g }))
unfolding deal_read
small_cases poll now uuid frame h g e =
    elim (Bool-cases (ltb (decoded_tuple poll frame now h).ip_size 8600)) [
      | inl small ↦ rw small (inr (record { frame = frame; globals = g; there = e; dealt = refl }))
      | inr large ↦ rw large (inl (record { ndn = refl; sequence_table = refl }))
    ]

pub handle_read_cases :
    (error : Bool) (poll : Poll) (err : Bytes) (now : ℕ) (uuid : Bytes) (h : Host)
    → Idles h (handle_read error poll err now uuid h).0
      ⊎ Deals poll now uuid h (handle_read error poll err now uuid h).0
unfolding handle_read read_next_packet_after_decode deal_read
handle_read_cases true poll err now uuid h = inl (record { ndn = refl; sequence_table = refl })
handle_read_cases false poll err now uuid h = elim (packet_cases poll poll.packet err now h) [
  | inl nothing ↦ rw nothing (inl (record { ndn = refl; sequence_table = refl }))
  | inr (frame, there, some_tuple) ↦ rw some_tuple (small_cases poll now uuid frame h _ there)
]
