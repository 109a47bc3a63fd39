-- ===== src/Capture/Rejected.antt =====
-- The frames that handleRead leaves aside, and those that it should.
use ip_ndn_stack_cpp.Prelude.{
  ℕ, ◌+◌, ◌-◌, ◌%◌, ◌<◌, ◌≤◌, ◌≡◌, refl, ◌⊎◌, [], true, false, some, arith, ltb,
}
use ip_ndn_stack_cpp.Text.{Bytes}
use ip_ndn_stack_cpp.Word.{int_limit, u32_mod}
use ip_ndn_stack_cpp.Tuple.{Memory, Tuple}
use ip_ndn_stack_cpp.Packet.Stat.{Globals}
use ip_ndn_stack_cpp.Packet.Fields.{load16}
use ip_ndn_stack_cpp.Packet.Decode.{decode}
use ip_ndn_stack_cpp.Packet.Results.{decode-size}
use ip_ndn_stack_cpp.Capture.{Host, Poll, new_tuple, read_next_packet_after_decode, handle_read}

-- pcap_next_ex has a packet.
pub record HasPacket (poll : Poll) (packet : Memory) : Type 0 where
  pub positive : (0 < poll.ret) × (poll.ret < int_limit)
  pub there : poll.packet ≡ some packet

pub read_next-packet :
    (poll : Poll) (packet : Memory) (err : Bytes) (now : ℕ) (g : Globals)
    → HasPacket poll packet
    → read_next_packet_after_decode poll err now g ≡ (
      (some (decode packet poll.caplen poll.len now new_tuple g).1, poll.caplen, []),
      (decode packet poll.caplen poll.len now new_tuple g).2,
    )
unfolding read_next_packet_after_decode
read_next-packet poll packet err now g p =
    let (pos, lt) = p.positive in rw p.there (ground (arith, pos, lt))

-- What `decode` leaves of a rejected frame.
abbrev pub bare_tuple : Memory → ℕ → Tuple
bare_tuple packet cap_len = record new_tuple {
  ip_size = (cap_len + u32_mod - 14) % u32_mod;
  flag = load16 packet 48;
}

-- A frame of fewer than 14 captured bytes, or of 8614 or more, is never dealt with, whatever it
-- holds; the next read is waited for. Captured lengths are below 2^32.
pub outsized_dropped :
    (poll : Poll) (packet : Memory) (err : Bytes) (now : ℕ) (uuid : Bytes) (h : Host)
    → HasPacket poll packet
    → (poll.caplen < 14) ⊎ (8614 ≤ poll.caplen)
    → poll.caplen < u32_mod
    → ((handle_read false poll err now uuid h).0.ndn ≡ h.ndn)
      × ((handle_read false poll err now uuid h).0.sequence_table ≡ h.sequence_table)
      × ((handle_read false poll err now uuid h).1 ≡ true)
unfolding handle_read
outsized_dropped poll packet err now uuid h p far fits =
    rw (read_next-packet poll packet err now h.globals p)
      (rw (large, small_false) (refl, refl, refl))
  where
    small_false : ltb ((poll.caplen + u32_mod - 14) % u32_mod) 8600 ≡ false
    small_false = ground arith

    large :
        (decode packet poll.caplen poll.len now new_tuple h.globals).1.ip_size
        ≡ (poll.caplen + u32_mod - 14) % u32_mod
    large = decode-size packet poll.caplen poll.len now new_tuple h.globals
