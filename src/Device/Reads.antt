-- ===== src/Device/Reads.antt =====
-- The two functions of PcapHelper that read a packet, side by side.
use ip_ndn_stack_cpp.Prelude.{
  ℕ, ◌<◌, ◌≤◌, ◌≡◌, refl, sym, ap, ◌∙◌, ◌⊎◌, inl, inr, Bool, true, false, Option, none, some, arith,
}
use ip_ndn_stack_cpp.Text.{Bytes, codes}
use ip_ndn_stack_cpp.Word.{int_limit}
use ip_ndn_stack_cpp.Tuple.{Memory}
use ip_ndn_stack_cpp.Packet.Stat.{Globals}
use ip_ndn_stack_cpp.Capture.{Poll, read_next_packet_after_decode}
use ip_ndn_stack_cpp.Device.{read_next_packet}

abbrev pub is_some : {A : Type 0} → Option A → Bool
is_some none = false
is_some (some a) = true

-- pcap_next_ex sets the packet exactly where it returns a positive number.
pub record IsPoll (poll : Poll) : Type 0 where
  pub captured : 0 < poll.ret → poll.ret < int_limit → is_some poll.packet ≡ true
  pub nothing : (poll.ret ≡ 0) ⊎ (int_limit ≤ poll.ret) → poll.packet ≡ none

no_packet :
    (poll : Poll) (err : Bytes) (now : ℕ) (g : Globals)
    → poll.packet ≡ none
    → read_next_packet_after_decode poll err now g ≡ ((none, 0, err), g)
unfolding read_next_packet_after_decode
no_packet poll err now g e = rw e refl

some_packet :
    (poll : Poll) (err : Bytes) (now : ℕ) (g : Globals) (packet : Memory)
    → poll.packet ≡ some packet
    → 0 < poll.ret
    → poll.ret < int_limit
    → (is_some (read_next_packet_after_decode poll err now g).0.0 ≡ true)
      × ((read_next_packet_after_decode poll err now g).0.1 ≡ poll.caplen)
unfolding read_next_packet_after_decode
some_packet poll err now g packet e pos lt = rw e (ground (arith, pos, lt))

positive_or_not : (n : ℕ) → ((n ≡ 0) ⊎ (int_limit ≤ n)) ⊎ ((0 < n) × (n < int_limit))
positive_or_not n = omega arith

quiet :
    (poll : Poll) (err : Bytes)
    → (poll.ret ≡ 0) ⊎ (int_limit ≤ poll.ret)
    → (is_some (read_next_packet poll err).0 ≡ false) × ((read_next_packet poll err).1 ≡ 0)
unfolding read_next_packet
quiet poll err h = ground arith

loud :
    (poll : Poll) (err : Bytes)
    → 0 < poll.ret
    → poll.ret < int_limit
    → ((read_next_packet poll err).0 ≡ poll.packet) × ((read_next_packet poll err).1 ≡ poll.caplen)
unfolding read_next_packet
loud poll err pos lt = ground arith

timed_out :
    (poll : Poll) (err : Bytes) → poll.ret ≡ 0 → (read_next_packet poll err).2 ≡ codes "timed out"
unfolding read_next_packet
timed_out poll err e = ground arith

some_of : {A : Type 0} (o : Option A) → is_some o ≡ true → (a : A) × (o ≡ some a)
some_of none h = cc
some_of (some a) h = (a, refl)

-- Where pcap_next_ex sets the packet exactly if its result is positive, both functions give a packet
-- or none alike, with the same length; and where it returns 0, for a timeout, readNextPacket says so
-- but readNextPacketAfterDecode gives libpcap's last error instead.
pub reads-agree :
    (poll : Poll) (last_error : Bytes) (now : ℕ) (g : Globals)
    → IsPoll poll
    → (is_some (read_next_packet_after_decode poll last_error now g).0.0
        ≡ is_some (read_next_packet poll last_error).0)
      × ((read_next_packet_after_decode poll last_error now g).0.1
          ≡ (read_next_packet poll last_error).1)
      × (poll.ret ≡ 0
          → ((read_next_packet poll last_error).2 ≡ codes "timed out")
            × ((read_next_packet_after_decode poll last_error now g).0.2 ≡ last_error))
reads-agree poll last_error now g h = elim (positive_or_not poll.ret) [
  | inl q ↦
      let none_there = no_packet poll last_error now g (h.nothing q) in
      let (missing, zero_len) = quiet poll last_error q in
      (
        rw none_there (sym missing),
        rw none_there (sym zero_len),
        λ e. (timed_out poll last_error e, rw none_there refl),
      )
  | inr (pos, lt) ↦
      let (packet, there) = some_of poll.packet (h.captured pos lt) in
      let (present, len) = some_packet poll last_error now g packet there pos lt in
      let (same, same_len) = loud poll last_error pos lt in
      (present ∙ sym (ap is_some (same ∙ there)), len ∙ sym same_len, λ e. absurd (omega arith))
]
