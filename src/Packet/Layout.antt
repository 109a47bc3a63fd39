-- ===== src/Packet/Layout.antt =====
-- What decode (libpcapcapture/packet.cpp) reads from a frame, byte by byte in the order of the network,
-- and the addresses that buildName (helper/NDNHelper.cpp) makes of it.
use ip_ndn_stack_cpp.Prelude.{
  ℕ, ◌+◌, ◌*◌, ◌%◌, ◌≡◌, refl, ◌∙◌, [], ◌∷◌, ◌==◌, ◌||◌, if◌then◌else◌, Bool, true, false, arith,
}
use ip_ndn_stack_cpp.Text.{Bytes, dot, join, to_string}
use ip_ndn_stack_cpp.Word.{ntohs, ntohl, shr, low_byte}
use ip_ndn_stack_cpp.Tuple.{Memory, Tuple}
use ip_ndn_stack_cpp.Naming.{dotted}
use ip_ndn_stack_cpp.Naming.Parts.{dotted-join}
use ip_ndn_stack_cpp.Packet.Fields.{
  offset, load16, load32, ip_src, ip_dst, ip_p, ip_hl, l4_source, l4_dest, IsMemory,
}
use ip_ndn_stack_cpp.Packet.Stat.{valid, Globals}
use ip_ndn_stack_cpp.Packet.Decode.{read_key, frame_status, decode}
use ip_ndn_stack_cpp.Packet.Accepts.{header_len}
use ip_ndn_stack_cpp.Packet.Results.{decode-accepted}

-- Four bytes in a row, in decimal with dots between.
abbrev pub dotted_at : Memory → ℕ → Bytes
dotted_at m i =
    join dot (to_string (m i))
      (to_string (m (i + 1)) ∷ to_string (m (i + 2)) ∷ to_string (m (i + 3)) ∷ [])

-- Two bytes in a row, the higher one first.
abbrev pub big_endian_at : Memory → ℕ → ℕ
big_endian_at m i = m i * 256 + m (i + 1)

module _ (m : Memory) (i : ℕ) (h : IsMemory m) where
  first_octet : low_byte (shr (ntohl (load32 m i)) 24) ≡ m i
  unfolding ntohl load32
  first_octet = omega (arith, h i, h (i + 1), h (i + 2), h (i + 3))

  second_octet : low_byte (shr (ntohl (load32 m i)) 16) ≡ m (i + 1)
  unfolding ntohl load32
  second_octet = omega (arith, h i, h (i + 1), h (i + 2), h (i + 3))

  third_octet : low_byte (shr (ntohl (load32 m i)) 8) ≡ m (i + 2)
  unfolding ntohl load32
  third_octet = omega (arith, h i, h (i + 1), h (i + 2), h (i + 3))

  fourth_octet : low_byte (shr (ntohl (load32 m i)) 0) ≡ m (i + 3)
  unfolding ntohl load32
  fourth_octet = omega (arith, h i, h (i + 1), h (i + 2), h (i + 3))

  dotted-load32 : dotted (ntohl (load32 m i)) ≡ dotted_at m i
  dotted-load32 =
      dotted-join (ntohl (load32 m i))
      ∙ rw (first_octet, second_octet, third_octet, fourth_octet) refl

  ntohs-load16 : ntohs (load16 m i) ≡ big_endian_at m i
  unfolding ntohs load16
  ntohs-load16 = omega (arith, h i, h (i + 1))

port_of : (b : Bool) (x y : ℕ) → x ≡ y → (if b then x else 0) ≡ (if b then y else 0)
port_of true x y e = e
port_of false x y e = refl

-- Of a valid frame, the addresses that go into names are the source and the destination of the IP
-- header in dotted decimal, its bytes from 12 and from 16 on; the protocol is its byte 9; and the
-- ports are the first two pairs of bytes behind the header's length, in the order of the network,
-- for TCP and UDP, and zero for other protocols. The frame is of bytes.
pub decode-addresses :
    (pkt : Memory) (cap_len act_len ts : ℕ) (p : Tuple) (g : Globals)
    → IsMemory pkt
    → (frame_status pkt cap_len).1 ≡ valid
    → let k = (decode pkt cap_len act_len ts p g).1.key in
      let ip = offset pkt (header_len pkt) in
      let l4 = offset ip (ip 0 % 16 * 4) in
      let ported = ip 9 == 6 || ip 9 == 17 in
      (dotted (ntohl k.src_ip) ≡ dotted_at ip 12)
      × (dotted (ntohl k.dst_ip) ≡ dotted_at ip 16)
      × (k.proto ≡ ip 9)
      × (k.src_port ≡ (if ported then big_endian_at l4 0 else 0))
      × (k.dst_port ≡ (if ported then big_endian_at l4 2 else 0))
unfolding read_key ip_src ip_dst ip_p ip_hl l4_source l4_dest offset
decode-addresses pkt cap_len act_len ts p g h good =
    let e = header_len pkt in
    let ip = offset pkt e in
    let l4 = offset ip (ip 0 % 16 * 4) in
    let in_ip : IsMemory ip = λ i. h (e + i) in
    let in_l4 : IsMemory l4 = λ i. in_ip (ip 0 % 16 * 4 + i) in
    rw (decode-accepted pkt cap_len act_len ts p g good) (
      dotted-load32 ip 12 in_ip,
      dotted-load32 ip 16 in_ip,
      refl,
      port_of _ _ _ (ntohs-load16 l4 0 in_l4),
      port_of _ _ _ (ntohs-load16 l4 2 in_l4),
    )
