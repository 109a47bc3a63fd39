-- ===== src/Packet/Results.antt =====
-- What `decode` leaves in the tuple.
use ip_ndn_stack_cpp.Prelude.{
  ℕ, ◌+◌, ◌-◌, ◌%◌, ◌<◌, ◌≤◌, ◌≡◌, ◌≢◌, ◌==◌, if◌then◌else◌, arith, Bool-cases, inl, inr, true,
  false, Bool, ap, refl, some,
}
use ip_ndn_stack_cpp.Word.{u8_mod, u16_mod, u32_mod, ntohs, ntohs-lt}
use ip_ndn_stack_cpp.Tuple.{Memory, Tuple}
use ip_ndn_stack_cpp.Packet.Fields.{offset, load16, load32, ip_src, ip_dst, ip_p, ip_len, IsMemory}
use ip_ndn_stack_cpp.Packet.Stat.{Status, valid, Globals, add64}
use ip_ndn_stack_cpp.Packet.Decode.{
  is_valid, read_key, frame_status, decode, eth_len_default, ethertype_vlan,
}
use ip_ndn_stack_cpp.Packet.Accepts.{type_of, header_len, frame_status-header_len}

-- The fields of a tuple hold what their C types hold.
pub record IsTuple (t : Tuple) : Type 0 where
  pub src_ip_fits : t.key.src_ip < u32_mod
  pub dst_ip_fits : t.key.dst_ip < u32_mod
  pub src_port_fits : t.key.src_port < u16_mod
  pub dst_port_fits : t.key.dst_port < u16_mod
  pub proto_fits : t.key.proto < u8_mod
  pub size_fits : t.size < u16_mod
  pub ip_size_fits : t.ip_size < u32_mod

load32-lt : (m : Memory) (i : ℕ) → IsMemory m → load32 m i < u32_mod
unfolding load32
load32-lt m i h = omega (arith, h i, h (i + 1), h (i + 2), h (i + 3))

port_lt : (b : Bool) (x : ℕ) → (if b then ntohs x else 0) < u16_mod
port_lt true x = ntohs-lt x
port_lt false x = omega arith

-- Whatever the frame, the decoded tuple holds what its C types hold, if the tuple did before.
pub decode-IsTuple :
    (pkt : Memory) (cap_len act_len ts : ℕ) (p : Tuple) (g : Globals)
    → IsMemory pkt
    → IsTuple p
    → IsTuple (decode pkt cap_len act_len ts p g).1
unfolding decode
decode-IsTuple pkt cap_len act_len ts p g hm h =
    let (e, st) = frame_status pkt cap_len in
    let ip = offset pkt e in
    elim (Bool-cases (is_valid st)) [
      | inl good ↦ rw good (
          unfold read_key ip_src ip_dst ip_p offset in
          record {
            src_ip_fits = load32-lt ip 12 (λ i. hm (e + i));
            dst_ip_fits = load32-lt ip 16 (λ i. hm (e + i));
            src_port_fits = port_lt _ _;
            dst_port_fits = port_lt _ _;
            proto_fits = hm (e + 9);
            size_fits = ntohs-lt (ip_len ip);
            ip_size_fits = omega arith;
          })
      | inr bad ↦ rw bad (record {
        src_ip_fits = h.src_ip_fits;
        dst_ip_fits = h.dst_ip_fits;
        src_port_fits = h.src_port_fits;
        dst_port_fits = h.dst_port_fits;
        proto_fits = h.proto_fits;
        size_fits = h.size_fits;
        ip_size_fits = omega arith;
      })
    ]

-- The length recorded for a frame of 14 bytes or more reaches, from where the IP packet starts, to
-- the end of the captured bytes behind a plain Ethernet header, and four bytes past their end behind
-- a VLAN header.
pub decode-ip_size :
    (pkt : Memory) (cap_len act_len ts : ℕ) (p : Tuple) (g : Globals)
    → cap_len < u32_mod
    → 14 ≤ cap_len
    → header_len pkt + (decode pkt cap_len act_len ts p g).1.ip_size
      ≡ (if type_of pkt == ethertype_vlan then cap_len + 4 else cap_len)
unfolding decode
decode-ip_size pkt cap_len act_len ts p g h k =
    elim (Bool-cases (is_valid (frame_status pkt cap_len).1)) [
      | inl good ↦ rw good (ground arith)
      | inr bad ↦ rw bad (ground arith)
    ]

is_valid-of_ne : (st : Status) → st ≢ valid → is_valid st ≡ false
is_valid-of_ne st h = ground arith

-- Of a frame that is not valid the tuple gets the length and the flag, and nothing of its headers.
pub decode-rejected :
    (pkt : Memory) (cap_len act_len ts : ℕ) (p : Tuple) (g : Globals)
    → (frame_status pkt cap_len).1 ≢ valid
    → (decode pkt cap_len act_len ts p g).1
      ≡ record p { ip_size = (cap_len + u32_mod - eth_len_default) % u32_mod; flag = load16 pkt 48 }
unfolding decode
decode-rejected pkt cap_len act_len ts p g h = rw (is_valid-of_ne (frame_status pkt cap_len).1 h)

-- What a valid frame leaves, whose IP packet starts at `ip`.
abbrev pub accepted_tuple : Memory → Memory → ℕ → ℕ → Tuple → Globals → Tuple
accepted_tuple pkt ip cap_len ts p g = record p {
  ip_size = (cap_len + u32_mod - eth_len_default) % u32_mod;
  flag = load16 pkt 48;
  seq = add64 g.seq_count 1;
  key = read_key ip;
  pkt_ts = ts;
  size = ntohs (ip_len ip);
  pkt = some ip;
}

pub decode-accepted :
    (pkt : Memory) (cap_len act_len ts : ℕ) (p : Tuple) (g : Globals)
    → (frame_status pkt cap_len).1 ≡ valid
    → (decode pkt cap_len act_len ts p g).1
      ≡ accepted_tuple pkt (offset pkt (header_len pkt)) cap_len ts p g
unfolding decode
decode-accepted pkt cap_len act_len ts p g h =
    rw (ap is_valid h, frame_status-header_len pkt cap_len) refl

pub decode-size :
    (pkt : Memory) (cap_len act_len ts : ℕ) (p : Tuple) (g : Globals)
    → (decode pkt cap_len act_len ts p g).1.ip_size
      ≡ (cap_len + u32_mod - eth_len_default) % u32_mod
unfolding decode
decode-size pkt cap_len act_len ts p g = ground arith
