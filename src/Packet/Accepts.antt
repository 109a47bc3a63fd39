-- ===== src/Packet/Accepts.antt =====
-- Which frames `decode` accepts, against a description that does not follow the checks.
use ip_ndn_stack_cpp.Prelude.{
  ℕ, ◌+◌, ◌-◌, ◌*◌, ◌%◌, ◌<◌, ◌≤◌, ◌≡◌, ◌↔◌, ◌⊎◌, ◌==◌, if◌then◌else◌, arith,
}
use mathlib.Core.Path.{subst}
use ip_ndn_stack_cpp.Word.{u32_mod, int_limit, ntohs}
use ip_ndn_stack_cpp.Tuple.{Memory}
use ip_ndn_stack_cpp.Packet.Fields.{offset, ether_type, ip_hl, ip_v, ip_p, tcp_doff}
use ip_ndn_stack_cpp.Packet.Checksum.{in_chksum_ip, in_chksum_ip-zero, word_sum}
use ip_ndn_stack_cpp.Packet.Stat.{Status, valid}
use ip_ndn_stack_cpp.Packet.Decode.{
  ethertype_vlan, eth_p_ip, ipproto_tcp, ipproto_udp, ipproto_icmp, link_level, ip_level,
  transport_level, frame_status,
}

-- The type in the Ethernet header, in host order, and the length of that header.
abbrev pub type_of : Memory → ℕ
type_of pkt = ntohs (ether_type pkt)

abbrev pub header_len : Memory → ℕ
header_len pkt = if type_of pkt == ethertype_vlan then 18 else 14

-- What the header behind the IP header needs, in bytes.
abbrev pub transport_need : Memory → ℕ
transport_need ip =
    if ip_p ip == ipproto_tcp
    then tcp_doff (offset ip (ip_hl ip * 4)) * 4
    else if ip_p ip == ipproto_udp
    then 8
    else if ip_p ip == ipproto_icmp
    then 8
    else 0

abbrev pub IsTyped : Memory → Type 0
IsTyped pkt = (type_of pkt ≡ ethertype_vlan) ⊎ (type_of pkt ≡ eth_p_ip)

-- A frame with an IPv4 packet behind `e` bytes whose headers are captured whole and whose header's
-- sum is right.
pub record IsWholeAt (pkt : Memory) (cap_len e : ℕ) : Type 0 where
  pub typed : IsTyped pkt
  pub version : ip_v (offset pkt e) ≡ 4
  pub captured : e + (ip_hl (offset pkt e) * 4 + transport_need (offset pkt e)) ≤ cap_len
  pub sum_positive : 0 < word_sum (offset pkt e) (ip_hl (offset pkt e) * 4)
  pub sum_full : word_sum (offset pkt e) (ip_hl (offset pkt e) * 4) % 65535 ≡ 0

abbrev pub IsWhole : Memory → ℕ → Type 0
IsWhole pkt cap_len = IsWholeAt pkt cap_len (header_len pkt)

link_level_lem :
    (pkt : Memory)
    → ((link_level pkt 14).0 ≡ header_len pkt)
      × (((link_level pkt 14).1 ≡ valid)
          ↔ ((type_of pkt ≡ ethertype_vlan) ⊎ (type_of pkt ≡ eth_p_ip)))
unfolding link_level
link_level_lem pkt = ground arith

ip_level-valid :
    (ip : Memory) (len : ℕ) (st : Status)
    → (ip_level ip len st ≡ valid) ↔ (
        (st ≡ valid)
        × (len < int_limit)
        × (ip_hl ip * 4 ≤ len)
        × (ip_v ip ≡ 4)
        × (in_chksum_ip ip (ip_hl ip * 4) ≡ 0))
unfolding ip_level
ip_level-valid ip len st = ground arith

transport_level-keeps :
    (ip : Memory) (len : ℕ) (st : Status) → transport_level ip len st ≡ valid → st ≡ valid
unfolding transport_level
transport_level-keeps ip len st h = ground arith

transport_level-valid :
    (ip : Memory) (len : ℕ)
    → len < int_limit
    → ip_hl ip * 4 ≤ len
    → (transport_level ip len valid ≡ valid) ↔ (ip_hl ip * 4 + transport_need ip ≤ len)
unfolding transport_level
transport_level-valid ip len h k = ground arith

-- The three levels together, for the length left behind the link header.
levels-valid :
    (ip : Memory) (len : ℕ) (st : Status)
    → (transport_level ip len (ip_level ip len st) ≡ valid) ↔ (
        (st ≡ valid)
        × (len < int_limit)
        × (ip_hl ip * 4 + transport_need ip ≤ len)
        × (ip_v ip ≡ 4)
        × (in_chksum_ip ip (ip_hl ip * 4) ≡ 0))
levels-valid ip len st = (forward, backward)
  where
    forward :
        transport_level ip len (ip_level ip len st) ≡ valid
        → (st ≡ valid)
          × (len < int_limit)
          × (ip_hl ip * 4 + transport_need ip ≤ len)
          × (ip_v ip ≡ 4)
          × (in_chksum_ip ip (ip_hl ip * 4) ≡ 0)
    forward e =
        let at_ip = transport_level-keeps ip len (ip_level ip len st) e in
        let (a, b, c, d, x) = (ip_level-valid ip len st).0 at_ip in
        (a, b, (transport_level-valid ip len b c).0 (rw at_ip at e), d, x)

    backward :
        (st ≡ valid)
          × (len < int_limit)
          × (ip_hl ip * 4 + transport_need ip ≤ len)
          × (ip_v ip ≡ 4)
          × (in_chksum_ip ip (ip_hl ip * 4) ≡ 0)
        → transport_level ip len (ip_level ip len st) ≡ valid
    backward (a, b, c, d, x) =
        let fits : ip_hl ip * 4 ≤ len = omega arith in
        rw ((ip_level-valid ip len st).1 (a, b, fits, d, x))
          ((transport_level-valid ip len b fits).1 c)

rest_len :
    (cap_len e n : ℕ)
    → cap_len < int_limit
    → e ≤ 18
    → (((cap_len + u32_mod - e) % u32_mod < int_limit) × (n ≤ (cap_len + u32_mod - e) % u32_mod))
      ↔ (e + n ≤ cap_len)
rest_len cap_len e n h k = (λ p. omega arith, λ p. (omega arith, omega arith))

whole_at :
    (pkt : Memory) (cap_len e : ℕ) (st : Status)
    → cap_len < int_limit
    → e ≤ 18
    → (st ≡ valid) ↔ IsTyped pkt
    → (transport_level
          (offset pkt e)
          ((cap_len + u32_mod - e) % u32_mod)
          (ip_level (offset pkt e) ((cap_len + u32_mod - e) % u32_mod) st)
        ≡ valid)
      ↔ IsWholeAt pkt cap_len e
whole_at pkt cap_len e st h k t = (forward, backward)
  where
    ip : Memory
    ip = offset pkt e

    len : ℕ
    len = (cap_len + u32_mod - e) % u32_mod

    forward : transport_level ip len (ip_level ip len st) ≡ valid → IsWholeAt pkt cap_len e
    forward p =
        let (a, b, c, d, x) = (levels-valid ip len st).0 p in
        let (pos, full) = (in_chksum_ip-zero ip (ip_hl ip * 4)).0 x in
        record {
          typed = t.0 a;
          version = d;
          captured = (rest_len cap_len e (ip_hl ip * 4 + transport_need ip) h k).0 (b, c);
          sum_positive = pos;
          sum_full = full;
        }

    backward : IsWholeAt pkt cap_len e → transport_level ip len (ip_level ip len st) ≡ valid
    backward w =
        let (b, c) = (rest_len cap_len e (ip_hl ip * 4 + transport_need ip) h k).1 w.captured in
        (levels-valid ip len st).1 (
          t.1 w.typed,
          b,
          c,
          w.version,
          (in_chksum_ip-zero ip (ip_hl ip * 4)).1 (w.sum_positive, w.sum_full),
        )

link_level-le : (pkt : Memory) → (link_level pkt 14).0 ≤ 18
unfolding link_level
link_level-le pkt = ground arith

pub frame_status-header_len :
    (pkt : Memory) (cap_len : ℕ) → (frame_status pkt cap_len).0 ≡ header_len pkt
unfolding frame_status
frame_status-header_len pkt cap_len = (link_level_lem pkt).0

-- `decode` finds a frame valid exactly when it holds an IPv4 packet, behind a plain or a VLAN
-- Ethernet header, whose IP and transport headers are captured whole and whose header words sum to
-- a positive multiple of 65535; captured lengths are below 2^31.
pub frame_status-valid :
    (pkt : Memory) (cap_len : ℕ)
    → cap_len < int_limit
    → ((frame_status pkt cap_len).1 ≡ valid) ↔ IsWhole pkt cap_len
unfolding frame_status
frame_status-valid pkt cap_len h =
    subst (λ k. ((frame_status pkt cap_len).1 ≡ valid) ↔ IsWholeAt pkt cap_len k)
      (link_level_lem pkt).0
      (whole_at pkt cap_len (link_level pkt 14).0 (link_level pkt 14).1 h (link_level-le pkt)
        (link_level_lem pkt).1)
