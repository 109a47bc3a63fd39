-- ===== src/Packet/Fields.antt =====
-- Reading the captured memory: words of a little-endian host, and the header fields of netinet.
use ip_ndn_stack_cpp.Prelude.{ℕ, ◌+◌, ◌*◌, ◌/◌, ◌%◌, ◌^◌, ◌<◌}
use ip_ndn_stack_cpp.Tuple.{Memory}

-- `p + k`.
unfoldable pub offset : Memory → ℕ → Memory
offset m k i = m (k + i)

unfoldable pub load16 : Memory → ℕ → ℕ
load16 m i = m i + 2 ^ 8 * m (i + 1)

unfoldable pub load32 : Memory → ℕ → ℕ
load32 m i = m i + 2 ^ 8 * m (i + 1) + 2 ^ 16 * m (i + 2) + 2 ^ 24 * m (i + 3)

-- struct ether_header, struct ip, struct tcphdr, struct udphdr.
unfoldable pub ether_type : Memory → ℕ
ether_type m = load16 m 12

unfoldable pub ip_hl : Memory → ℕ
ip_hl m = m 0 % 16

unfoldable pub ip_v : Memory → ℕ
ip_v m = m 0 / 16

unfoldable pub ip_len : Memory → ℕ
ip_len m = load16 m 2

unfoldable pub ip_p : Memory → ℕ
ip_p m = m 9

unfoldable pub ip_src : Memory → ℕ
ip_src m = load32 m 12

unfoldable pub ip_dst : Memory → ℕ
ip_dst m = load32 m 16

unfoldable pub tcp_doff : Memory → ℕ
tcp_doff m = m 12 / 16

-- The ports stand at the same place in TCP and UDP.
unfoldable pub l4_source : Memory → ℕ
l4_source m = load16 m 0

unfoldable pub l4_dest : Memory → ℕ
l4_dest m = load16 m 2

-- What memory holds are bytes.
abbrev pub IsMemory : Memory → Type 0
IsMemory m = (i : ℕ) → m i < 256
