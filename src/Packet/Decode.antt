-- ===== src/Packet/Decode.antt =====
-- `decode` of libpcapcapture/packet.cpp: the checks on a captured frame, in the order of the source,
-- where each failing check overwrites the status of those before it.
use ip_ndn_stack_cpp.Prelude.{
  ℕ, ◌+◌, ◌-◌, ◌*◌, ◌%◌, Bool, true, false, ◌||◌, ltb, ◌==◌, if◌then◌else◌, some,
}
use ip_ndn_stack_cpp.Word.{u32_mod, int_limit, ntohs}
use ip_ndn_stack_cpp.Tuple.{Memory, FlowKey, Tuple}
use ip_ndn_stack_cpp.Packet.Fields.{
  offset, load16, ether_type, ip_hl, ip_v, ip_len, ip_p, ip_src, ip_dst, tcp_doff, l4_source,
  l4_dest,
}
use ip_ndn_stack_cpp.Packet.Checksum.{in_chksum_ip}
use ip_ndn_stack_cpp.Packet.Stat.{
  Status, valid, non_ip, ip_not_full, ip_ver_fail, ip_chksum_fail, tcp_not_full, udp_not_full,
  icmp_not_full, Globals, observe, tally, add64,
}

abbrev pub eth_len_default : ℕ
eth_len_default = 14

abbrev pub ethertype_vlan : ℕ
ethertype_vlan = 0x8100

abbrev pub eth_p_ip : ℕ
eth_p_ip = 0x0800

abbrev pub ipproto_icmp : ℕ
ipproto_icmp = 1

abbrev pub ipproto_tcp : ℕ
ipproto_tcp = 6

abbrev pub ipproto_udp : ℕ
ipproto_udp = 17

-- The checks at the link layer: the length of its header, and the status so far.
unfoldable pub link_level : Memory → ℕ → ℕ × Status
link_level pkt eth_len =
    if eth_len == 14
    then if ntohs (ether_type pkt) == ethertype_vlan
      then (18, valid)
      else if ntohs (ether_type pkt) == eth_p_ip
      then (eth_len, valid)
      else (eth_len, non_ip)
    else if eth_len == 4
    then if ntohs (load16 pkt 2) == eth_p_ip then (eth_len, valid) else (eth_len, non_ip)
    else if eth_len == 0
    then (eth_len, valid)
    else (eth_len, non_ip)

-- `(int)len < n`, for a uint32_t `len` and a small `n`.
abbrev pub int_lt : ℕ → ℕ → Bool
int_lt len n = if ltb len int_limit then ltb len n else true

-- The checks of the IP header.
unfoldable pub ip_level : Memory → ℕ → Status → Status
ip_level ip len status =
    let hl = ip_hl ip * 4 in
    let s1 = if int_lt len hl then ip_not_full else status in
    let s2 = if ip_v ip == 4 then s1 else ip_ver_fail in
    if in_chksum_ip ip hl == 0 then s2 else ip_chksum_fail

-- The checks of the header behind it.
unfoldable pub transport_level : Memory → ℕ → Status → Status
transport_level ip len status =
    let hl = ip_hl ip * 4 in
    if ip_p ip == ipproto_tcp
    then if int_lt len (hl + tcp_doff (offset ip hl) * 4) then tcp_not_full else status
    else if ip_p ip == ipproto_udp
    then if int_lt len (hl + 8) then udp_not_full else status
    else if ip_p ip == ipproto_icmp
    then if int_lt len (hl + 8) then icmp_not_full else status
    else status

abbrev pub is_valid : Status → Bool
is_valid valid = true
is_valid _ = false

-- The key of a valid packet.
unfoldable pub read_key : Memory → FlowKey
read_key ip =
    let l4 = offset ip (ip_hl ip * 4) in
    let ported = ip_p ip == ipproto_tcp || ip_p ip == ipproto_udp in
    record {
      src_ip = ip_src ip;
      dst_ip = ip_dst ip;
      src_port = if ported then ntohs (l4_source l4) else 0;
      dst_port = if ported then ntohs (l4_dest l4) else 0;
      proto = ip_p ip;
    }

-- The length of the link header, and the status, of a frame.
unfoldable pub frame_status : Memory → ℕ → ℕ × Status
frame_status pkt cap_len =
    let (eth_len, status) = link_level pkt eth_len_default in
    let len = (cap_len + u32_mod - eth_len) % u32_mod in
    let ip = offset pkt eth_len in (eth_len, transport_level ip len (ip_level ip len status))

unfoldable pub decode : Memory → ℕ → ℕ → ℕ → Tuple → Globals → Status × Tuple × Globals
decode pkt cap_len act_len ts p g =
    let (eth_len, status) = frame_status pkt cap_len in
    let ip = offset pkt eth_len in
    let stat = tally status cap_len act_len (observe cap_len act_len ts g.stat) in
    let checked = record p {
      ip_size = (cap_len + u32_mod - eth_len_default) % u32_mod;
      flag = load16 pkt 48;
    } in
    let seq_count = add64 g.seq_count 1 in
    let filled = record checked {
      seq = seq_count;
      key = read_key ip;
      pkt_ts = ts;
      size = ntohs (ip_len ip);
      pkt = some ip;
    } in
    if is_valid status
    then (status, filled, record g { stat = stat; seq_count = seq_count })
    else (status, checked, record g { stat = stat })
