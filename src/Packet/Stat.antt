-- ===== src/Packet/Stat.antt =====
-- The statuses of a decoded frame, the counters, and the functions that set them. Counters
-- are uint64_t; the two time stamps are milliseconds.
use ip_ndn_stack_cpp.Prelude.{ℕ, ◌+◌, ◌%◌, ◌==◌, if◌then◌else◌}
use ip_ndn_stack_cpp.Word.{u64_mod}

pub data Status : Type 0 where
  init valid non_ip ip_not_full ip_ver_fail ip_chksum_fail ip_frag : Status
  tcp_not_full udp_not_full icmp_not_full undefined non_gtp non_gprs : Status

pub record PacketStat : Type 0 where
  pub tot_pkt_cnt : ℕ
  pub tot_cap_byte_cnt : ℕ
  pub tot_act_byte_cnt : ℕ
  pub valid_pkt_cnt : ℕ
  pub valid_cap_byte_cnt : ℕ
  pub valid_act_byte_cnt : ℕ
  pub non_ip_cnt : ℕ
  pub ip_not_full_cnt : ℕ
  pub ip_ver_fail_cnt : ℕ
  pub ip_chksum_fail_cnt : ℕ
  pub ip_frag_cnt : ℕ
  pub tcp_not_full_cnt : ℕ
  pub udp_not_full_cnt : ℕ
  pub icmp_not_full_cnt : ℕ
  pub undefined_cnt : ℕ
  pub non_gtp_cnt : ℕ
  pub non_gprs_cnt : ℕ
  pub used_time : ℕ
  pub trace_start_ts : ℕ
  pub trace_end_ts : ℕ

-- The globals of packet.cpp.
pub record Globals : Type 0 where
  pub stat : PacketStat
  pub seq_count : ℕ

abbrev pub add64 : ℕ → ℕ → ℕ
add64 a b = (a + b) % u64_mod

-- The counters that `decode` sets on entry.
unfoldable pub observe : ℕ → ℕ → ℕ → PacketStat → PacketStat
observe cap_len act_len ts p = record p {
  tot_pkt_cnt = add64 p.tot_pkt_cnt 1;
  trace_start_ts = if add64 p.tot_pkt_cnt 1 == 1 then ts else p.trace_start_ts;
  trace_end_ts = ts;
  tot_cap_byte_cnt = add64 p.tot_cap_byte_cnt cap_len;
  tot_act_byte_cnt = add64 p.tot_act_byte_cnt act_len;
}

-- The switch on the status.
unfoldable pub tally : Status → ℕ → ℕ → PacketStat → PacketStat
tally valid cap_len act_len p = record p {
  valid_pkt_cnt = add64 p.valid_pkt_cnt 1;
  valid_cap_byte_cnt = add64 p.valid_cap_byte_cnt cap_len;
  valid_act_byte_cnt = add64 p.valid_act_byte_cnt act_len;
}
tally non_ip cap_len act_len p = record p { non_ip_cnt = add64 p.non_ip_cnt 1 }
tally ip_not_full cap_len act_len p = record p { ip_not_full_cnt = add64 p.ip_not_full_cnt 1 }
tally ip_ver_fail cap_len act_len p = record p { ip_ver_fail_cnt = add64 p.ip_ver_fail_cnt 1 }
tally ip_chksum_fail cap_len act_len p = record p {
  ip_chksum_fail_cnt = add64 p.ip_chksum_fail_cnt 1;
}
tally ip_frag cap_len act_len p = record p { ip_frag_cnt = add64 p.ip_frag_cnt 1 }
tally tcp_not_full cap_len act_len p = record p { tcp_not_full_cnt = add64 p.tcp_not_full_cnt 1 }
tally udp_not_full cap_len act_len p = record p { udp_not_full_cnt = add64 p.udp_not_full_cnt 1 }
tally icmp_not_full cap_len act_len p = record p { icmp_not_full_cnt = add64 p.icmp_not_full_cnt 1 }
tally undefined cap_len act_len p = record p { undefined_cnt = add64 p.undefined_cnt 1 }
tally non_gtp cap_len act_len p = record p { non_gtp_cnt = add64 p.non_gtp_cnt 1 }
tally non_gprs cap_len act_len p = record p { non_gprs_cnt = add64 p.non_gprs_cnt 1 }
tally init cap_len act_len p = p

-- memset of the structure to zero.
abbrev pub reset_stat : PacketStat
reset_stat = record {
  tot_pkt_cnt = 0;
  tot_cap_byte_cnt = 0;
  tot_act_byte_cnt = 0;
  valid_pkt_cnt = 0;
  valid_cap_byte_cnt = 0;
  valid_act_byte_cnt = 0;
  non_ip_cnt = 0;
  ip_not_full_cnt = 0;
  ip_ver_fail_cnt = 0;
  ip_chksum_fail_cnt = 0;
  ip_frag_cnt = 0;
  tcp_not_full_cnt = 0;
  udp_not_full_cnt = 0;
  icmp_not_full_cnt = 0;
  undefined_cnt = 0;
  non_gtp_cnt = 0;
  non_gprs_cnt = 0;
  used_time = 0;
  trace_start_ts = 0;
  trace_end_ts = 0;
}
