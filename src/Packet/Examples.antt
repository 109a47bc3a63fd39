-- ===== src/Packet/Examples.antt =====
-- A captured frame, and the theorems on the decoder at it.
use ip_ndn_stack_cpp.Prelude.{
  ℕ, zero, suc, ◌+◌, ◌*◌, ◌||◌, ◌%◌, ◌<◌, ◌≡◌, refl, ◌≢◌, ◌↔◌, List, [], ◌∷◌, true, none, arith,
  All, if◌then◌else◌, ◌==◌, some, false, get_elem?,
}
use ip_ndn_stack_cpp.Word.{ntohs, ntohl, u64_mod}
use ip_ndn_stack_cpp.Tuple.{Memory, Tuple}
use ip_ndn_stack_cpp.Packet.Fields.{
  offset, load16, load32, ether_type, ip_hl, ip_v, ip_p, ip_src, ip_dst, tcp_doff, l4_source,
  l4_dest, IsMemory,
}
use ip_ndn_stack_cpp.Packet.Checksum.{
  fold, fold_high, add_words, fold_all, in_chksum_ip, word_sum, in_chksum_ip-zero,
}
use ip_ndn_stack_cpp.Packet.Stat.{valid, ip_frag, ip_chksum_fail, Globals, reset_stat}
use ip_ndn_stack_cpp.Text.{Bytes}
use ip_ndn_stack_cpp.Packet.Report.Reading.{read_counters, counters, report-reads}
use ip_ndn_stack_cpp.Packet.Report.{opened_file, standard_error, Shares, report_final_stat_file}
use ip_ndn_stack_cpp.Packet.Decode.{
  link_level, ip_level, transport_level, frame_status, read_key, decode, ethertype_vlan,
}
use ip_ndn_stack_cpp.Packet.Sums.{
  IsBalanced, by_status, bumped, decode-IsBalanced, report-unbalances,
}
use ip_ndn_stack_cpp.Packet.Accepts.{type_of, header_len, IsWhole, frame_status-valid}
use ip_ndn_stack_cpp.Naming.{dotted}
use ip_ndn_stack_cpp.Packet.Layout.{dotted_at, big_endian_at, decode-addresses}
use ip_ndn_stack_cpp.Packet.Results.{decode-ip_size}

abbrev pub byte_at : List ℕ → Memory
byte_at [] i = 0
byte_at (b ∷ bs) zero = b
byte_at (b ∷ bs) (suc i) = byte_at bs i

abbrev pub frame_bytes : List ℕ
frame_bytes =
    0 ∷ 0 ∷ 0 ∷ 0 ∷ 0 ∷ 0 ∷ 0 ∷ 0 ∷ 0 ∷ 0 ∷ 0 ∷ 0 ∷ 0x08 ∷ 0x00 ∷ 0x45 ∷ 0x00 ∷ 0x00 ∷ 0x28 ∷ 0x00
    ∷ 0x00 ∷ 0x00 ∷ 0x00 ∷ 0x40 ∷ 0x06 ∷ 0x66 ∷ 0xce ∷ 10 ∷ 0 ∷ 0 ∷ 1 ∷ 10 ∷ 0 ∷ 0 ∷ 2 ∷ 0x12 ∷ 0x34
    ∷ 0 ∷ 80 ∷ 0 ∷ 0 ∷ 0 ∷ 0 ∷ 0 ∷ 0 ∷ 0 ∷ 0 ∷ 0x50 ∷ []

-- A TCP segment of no data, 10.0.0.1:4660 to 10.0.0.2:80, with its IP header's checksum right.
abbrev pub tcp_frame : Memory
tcp_frame = byte_at frame_bytes

abbrev pub blank_tuple : Tuple
blank_tuple = record {
  key = record { src_ip = 0; dst_ip = 0; src_port = 0; dst_port = 0; proto = 0 };
  index = 0;
  pkt = none;
  flag = 0;
  pkt_ts = 0;
  seq = 0;
  size = 0;
  ip_size = 0;
}

abbrev pub fresh_globals : Globals
fresh_globals = record { stat = reset_stat; seq_count = 0 }

pub valid_run : (frame_status tcp_frame 54).1 ≡ valid
unfolding frame_status link_level ip_level transport_level offset load16 ether_type ip_hl ip_v ip_p
    tcp_doff in_chksum_ip fold fold_high add_words fold_all ntohs
valid_run = refl

key_run : read_key (offset tcp_frame 14) ≡ record {
  src_ip = 0x0100_000a;
  dst_ip = 0x0200_000a;
  src_port = 4660;
  dst_port = 80;
  proto = 6;
}
unfolding read_key offset load16 load32 ip_hl ip_p ip_src ip_dst l4_source l4_dest ntohs
key_run = refl

-- A blank frame: every check fails, and the checksum has the last word.
pub blank_rejected : (frame_status (byte_at []) 60).1 ≢ valid
unfolding frame_status link_level ip_level transport_level offset load16 ether_type ip_hl ip_v ip_p
    tcp_doff in_chksum_ip fold fold_high add_words fold_all ntohs
blank_rejected = λ e. cc

in_chksum_ip-zero_example :
    (in_chksum_ip (offset tcp_frame 14) 20 ≡ 0)
    ↔ ((0 < word_sum (offset tcp_frame 14) 20) × (word_sum (offset tcp_frame 14) 20 % 65535 ≡ 0))
in_chksum_ip-zero_example = in_chksum_ip-zero (offset tcp_frame 14) 20

frame_status-valid_example : ((frame_status tcp_frame 54).1 ≡ valid) ↔ IsWhole tcp_frame 54
frame_status-valid_example = frame_status-valid tcp_frame 54 (omega arith)

decode-IsBalanced_example :
    let after = (decode tcp_frame 54 54 1000 blank_tuple fresh_globals).2.stat in
    (by_status after ≡ bumped (frame_status tcp_frame 54).1 (by_status fresh_globals.stat))
    × (after.tot_pkt_cnt ≡ (fresh_globals.stat.tot_pkt_cnt + 1) % u64_mod)
    × IsBalanced after
decode-IsBalanced_example =
    decode-IsBalanced tcp_frame 54 54 1000 blank_tuple fresh_globals (omega arith)

abbrev pub no_shares : Shares
no_shares = record {
  used_seconds = λ p. [];
  packets_per_second = λ p. [];
  gigabits_per_second = λ p. [];
  trace_duration = λ p. [];
}

report-unbalances_example :
    let after = (report_final_stat_file no_shares (λ name. false) none reset_stat).1 in
    (by_status after ≡ bumped ip_frag (bumped ip_chksum_fail (by_status reset_stat)))
    × (after.tot_pkt_cnt ≡ reset_stat.tot_pkt_cnt)
    × (¬ IsBalanced after)
report-unbalances_example =
    report-unbalances no_shares (λ name. false) none reset_stat (omega arith)

report-reads_example :
    (text : Bytes) × (get_elem?
        (report_final_stat_file no_shares (λ name. true) none reset_stat).0.printed
        2
      ≡ some (record { stream = if true then opened_file else standard_error; text = text }))
    × (read_counters text ≡ counters reset_stat)
report-reads_example = report-reads no_shares (λ name. true) none reset_stat

abbrev pub AllBytes : List ℕ → Type 0
AllBytes = All (λ b. b < 256)

pub bytes_below : (bs : List ℕ) → AllBytes bs → IsMemory (byte_at bs)
bytes_below [] h i = omega arith
bytes_below (b ∷ bs) (hb, h) zero = hb
bytes_below (b ∷ bs) (hb, h) (suc i) = bytes_below bs h i

decode-ip_size_example :
    header_len tcp_frame + (decode tcp_frame 54 54 1000 blank_tuple fresh_globals).1.ip_size
    ≡ (if type_of tcp_frame == ethertype_vlan then 54 + 4 else 54)
decode-ip_size_example =
    decode-ip_size tcp_frame 54 54 1000 blank_tuple fresh_globals (omega arith) (omega arith)

decode-addresses_example :
    let k = (decode tcp_frame 54 54 1000 blank_tuple fresh_globals).1.key in
    let ip = offset tcp_frame (header_len tcp_frame) in
    let l4 = offset ip (ip 0 % 16 * 4) in
    let ported = ip 9 == 6 || ip 9 == 17 in
    (dotted (ntohl k.src_ip) ≡ dotted_at ip 12)
    × (dotted (ntohl k.dst_ip) ≡ dotted_at ip 16)
    × (k.proto ≡ ip 9)
    × (k.src_port ≡ (if ported then big_endian_at l4 0 else 0))
    × (k.dst_port ≡ (if ported then big_endian_at l4 2 else 0))
decode-addresses_example =
    decode-addresses tcp_frame 54 54 1000 blank_tuple fresh_globals
      (bytes_below frame_bytes (omega arith)) valid_run
