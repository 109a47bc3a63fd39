-- ===== src/Packet/Report.antt =====
-- The text of the statistics: report_final_stat_file and report_final_stat of libpcapcapture/packet.cpp.
pub mod Reading
use ip_ndn_stack_cpp.Prelude.{ℕ, List, [], ◌∷◌, ◌++◌, Bool, Option, none, if◌then◌else◌}
use ip_ndn_stack_cpp.Text.{Bytes, codes, to_string}
use ip_ndn_stack_cpp.Packet.Stat.{PacketStat, add64}

pub data Stream : Type 0 where
  standard_output standard_error opened_file : Stream

-- One call of printf or fprintf.
pub record Printed : Type 0 where
  pub stream : Stream
  pub text : Bytes

-- What is printed, in order, and whether the file is closed.
pub record Report : Type 0 where
  pub printed : List Printed
  pub closed : Bool

-- The texts that "%.2lf" makes of the quotients, which are of doubles.
pub record Shares : Type 0 where
  pub used_seconds : PacketStat → Bytes
  pub packets_per_second : PacketStat → Bytes
  pub gigabits_per_second : PacketStat → Bytes
  pub trace_duration : PacketStat → Bytes

abbrev pub rule : Bytes
rule = codes "=========================================\n"

-- A label, "%lu" and the end of the line, for each counter.
unfoldable pub count_lines : List (Bytes × ℕ) → Bytes
count_lines [] = []
count_lines ((label, n) ∷ rest) = label ++ (to_string n ++ (codes "\n" ++ count_lines rest))

abbrev pub stat_counters : PacketStat → List (Bytes × ℕ)
stat_counters p =
    (codes "\tTotal packets observed: ", p.tot_pkt_cnt)
    ∷ (codes "\tTotal bytes observed (capture): ", p.tot_cap_byte_cnt)
    ∷ (codes "\tTotal bytes observed (actual): ", p.tot_act_byte_cnt)
    ∷ (codes "\tValid packet count: ", p.valid_pkt_cnt)
    ∷ (codes "\tValid byte count(capture): ", p.valid_cap_byte_cnt)
    ∷ (codes "\tValid byte count(actual): ", p.valid_act_byte_cnt)
    ∷ (codes "\tNon-IP packet count: ", p.non_ip_cnt)
    ∷ (codes "\tIP-not-full packet count: ", p.ip_not_full_cnt)
    ∷ (codes "\tIP-version-failed packet count: ", p.ip_ver_fail_cnt)
    ∷ (codes "\tIP-checksum-failed packet count: ", p.ip_chksum_fail_cnt)
    ∷ (codes "\tIP-fragment packet count: ", p.ip_frag_cnt)
    ∷ (codes "\tTCP-not-full packet count: ", p.tcp_not_full_cnt)
    ∷ (codes "\tUDP-not-full packet count: ", p.udp_not_full_cnt)
    ∷ (codes "\tICMP-not-full packet count: ", p.icmp_not_full_cnt)
    ∷ (codes "\tUndefined packet count: ", p.undefined_cnt)
    ∷ (codes "\tNon-GTP packet count: ", p.non_gtp_cnt)
    ∷ (codes "\tNon-GPRS packet count: ", p.non_gprs_cnt)
    ∷ []

-- The second text of a report.
unfoldable pub packet_stat_text : PacketStat → Bytes
packet_stat_text p = codes "\nPacket Stat\n" ++ (rule ++ (count_lines (stat_counters p) ++ rule))

-- The first text of a report.
unfoldable pub running_stat_text : Shares → PacketStat → Bytes
running_stat_text shares p =
    codes "\nRunning Stat\n"
    ++ rule
    ++ codes "\tUsed time: "
    ++ shares.used_seconds p
    ++ codes " s\n\tSpeed: "
    ++ shares.packets_per_second p
    ++ codes " packets/s ("
    ++ shares.gigabits_per_second p
    ++ codes " Gb/s)\n\tTrace duration: "
    ++ shares.trace_duration p
    ++ codes " s\n"

-- The arguments of the second text count two failures.
unfoldable pub counted_on : PacketStat → PacketStat
counted_on p = record p {
  ip_chksum_fail_cnt = add64 p.ip_chksum_fail_cnt 1;
  ip_frag_cnt = add64 p.ip_frag_cnt 1;
}

-- The speed on the standard output, then both texts to a stream.
unfoldable pub report_to : Shares → Stream → PacketStat → List Printed
unfolding packet_stat_text running_stat_text
report_to shares stream p =
    record { stream = standard_output; text = shares.gigabits_per_second p ++ codes " Gb/s\n" }
    ∷ record { stream = stream; text = running_stat_text shares p }
    ∷ record { stream = stream; text = packet_stat_text p }
    ∷ []

module _ (shares : Shares) (fopen : Option Bytes → Bool) where
  -- `fopen` says whether the file of a name, or of the null pointer, can be opened.
  unfoldable pub report_final_stat_file : Option Bytes → PacketStat → Report × PacketStat
  unfolding report_to counted_on
  report_final_stat_file filename p =
      let opened = fopen filename in
      (
        record {
          printed = report_to shares (if opened then opened_file else standard_error) p;
          closed = opened;
        },
        counted_on p,
      )

  unfoldable pub report_final_stat : PacketStat → Report × PacketStat
  unfolding report_final_stat_file
  report_final_stat p = report_final_stat_file none p
