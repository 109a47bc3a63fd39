-- ===== src/Packet/Sums.antt =====
-- The counters add up: every frame is counted once in the total and once under its status. The
-- report of the statistics counts two failures that no frame had.
use ip_ndn_stack_cpp.Prelude.{
  ℕ, ◌+◌, ◌%◌, ◌≡◌, refl, ◌≢◌, ◌==◌, ◌∙◌, ap, if◌then◌else◌, List, [], ◌∷◌, Bool, Option, arith,
}
use ip_ndn_stack_cpp.Word.{u64_mod}
use ip_ndn_stack_cpp.Tuple.{Memory, Tuple}
use ip_ndn_stack_cpp.Packet.Stat.{
  Status, init, valid, non_ip, ip_not_full, ip_ver_fail, ip_chksum_fail, ip_frag, tcp_not_full,
  udp_not_full, icmp_not_full, undefined, non_gtp, non_gprs, PacketStat, Globals, observe, tally,
}
use ip_ndn_stack_cpp.Text.{Bytes}
use ip_ndn_stack_cpp.Packet.Report.{Shares, counted_on, report_final_stat_file}
use ip_ndn_stack_cpp.Packet.Decode.{
  eth_len_default, link_level, ip_level, transport_level, frame_status, decode,
}

-- The frames counted under some status.
abbrev pub judged : PacketStat → ℕ
judged p =
    p.valid_pkt_cnt + p.non_ip_cnt + p.ip_not_full_cnt + p.ip_ver_fail_cnt + p.ip_chksum_fail_cnt
    + p.ip_frag_cnt + p.tcp_not_full_cnt + p.udp_not_full_cnt + p.icmp_not_full_cnt
    + p.undefined_cnt + p.non_gtp_cnt + p.non_gprs_cnt

-- The total is the number of judged frames, as far as 64 bits show.
abbrev pub IsBalanced : PacketStat → Type 0
IsBalanced p = p.tot_pkt_cnt % u64_mod ≡ judged p % u64_mod

-- The counter of each status, in the order of the statuses.
abbrev pub by_status : PacketStat → List (Status × ℕ)
by_status p =
    (valid, p.valid_pkt_cnt)
    ∷ (non_ip, p.non_ip_cnt)
    ∷ (ip_not_full, p.ip_not_full_cnt)
    ∷ (ip_ver_fail, p.ip_ver_fail_cnt)
    ∷ (ip_chksum_fail, p.ip_chksum_fail_cnt)
    ∷ (ip_frag, p.ip_frag_cnt)
    ∷ (tcp_not_full, p.tcp_not_full_cnt)
    ∷ (udp_not_full, p.udp_not_full_cnt)
    ∷ (icmp_not_full, p.icmp_not_full_cnt)
    ∷ (undefined, p.undefined_cnt)
    ∷ (non_gtp, p.non_gtp_cnt)
    ∷ (non_gprs, p.non_gprs_cnt)
    ∷ []

-- The value of a status in the enumeration of packet.h.
abbrev pub code : Status → ℕ
code init = 0
code valid = 1
code non_ip = 2
code ip_not_full = 3
code ip_ver_fail = 4
code ip_chksum_fail = 5
code ip_frag = 6
code tcp_not_full = 7
code udp_not_full = 8
code icmp_not_full = 9
code undefined = 10
code non_gtp = 11
code non_gprs = 12

-- One more in the 64-bit counter of that status, and in no other.
unfoldable pub bumped : Status → List (Status × ℕ) → List (Status × ℕ)
bumped st [] = []
bumped st (c ∷ cs) = (c.0, if code c.0 == code st then (c.1 + 1) % u64_mod else c.1) ∷ bumped st cs

tally-judged :
    (st : Status) (c a : ℕ) (p : PacketStat)
    → st ≢ init
    → judged (tally st c a p) % u64_mod ≡ (judged p + 1) % u64_mod
unfolding tally
tally-judged valid c a p h = omega arith
tally-judged non_ip c a p h = omega arith
tally-judged ip_not_full c a p h = omega arith
tally-judged ip_ver_fail c a p h = omega arith
tally-judged ip_chksum_fail c a p h = omega arith
tally-judged ip_frag c a p h = omega arith
tally-judged tcp_not_full c a p h = omega arith
tally-judged udp_not_full c a p h = omega arith
tally-judged icmp_not_full c a p h = omega arith
tally-judged undefined c a p h = omega arith
tally-judged non_gtp c a p h = omega arith
tally-judged non_gprs c a p h = omega arith
tally-judged init c a p h = absurd (h refl)

tally-total :
    (st : Status) (c a : ℕ) (p : PacketStat) → (tally st c a p).tot_pkt_cnt ≡ p.tot_pkt_cnt
unfolding tally
tally-total valid c a p = refl
tally-total _ c a p = refl

observe-judged : (c a t : ℕ) (p : PacketStat) → judged (observe c a t p) ≡ judged p
unfolding observe
observe-judged c a t p = refl

observe-by_status : (c a t : ℕ) (p : PacketStat) → by_status (observe c a t p) ≡ by_status p
unfolding observe
observe-by_status c a t p = refl

observe-total :
    (c a t : ℕ) (p : PacketStat) → (observe c a t p).tot_pkt_cnt ≡ (p.tot_pkt_cnt + 1) % u64_mod
unfolding observe
observe-total c a t p = refl

link_level-ne-init : (pkt : Memory) (e : ℕ) → (link_level pkt e).1 ≢ init
unfolding link_level
link_level-ne-init pkt e = ground arith

ip_level-ne-init : (ip : Memory) (len : ℕ) (st : Status) → st ≢ init → ip_level ip len st ≢ init
unfolding ip_level
ip_level-ne-init ip len st h = ground arith

transport_level-ne-init :
    (ip : Memory) (len : ℕ) (st : Status) → st ≢ init → transport_level ip len st ≢ init
unfolding transport_level
transport_level-ne-init ip len st h = ground arith

frame_status-ne-init : (pkt : Memory) (cap_len : ℕ) → (frame_status pkt cap_len).1 ≢ init
unfolding frame_status
frame_status-ne-init pkt cap_len =
    transport_level-ne-init _ _ _ (ip_level-ne-init _ _ _ (link_level-ne-init pkt eth_len_default))

tallied-IsBalanced :
    (st : Status) (c a t : ℕ) (p : PacketStat)
    → st ≢ init
    → IsBalanced p
    → IsBalanced (tally st c a (observe c a t p))
tallied-IsBalanced st c a t p h b = omega (
  arith,
  tally-judged st c a (observe c a t p) h,
  tally-total st c a (observe c a t p),
  observe-judged c a t p,
  observe-total c a t p,
)

decode-stat :
    (pkt : Memory) (cap_len act_len ts : ℕ) (p : Tuple) (g : Globals)
    → (decode pkt cap_len act_len ts p g).2.stat
      ≡ tally (frame_status pkt cap_len).1 cap_len act_len (observe cap_len act_len ts g.stat)
unfolding decode
decode-stat pkt cap_len act_len ts p g = ground arith

tally-by_status :
    (st : Status) (c a : ℕ) (p : PacketStat)
    → st ≢ init
    → by_status (tally st c a p) ≡ bumped st (by_status p)
unfolding tally bumped
tally-by_status valid c a p h = refl
tally-by_status non_ip c a p h = refl
tally-by_status ip_not_full c a p h = refl
tally-by_status ip_ver_fail c a p h = refl
tally-by_status ip_chksum_fail c a p h = refl
tally-by_status ip_frag c a p h = refl
tally-by_status tcp_not_full c a p h = refl
tally-by_status udp_not_full c a p h = refl
tally-by_status icmp_not_full c a p h = refl
tally-by_status undefined c a p h = refl
tally-by_status non_gtp c a p h = refl
tally-by_status non_gprs c a p h = refl
tally-by_status init c a p h = absurd (h refl)

-- Decoding a frame, whatever it holds, counts it once in the total and once in the counter of the
-- status that its checks gave, and leaves the counters of the other statuses; so a total that is the
-- sum of the counters of all statuses, modulo 2^64, stays that.
pub decode-IsBalanced :
    (pkt : Memory) (cap_len act_len ts : ℕ) (p : Tuple) (g : Globals)
    → IsBalanced g.stat
    → let after = (decode pkt cap_len act_len ts p g).2.stat in
      (by_status after ≡ bumped (frame_status pkt cap_len).1 (by_status g.stat))
      × (after.tot_pkt_cnt ≡ (g.stat.tot_pkt_cnt + 1) % u64_mod)
      × IsBalanced after
decode-IsBalanced pkt cap_len act_len ts p g b =
    let st = (frame_status pkt cap_len).1 in
    let seen = observe cap_len act_len ts g.stat in
    rw (decode-stat pkt cap_len act_len ts p g) (
      tally-by_status st cap_len act_len seen (frame_status-ne-init pkt cap_len)
          ∙ ap (bumped st) (observe-by_status cap_len act_len ts g.stat),
      tally-total st cap_len act_len seen ∙ observe-total cap_len act_len ts g.stat,
      tallied-IsBalanced st cap_len act_len ts g.stat (frame_status-ne-init pkt cap_len) b,
    )

-- Printing a report, with a file and without one, counts one more checksum failure and one more
-- fragment, and leaves the counters of the other statuses and the total; so balanced counters are
-- balanced no more.
pub report-unbalances :
    (shares : Shares) (fopen : Option Bytes → Bool) (filename : Option Bytes) (p : PacketStat)
    → IsBalanced p
    → let after = (report_final_stat_file shares fopen filename p).1 in
      (by_status after ≡ bumped ip_frag (bumped ip_chksum_fail (by_status p)))
      × (after.tot_pkt_cnt ≡ p.tot_pkt_cnt)
      × (¬ IsBalanced after)
unfolding report_final_stat_file counted_on bumped
report-unbalances shares fopen filename p b = (refl, refl, omega arith)
