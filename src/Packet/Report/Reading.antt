-- ===== src/Packet/Report/Reading.antt =====
-- The counters of a report, read back from its text line by line.
use ip_ndn_stack_cpp.Prelude.{
  Bool, ℕ, ◌≡◌, refl, ap, ◌∙◌, List, [], ◌∷◌, ◌++◌, map, append_assoc, All, All-append, Option,
  some, get_elem?, arith, if◌then◌else◌,
}
use ip_ndn_stack_cpp.Text.{Bytes, codes, to_string, Lacks}
use ip_ndn_stack_cpp.Text.Decimal.{
  IsDigit, value, value-to_string, to_string-IsDigit, to_string-Lacks,
}
use ip_ndn_stack_cpp.Text.Split.{split, split-line, split-whole}
use ip_ndn_stack_cpp.Packet.Stat.{PacketStat}
use ip_ndn_stack_cpp.Packet.Report.{
  opened_file, standard_error, Shares, rule, count_lines, stat_counters, packet_stat_text,
  report_to, report_final_stat_file,
}

abbrev colon : ℕ
colon = b':'

-- The number behind the colon of a line, and the blank there, if it has one colon.
count_of : List Bytes → List ℕ
count_of [] = []
count_of (label ∷ []) = []
count_of (label ∷ [] ∷ rest) = []
count_of (label ∷ (blank ∷ digits) ∷ []) = value 0 digits ∷ []
count_of (label ∷ (blank ∷ digits) ∷ other ∷ rest) = []

counts_of : List Bytes → List ℕ
unfolding count_of
counts_of [] = []
counts_of (line ∷ lines) = count_of (split line colon) ++ counts_of lines

unfoldable pub read_counters : Bytes → List ℕ
unfolding counts_of
read_counters text = counts_of (split text 10)

-- A label with one colon, a blank behind it, and no end of line.
record IsLabel (label : Bytes) : Type 0 where
  word : Bytes
  spelled : label ≡ word ++ codes ": "
  one_colon : Lacks colon word
  one_line : Lacks 10 word

digits-Lacks-colon : (s : Bytes) → All IsDigit s → Lacks colon s
digits-Lacks-colon [] h = tt
digits-Lacks-colon (c ∷ s) (d, ds) = (omega arith, digits-Lacks-colon s ds)

labelled : Bytes × ℕ → Bytes
labelled (label, n) = label ++ to_string n

count_of-labelled :
    (label : Bytes) (n : ℕ) → IsLabel label → count_of (split (label ++ to_string n) colon) ≡ n ∷ []
unfolding count_of
count_of-labelled label n l =
    rw (l.spelled, append_assoc l.word (codes ": ") (to_string n))
      (rw (split-line colon l.word (32 ∷ to_string n) l.one_colon) (
        rw
          (split-whole colon (32 ∷ to_string n)
            (omega arith, digits-Lacks-colon (to_string n) (to_string-IsDigit n)))
          (ap (λ v. v ∷ []) (value-to_string n))))

labelled-Lacks : (label : Bytes) (n : ℕ) → IsLabel label → Lacks 10 (label ++ to_string n)
labelled-Lacks label n l =
    All-append _ label (to_string n)
      (rw l.spelled (All-append _ l.word (codes ": ") l.one_line (omega arith)))
      (to_string-Lacks 10 n (omega arith))

AllLabels : List (Bytes × ℕ) → Type 0
AllLabels [] = Unit {0}
AllLabels ((label, n) ∷ rest) = IsLabel label × AllLabels rest

abbrev numbers : List (Bytes × ℕ) → List ℕ
numbers = map (λ (x : Bytes × ℕ). x.1)

read-count_lines :
    (ls : List (Bytes × ℕ)) (rest : Bytes)
    → AllLabels ls
    → counts_of (split (count_lines ls ++ rest) 10) ≡ numbers ls ++ counts_of (split rest 10)
unfolding counts_of count_lines AllLabels
read-count_lines [] rest h = refl
read-count_lines ((label, n) ∷ ls) rest (l, h) =
    let line = label ++ to_string n in
    let more = count_lines ls ++ rest in
    let shape : (label ++ (to_string n ++ (10 ∷ count_lines ls))) ++ rest
        ≡ (label ++ to_string n) ++ (10 ∷ (count_lines ls ++ rest)) =
      simp append_assoc in
    ap (λ s. counts_of (split s 10)) shape
    ∙ ap counts_of (split-line 10 line more (labelled-Lacks label n l))
    ∙ ap (λ v. v ++ counts_of (split more 10)) (count_of-labelled label n l)
    ∙ ap (λ v. n ∷ v) (read-count_lines ls rest h)

IsLabel-of : (word : Bytes) → Lacks colon word → Lacks 10 word → IsLabel (word ++ codes ": ")
IsLabel-of word hc hl = record { word = word; spelled = refl; one_colon = hc; one_line = hl }

stat_labels : (p : PacketStat) → AllLabels (stat_counters p)
unfolding AllLabels
stat_labels p = (
  IsLabel-of (codes "\tTotal packets observed") (omega arith) (omega arith),
  (
    IsLabel-of (codes "\tTotal bytes observed (capture)") (omega arith) (omega arith),
    (
      IsLabel-of (codes "\tTotal bytes observed (actual)") (omega arith) (omega arith),
      (
        IsLabel-of (codes "\tValid packet count") (omega arith) (omega arith),
        (
          IsLabel-of (codes "\tValid byte count(capture)") (omega arith) (omega arith),
          (
            IsLabel-of (codes "\tValid byte count(actual)") (omega arith) (omega arith),
            (
              IsLabel-of (codes "\tNon-IP packet count") (omega arith) (omega arith),
              (
                IsLabel-of (codes "\tIP-not-full packet count") (omega arith) (omega arith),
                (
                  IsLabel-of (codes "\tIP-version-failed packet count") (omega arith) (omega arith),
                  (
                    IsLabel-of (codes "\tIP-checksum-failed packet count") (omega arith)
                        (omega arith),
                    (
                      IsLabel-of (codes "\tIP-fragment packet count") (omega arith) (omega arith),
                      (
                        IsLabel-of (codes "\tTCP-not-full packet count") (omega arith)
                            (omega arith),
                        (
                          IsLabel-of (codes "\tUDP-not-full packet count") (omega arith)
                              (omega arith),
                          (
                            IsLabel-of (codes "\tICMP-not-full packet count") (omega arith)
                                (omega arith),
                            (
                              IsLabel-of (codes "\tUndefined packet count") (omega arith)
                                  (omega arith),
                              (
                                IsLabel-of (codes "\tNon-GTP packet count") (omega arith)
                                    (omega arith),
                                (
                                  IsLabel-of (codes "\tNon-GPRS packet count") (omega arith)
                                      (omega arith),
                                  tt,
                                ),
                              ),
                            ),
                          ),
                        ),
                      ),
                    ),
                  ),
                ),
              ),
            ),
          ),
        ),
      ),
    ),
  ),
)

heading :
    (s : Bytes)
    → counts_of (split (codes "\nPacket Stat\n" ++ (rule ++ s)) 10) ≡ counts_of (split s 10)
unfolding counts_of count_of split
heading s = refl

-- The seventeen counters, in the order of the report.
abbrev pub counters : PacketStat → List ℕ
counters p =
    p.tot_pkt_cnt ∷ p.tot_cap_byte_cnt ∷ p.tot_act_byte_cnt ∷ p.valid_pkt_cnt ∷ p.valid_cap_byte_cnt
    ∷ p.valid_act_byte_cnt ∷ p.non_ip_cnt ∷ p.ip_not_full_cnt ∷ p.ip_ver_fail_cnt
    ∷ p.ip_chksum_fail_cnt ∷ p.ip_frag_cnt ∷ p.tcp_not_full_cnt ∷ p.udp_not_full_cnt
    ∷ p.icmp_not_full_cnt ∷ p.undefined_cnt ∷ p.non_gtp_cnt ∷ p.non_gprs_cnt ∷ []

read_counters-packet_stat_text : (p : PacketStat) → read_counters (packet_stat_text p) ≡ counters p
unfolding read_counters packet_stat_text split
read_counters-packet_stat_text p =
    heading (count_lines (stat_counters p) ++ rule)
    ∙ read-count_lines (stat_counters p) rule (stat_labels p)

module _ (shares : Shares) (fopen : Option Bytes → Bool) where
  -- The last text of a report, which goes to the file if that can be opened and to the standard error
  -- otherwise, reads back line by line as the seventeen counters before the report, in order.
  pub report-reads :
      (filename : Option Bytes) (p : PacketStat)
      → (text : Bytes) × (get_elem? (report_final_stat_file shares fopen filename p).0.printed 2
          ≡ some (record {
            stream = if fopen filename then opened_file else standard_error;
            text = text;
          }))
        × (read_counters text ≡ counters p)
  unfolding report_final_stat_file report_to
  report-reads filename p = (packet_stat_text p, refl, read_counters-packet_stat_text p)
