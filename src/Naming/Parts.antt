-- ===== src/Naming/Parts.antt =====
-- Every built name as its parts between slashes, and that no part holds a slash.
use ip_ndn_stack_cpp.Prelude.{
  ℕ, ◌<◌, ◌≡◌, ◌≢◌, List, [], ◌∷◌, append_assoc, arith, All, All-append, ltb, Bool-cases, inl, inr,
  ◌-◌,
}
use ip_ndn_stack_cpp.Text.{Bytes, codes, slash, dash, dot, Lacks, join, to_string}
use ip_ndn_stack_cpp.Text.Decimal.{to_string-Lacks}
use ip_ndn_stack_cpp.Word.{ntohs, ntohl, shr, low_byte, int_to_string, int_limit, u32_mod}
use ip_ndn_stack_cpp.Naming.{dotted, flow_uid, build_name, build_4_tuple_key}

-- The parts of the four kinds of name.
abbrev pub pre_parts : ℕ → ℕ → Bytes → List Bytes
pre_parts sip dip uid =
    codes "IP" ∷ codes "pre" ∷ dotted (ntohl dip) ∷ dotted (ntohl sip) ∷ uid ∷ []

abbrev pub data_parts : ℕ → ℕ → Bytes → List Bytes
data_parts sip dip uid = codes "IP" ∷ dotted (ntohl sip) ∷ dotted (ntohl dip) ∷ uid ∷ []

abbrev pub tcp_pre_parts : ℕ → ℕ → Bytes → List Bytes
tcp_pre_parts sip dip uid =
    codes "IP" ∷ codes "TCP" ∷ codes "pre" ∷ dotted (ntohl dip) ∷ dotted (ntohl sip) ∷ uid ∷ []

abbrev pub tcp_data_parts : ℕ → ℕ → Bytes → List Bytes
tcp_data_parts sip dip uid =
    codes "IP" ∷ codes "TCP" ∷ dotted (ntohl sip) ∷ dotted (ntohl dip) ∷ uid ∷ []

module _ (sip dip sport dport seq : ℕ) (uid : Bytes) where
  pub build_name-pre :
      (build_name sip dip sport dport 1 seq uid).0 ≡ join slash [] (pre_parts sip dip uid)
  unfolding build_name
  build_name-pre = simp append_assoc

  pub build_name-data :
      (build_name sip dip sport dport 2 seq uid).0 ≡ join slash [] (data_parts sip dip uid)
  unfolding build_name
  build_name-data = simp append_assoc

  pub build_name-tcp_pre :
      (build_name sip dip sport dport 3 seq uid).0
      ≡ join slash [] (tcp_pre_parts sip dip (flow_uid sport dport seq))
  unfolding build_name
  build_name-tcp_pre = simp append_assoc

  pub build_name-tcp_data :
      (build_name sip dip sport dport 4 seq uid).0
      ≡ join slash [] (tcp_data_parts sip dip (flow_uid sport dport seq))
  unfolding build_name
  build_name-tcp_data = simp append_assoc

pub build_4_tuple_key-join :
    (sip dip sport dport : ℕ)
    → build_4_tuple_key sip dip sport dport
      ≡ join slash
          (dotted (ntohl sip))
          (dotted (ntohl dip) ∷ to_string (ntohs sport) ∷ to_string (ntohs dport) ∷ [])
unfolding build_4_tuple_key
build_4_tuple_key-join sip dip sport dport = simp append_assoc

abbrev pub octets : ℕ → List Bytes
octets ip =
    to_string (low_byte (shr ip 16))
    ∷ to_string (low_byte (shr ip 8))
    ∷ to_string (low_byte (shr ip 0))
    ∷ []

pub dotted-join : (ip : ℕ) → dotted ip ≡ join dot (to_string (low_byte (shr ip 24))) (octets ip)
unfolding dotted
dotted-join ip = simp append_assoc

pub flow_uid-join :
    (sport dport seq : ℕ)
    → flow_uid sport dport seq
      ≡ join dash (to_string (ntohs sport)) (to_string (ntohs dport) ∷ int_to_string seq ∷ [])
unfolding flow_uid
flow_uid-join sport dport seq = simp append_assoc

-- A joined text lacks a byte that neither its parts nor its separator hold.
pub join-Lacks :
    (b sep : ℕ) (p : Bytes) (ps : List Bytes)
    → Lacks b (sep ∷ [])
    → All (Lacks b) (p ∷ ps)
    → Lacks b (join sep p ps)
join-Lacks b sep p [] h (hp, _) = hp
join-Lacks b sep p (q ∷ qs) h (hp, hs) = All-append _ p _ hp (h.0, join-Lacks b sep q qs h hs)

pub dotted-Lacks : (b ip : ℕ) → b < b'0' → dot ≢ b → Lacks b (dotted ip)
dotted-Lacks b ip h ne =
    let d = λ (n : ℕ). to_string-Lacks b n h in
    rw (dotted-join ip) (
      join-Lacks b dot (to_string (low_byte (shr ip 24))) (octets ip) (ne, tt)
        (
          d (low_byte (shr ip 24)),
          (d (low_byte (shr ip 16)), (d (low_byte (shr ip 8)), (d (low_byte (shr ip 0)), tt))),
        ))

int_to_string-Lacks : (w : ℕ) → Lacks slash (int_to_string w)
unfolding int_to_string
int_to_string-Lacks w = elim (Bool-cases (ltb w int_limit)) [
  | inl small ↦ rw small (to_string-Lacks slash w (omega arith))
  | inr large ↦ rw large (omega arith, to_string-Lacks slash (u32_mod - w) (omega arith))
]

-- A dotted address in network order, as it stands in a name.
pub slashless : (ip : ℕ) → Lacks slash (dotted (ntohl ip))
slashless ip = dotted-Lacks slash (ntohl ip) (omega arith) (omega arith)

pub flow_uid-Lacks : (sport dport seq : ℕ) → Lacks slash (flow_uid sport dport seq)
flow_uid-Lacks sport dport seq = rw (flow_uid-join sport dport seq) (
    join-Lacks slash dash (to_string (ntohs sport))
      (to_string (ntohs dport) ∷ int_to_string seq ∷ []) (omega arith)
      (
        to_string-Lacks slash (ntohs sport) (omega arith),
        (to_string-Lacks slash (ntohs dport) (omega arith), (int_to_string-Lacks seq, tt)),
      ))

-- No part of a name holds a slash, if the uid does not.
pub tcp_pre_parts-Lacks :
    (sip dip : ℕ) (uid : Bytes)
    → Lacks slash uid
    → All (Lacks slash) ([] ∷ tcp_pre_parts sip dip uid)
tcp_pre_parts-Lacks sip dip uid h =
    (tt, (omega arith, (omega arith, (omega arith, (slashless dip, (slashless sip, (h, tt)))))))

pub tcp_data_parts-Lacks :
    (sip dip : ℕ) (uid : Bytes)
    → Lacks slash uid
    → All (Lacks slash) ([] ∷ tcp_data_parts sip dip uid)
tcp_data_parts-Lacks sip dip uid h =
    (tt, (omega arith, (omega arith, (slashless sip, (slashless dip, (h, tt))))))

pub pre_parts-Lacks :
    (sip dip : ℕ) (uid : Bytes) → Lacks slash uid → All (Lacks slash) ([] ∷ pre_parts sip dip uid)
pre_parts-Lacks sip dip uid h =
    (tt, (omega arith, (omega arith, (slashless dip, (slashless sip, (h, tt))))))

pub data_parts-Lacks :
    (sip dip : ℕ) (uid : Bytes) → Lacks slash uid → All (Lacks slash) ([] ∷ data_parts sip dip uid)
data_parts-Lacks sip dip uid h = (tt, (omega arith, (slashless sip, (slashless dip, (h, tt)))))
