-- ===== src/Naming/Injective.antt =====
-- Names determine what they were built from.
use ip_ndn_stack_cpp.Prelude.{ℕ, ◌<◌, ◌≡◌, sym, ap, ◌∙◌, List, [], ◌∷◌, arith, All}
use ip_ndn_stack_cpp.Text.{Bytes, slash, dash, dot, Lacks, to_string}
use ip_ndn_stack_cpp.Text.Decimal.{to_string-injective, to_string-Lacks}
use ip_ndn_stack_cpp.Text.Split.{join-injective}
use ip_ndn_stack_cpp.Word.{
  ntohs, ntohl, ntohs-ntohs, ntohl-ntohl, ntohl-lt, shr, low_byte, int_to_string, int_to_string-lt,
  int_limit, u16_mod, u32_mod,
}
use ip_ndn_stack_cpp.Naming.{dotted, flow_uid, build_name, build_4_tuple_key}
use ip_ndn_stack_cpp.Naming.Parts.{
  octets, dotted-join, flow_uid-join, flow_uid-Lacks, slashless, tcp_data_parts-Lacks,
  tcp_data_parts, build_name-tcp_data, build_4_tuple_key-join,
}

pub octets-Lacks : (ip : ℕ) → All (Lacks dot) (to_string (low_byte (shr ip 24)) ∷ octets ip)
octets-Lacks ip =
    let d = λ (n : ℕ). to_string-Lacks dot n (omega arith) in
    (
      d (low_byte (shr ip 24)),
      (d (low_byte (shr ip 16)), (d (low_byte (shr ip 8)), (d (low_byte (shr ip 0)), tt))),
    )

module _ {ℓ} {A : Type ℓ} {a b c d a' b' c' d' : A} where
  pub parts_of_four :
      ◌≡◌ {A = List A} (a ∷ b ∷ c ∷ d ∷ []) (a' ∷ b' ∷ c' ∷ d' ∷ [])
      → (a ≡ a') × (b ≡ b') × (c ≡ c') × (d ≡ d')
  parts_of_four e = (cc, cc, cc, cc)

module _ {ℓ} {A : Type ℓ} {a b c a' b' c' : A} where
  pub parts_of_three :
      ◌≡◌ {A = List A} (a ∷ b ∷ c ∷ []) (a' ∷ b' ∷ c' ∷ []) → (a ≡ a') × (b ≡ b') × (c ≡ c')
  parts_of_three e = (cc, cc, cc)

  pub last_three :
      {u v w : A}
      → ◌≡◌ {A = List A} (u ∷ v ∷ w ∷ a ∷ b ∷ c ∷ []) (u ∷ v ∷ w ∷ a' ∷ b' ∷ c' ∷ [])
      → (a ≡ a') × (b ≡ b') × (c ≡ c')
  last_three e = (cc, cc, cc)

pub dotted-injective : (x y : ℕ) → x < u32_mod → y < u32_mod → dotted x ≡ dotted y → x ≡ y
dotted-injective x y hx hy e =
    let (a, b, c, d) = parts_of_four (
      join-injective dot (to_string (low_byte (shr x 24))) (to_string (low_byte (shr y 24)))
        (octets x) (octets y) (octets-Lacks x) (octets-Lacks y)
        (sym (dotted-join x) ∙ e ∙ dotted-join y)) in
    omega (
      arith,
      to_string-injective _ _ a,
      to_string-injective _ _ b,
      to_string-injective _ _ c,
      to_string-injective _ _ d,
    )

pub address-injective :
    (x y : ℕ) → x < u32_mod → y < u32_mod → dotted (ntohl x) ≡ dotted (ntohl y) → x ≡ y
address-injective x y hx hy e =
    sym (ntohl-ntohl x hx)
    ∙ ap ntohl (dotted-injective (ntohl x) (ntohl y) (ntohl-lt x) (ntohl-lt y) e)
    ∙ ntohl-ntohl y hy

pub port-injective :
    (x y : ℕ) → x < u16_mod → y < u16_mod → to_string (ntohs x) ≡ to_string (ntohs y) → x ≡ y
port-injective x y hx hy e =
    sym (ntohs-ntohs x hx) ∙ ap ntohs (to_string-injective (ntohs x) (ntohs y) e) ∙ ntohs-ntohs y hy

pub uid_parts-Lacks :
    (sport dport seq : ℕ)
    → seq < int_limit
    → All (Lacks dash) (to_string (ntohs sport) ∷ to_string (ntohs dport) ∷ int_to_string seq ∷ [])
uid_parts-Lacks sport dport seq h = rw (int_to_string-lt seq h) (
  to_string-Lacks dash (ntohs sport) (omega arith),
  (to_string-Lacks dash (ntohs dport) (omega arith), (to_string-Lacks dash seq (omega arith), tt)),
)

-- Flows, as their addresses and ports in network order.
pub record Flow : Type 0 where
  pub src_ip : ℕ
  pub dst_ip : ℕ
  pub src_port : ℕ
  pub dst_port : ℕ

pub record IsFlow (f : Flow) : Type 0 where
  pub src_ip_fits : f.src_ip < u32_mod
  pub dst_ip_fits : f.dst_ip < u32_mod
  pub src_port_fits : f.src_port < u16_mod
  pub dst_port_fits : f.dst_port < u16_mod

abbrev pub flow_key : Flow → Bytes
flow_key f = build_4_tuple_key f.src_ip f.dst_ip f.src_port f.dst_port

abbrev pub flow_data_name : Flow → ℕ → Bytes
flow_data_name f seq = (build_name f.src_ip f.dst_ip f.src_port f.dst_port 4 seq []).0

uid-injective :
    (f g : Flow) (m n : ℕ)
    → IsFlow f
    → IsFlow g
    → m < int_limit
    → n < int_limit
    → flow_uid f.src_port f.dst_port m ≡ flow_uid g.src_port g.dst_port n
    → (f.src_port ≡ g.src_port) × (f.dst_port ≡ g.dst_port) × (m ≡ n)
uid-injective f g m n hf hg hm hn e =
    let (a, b, c) = parts_of_three (
      join-injective dash (to_string (ntohs f.src_port)) (to_string (ntohs g.src_port))
        (to_string (ntohs f.dst_port) ∷ int_to_string m ∷ [])
        (to_string (ntohs g.dst_port) ∷ int_to_string n ∷ [])
        (uid_parts-Lacks f.src_port f.dst_port m hm) (uid_parts-Lacks g.src_port g.dst_port n hn)
        (sym (flow_uid-join f.src_port f.dst_port m)
          ∙ e
          ∙ flow_uid-join g.src_port g.dst_port n)) in
    (
      port-injective f.src_port g.src_port hf.src_port_fits hg.src_port_fits a,
      port-injective f.dst_port g.dst_port hf.dst_port_fits hg.dst_port_fits b,
      to_string-injective m n (sym (int_to_string-lt m hm) ∙ c ∙ int_to_string-lt n hn),
    )

flow_eq :
    (f g : Flow)
    → f.src_ip ≡ g.src_ip
    → f.dst_ip ≡ g.dst_ip
    → f.src_port ≡ g.src_port
    → f.dst_port ≡ g.dst_port
    → f ≡ g
flow_eq f g a b c d = ground arith

-- Two packets of flows are published under the same name only if they are of the same flow and
-- carry the same number, for numbers that an int holds.
pub flow_data_name-injective :
    (f g : Flow) (m n : ℕ)
    → IsFlow f
    → IsFlow g
    → m < int_limit
    → n < int_limit
    → flow_data_name f m ≡ flow_data_name g n
    → (f ≡ g) × (m ≡ n)
flow_data_name-injective f g m n hf hg hm hn e =
    let u = flow_uid f.src_port f.dst_port m in
    let v = flow_uid g.src_port g.dst_port n in
    let (s, d, w) = last_three (
      join-injective slash [] [] (tcp_data_parts f.src_ip f.dst_ip u)
        (tcp_data_parts g.src_ip g.dst_ip v)
        (tcp_data_parts-Lacks f.src_ip f.dst_ip u (flow_uid-Lacks f.src_port f.dst_port m))
        (tcp_data_parts-Lacks g.src_ip g.dst_ip v (flow_uid-Lacks g.src_port g.dst_port n))
        (sym (build_name-tcp_data f.src_ip f.dst_ip f.src_port f.dst_port m [])
          ∙ e
          ∙ build_name-tcp_data g.src_ip g.dst_ip g.src_port g.dst_port n [])) in
    let (p, q, k) = uid-injective f g m n hf hg hm hn w in
    (
      flow_eq f g (address-injective f.src_ip g.src_ip hf.src_ip_fits hg.src_ip_fits s)
          (address-injective f.dst_ip g.dst_ip hf.dst_ip_fits hg.dst_ip_fits d) p q,
      k,
    )

key_parts-Lacks :
    (f : Flow)
    → All (Lacks slash) (
        dotted (ntohl f.src_ip)
        ∷ dotted (ntohl f.dst_ip)
        ∷ to_string (ntohs f.src_port)
        ∷ to_string (ntohs f.dst_port)
        ∷ [])
key_parts-Lacks f = (
  slashless f.src_ip,
  (
    slashless f.dst_ip,
    (
      to_string-Lacks slash (ntohs f.src_port) (omega arith),
      (to_string-Lacks slash (ntohs f.dst_port) (omega arith), tt),
    ),
  ),
)

-- The key of a flow in the sequence table belongs to that flow alone; the addresses and ports of both
-- flows fit their fields.
pub flow_key-injective : (f g : Flow) → IsFlow f → IsFlow g → flow_key f ≡ flow_key g → f ≡ g
flow_key-injective f g hf hg e =
    let (a, b, c, d) = parts_of_four (
      join-injective slash (dotted (ntohl f.src_ip)) (dotted (ntohl g.src_ip))
        (dotted (ntohl f.dst_ip) ∷ to_string (ntohs f.src_port) ∷ to_string (ntohs f.dst_port) ∷ [])
        (dotted (ntohl g.dst_ip) ∷ to_string (ntohs g.src_port) ∷ to_string (ntohs g.dst_port) ∷ [])
        (key_parts-Lacks f) (key_parts-Lacks g)
        (sym (build_4_tuple_key-join f.src_ip f.dst_ip f.src_port f.dst_port)
          ∙ e
          ∙ build_4_tuple_key-join g.src_ip g.dst_ip g.src_port g.dst_port)) in
    flow_eq f g (address-injective f.src_ip g.src_ip hf.src_ip_fits hg.src_ip_fits a)
      (address-injective f.dst_ip g.dst_ip hf.dst_ip_fits hg.dst_ip_fits b)
      (port-injective f.src_port g.src_port hf.src_port_fits hg.src_port_fits c)
      (port-injective f.dst_port g.dst_port hf.dst_port_fits hg.dst_port_fits d)
