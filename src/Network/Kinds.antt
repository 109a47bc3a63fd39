-- ===== src/Network/Kinds.antt =====
-- The fifth byte of a name tells the names of flows from the others, and does so for every name that
-- it is a prefix of.
use ip_ndn_stack_cpp.Prelude.{
  ℕ, ◌≤◌, ◌≡◌, refl, sym, ◌∙◌, [], ◌∷◌, ◌++◌, List, Bool, true, false, Option, some, get_elem?,
  get_elem?-append, arith, All, ◌≢◌,
}
use ip_ndn_stack_cpp.Text.{Bytes, dot, slash, join, to_string}
use ip_ndn_stack_cpp.Text.Decimal.{IsDigit, to_string-IsDigit, to_string-ne-nil}
use ip_ndn_stack_cpp.Word.{low_byte, shr, ntohl}
use ip_ndn_stack_cpp.Naming.{build_name, dotted}
use ip_ndn_stack_cpp.Naming.Parts.{dotted-join, build_name-data}
use ip_ndn_stack_cpp.Naming.Injective.{Flow, flow_data_name}

abbrev pub fifth : Bytes → Option ℕ
fifth s = get_elem? s 4

pub some-injective : {a b : ℕ} → ◌≡◌ {A = Option ℕ} (some a) (some b) → a ≡ b
some-injective e = cc

leading :
    (s rest : Bytes)
    → All IsDigit s
    → s ≢ []
    → (c : ℕ) × (get_elem? (s ++ rest) 0 ≡ some c) × (c ≤ b'9')
leading [] rest h ne = absurd (ne refl)
leading (c ∷ s) rest (d, _) ne = (c, refl, d.1)

-- A name of a flow's data has 'T' there, another name of data a digit.
unfoldable pub IsKind : Bool → Bytes → Type 0
IsKind true name = fifth name ≡ some b'T'
IsKind false name = (c : ℕ) × (fifth name ≡ some c) × (c ≤ b'9')

pub kinds_agree : (a b : Bool) (p rest : Bytes) → IsKind a p → IsKind b (p ++ rest) → a ≡ b
unfolding IsKind
kinds_agree true true p rest h k = refl
kinds_agree true false p rest h (c, k, d) =
    absurd (omega (arith, d, some-injective (sym (get_elem?-append p rest 4 b'T' h) ∙ k)))
kinds_agree false true p rest (c, h, d) k =
    absurd (omega (arith, d, some-injective (sym (get_elem?-append p rest 4 c h) ∙ k)))
kinds_agree false false p rest h k = refl

pub flow-IsKind : (f : Flow) (n : ℕ) → IsKind true (flow_data_name f n)
unfolding IsKind build_name
flow-IsKind f n = refl

octets_after : ℕ → List Bytes
octets_after x = to_string (low_byte (shr x 8)) ∷ to_string (low_byte (shr x 0)) ∷ []

dotted-leading : (x : ℕ) → (c : ℕ) × (get_elem? (dotted x) 0 ≡ some c) × (c ≤ b'9')
unfolding octets_after
dotted-leading x =
    let first = low_byte (shr x 24) in
    rw (dotted-join x) (
      leading (to_string first) (dot ∷ join dot (to_string (low_byte (shr x 16))) (octets_after x))
        (to_string-IsDigit first) (to_string-ne-nil first))

pub other-IsKind :
    (f : Flow) (n : ℕ) (uid : Bytes)
    → IsKind false (build_name f.src_ip f.dst_ip f.src_port f.dst_port 2 n uid).0
unfolding IsKind
other-IsKind f n uid =
    let (c, h, d) = dotted-leading (ntohl f.src_ip) in
    let rest = slash ∷ join slash (dotted (ntohl f.dst_ip)) (uid ∷ []) in
    rw (build_name-data f.src_ip f.dst_ip f.src_port f.dst_port n uid)
      (c, get_elem?-append (dotted (ntohl f.src_ip)) rest 0 c h, d)
