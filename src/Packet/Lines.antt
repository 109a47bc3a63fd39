-- ===== src/Packet/Lines.antt =====
-- Tuples as lines of text: print_tuple and read_tuple of libpcapcapture/packet.cpp.
pub mod RoundTrip
pub mod Examples
use Prim.Native.Nat.{bit_or}
use ip_ndn_stack_cpp.Prelude.{ℕ, zero, suc, ◌+◌, ◌*◌, ◌%◌, ◌^◌, List, [], ◌∷◌, ◌++◌}
use ip_ndn_stack_cpp.Text.{Bytes, codes, dot, to_string}
use ip_ndn_stack_cpp.Text.Scan.{Directive, blank, byte, number, sscanf, print_long}
use ip_ndn_stack_cpp.Word.{u8_mod, u16_mod, u32_mod, u64_mod, low_byte, shr}
use ip_ndn_stack_cpp.Tuple.{FlowKey, Tuple}

-- An address and a port, "%s(%u)" of ip2a; `rest` follows. The texts are bracketed to the right.
unfoldable pub print_end : ℕ → ℕ → Bytes → Bytes
print_end ip port rest =
    to_string (low_byte ip)
    ++ (dot
        ∷ (to_string (low_byte (shr ip 8))
            ++ (dot
                ∷ (to_string (low_byte (shr ip 16))
                    ++ (dot
                        ∷ (to_string (low_byte (shr ip 24))
                            ++ (b'(' ∷ (to_string port ++ (b')' ∷ rest)))))))))

-- print_tuple: "%s(%u) <-> %s(%u) %u %ld\n".
unfoldable pub print_tuple : Tuple → Bytes
unfolding print_end
print_tuple t = print_end t.key.src_ip t.key.src_port (
    32
    ∷ b'<'
    ∷ b'-'
    ∷ b'>'
    ∷ 32
    ∷ print_end t.key.dst_ip t.key.dst_port
        (32 ∷ (to_string t.key.proto ++ (32 ∷ (print_long t.size ++ 10 ∷ [])))))

-- ".%u.%u.%u(%hu)"; `rest` follows.
abbrev pub end_tail : List Directive → List Directive
end_tail rest =
    byte dot
    ∷ number u32_mod
    ∷ byte dot
    ∷ number u32_mod
    ∷ byte dot
    ∷ number u32_mod
    ∷ byte b'('
    ∷ number u16_mod
    ∷ byte b')'
    ∷ rest

abbrev pub end_format : List Directive → List Directive
end_format rest = number u32_mod ∷ end_tail rest

-- "... <-> ... %hhu %lu".
abbrev pub tuple_format : List Directive
tuple_format = end_format (
    blank
    ∷ byte b'<'
    ∷ byte b'-'
    ∷ byte b'>'
    ∷ blank
    ∷ end_format (blank ∷ number u8_mod ∷ blank ∷ number u64_mod ∷ []))

-- The value of a place: what was assigned, or what it held before.
abbrev pub place : List ℕ → ℕ → ℕ → ℕ
place [] i before = before
place (v ∷ vs) zero before = v
place (v ∷ vs) (suc i) before = place vs i before

-- `a << k` of an unsigned int.
abbrev pub shl : ℕ → ℕ → ℕ
shl a k = a * 2 ^ k % u32_mod

unfoldable pub address_of : ℕ → ℕ → ℕ → ℕ → ℕ
address_of ip1 ip2 ip3 ip4 = bit_or (bit_or (bit_or (shl ip4 24) (shl ip3 16)) (shl ip2 8)) ip1

-- read_tuple, for what the eight local variables hold before they are assigned.
unfoldable pub read_tuple : (ℕ → ℕ) → Bytes → Tuple → Tuple
read_tuple locals line p =
    let vs = sscanf line tuple_format in
    let ip = λ (i : ℕ). place vs i (locals i) in
    record p {
      key = record {
        src_ip = address_of (ip 0) (ip 1) (ip 2) (ip 3);
        dst_ip = address_of (ip 5) (ip 6) (ip 7) (ip 8);
        src_port = place vs 4 p.key.src_port;
        dst_port = place vs 9 p.key.dst_port;
        proto = place vs 10 p.key.proto;
      };
      size = place vs 11 p.size;
    }
