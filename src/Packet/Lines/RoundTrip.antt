-- ===== src/Packet/Lines/RoundTrip.antt =====
-- What print_tuple prints, read_tuple reads back.
use Prim.Native.Nat.{bit_or}
use ip_ndn_stack_cpp.Prelude.{
  ℕ, ◌+◌, ◌*◌, ◌^◌, ◌<◌, ◌≡◌, refl, ap, ◌∙◌, List, [], ◌∷◌, ◌++◌, false, arith,
}
use ip_ndn_stack_cpp.Text.{Bytes, dot, to_string}
use ip_ndn_stack_cpp.Text.Scan.{
  Directive, blank, byte, number, sscanf, print_long, is_digit, sscanf-blank_number,
  sscanf-to_string, sscanf-number_byte, sscanf-print_long,
}
use ip_ndn_stack_cpp.Word.{u8_mod, u16_mod, u32_mod, u64_mod, low_byte, shr}
use ip_ndn_stack_cpp.Word.Bits.{shifted, bit_or-add}
use ip_ndn_stack_cpp.Tuple.{Tuple}
use ip_ndn_stack_cpp.Naming.Injective.{IsFlow}
use ip_ndn_stack_cpp.Capture.Numbering.{flow_of}
use ip_ndn_stack_cpp.Packet.Lines.{
  print_end, print_tuple, end_format, end_tail, tuple_format, shl, address_of, read_tuple,
}

-- The four bytes of an address make the address again.
address_of_bytes :
    (ip : ℕ)
    → ip < u32_mod
    → address_of (low_byte ip) (low_byte (shr ip 8)) (low_byte (shr ip 16)) (low_byte (shr ip 24))
      ≡ ip
unfolding address_of shifted
address_of_bytes ip h =
    let a = low_byte (shr ip 24) in
    let b = low_byte (shr ip 16) in
    let c = low_byte (shr ip 8) in
    let d = low_byte ip in
    let top : bit_or (shl a 24) (shl b 16) ≡ a * 2 ^ 24 + b * 2 ^ 16 =
      bit_or-add 24 (shl a 24) a (shl b 16) (omega arith) (omega arith) ∙ omega arith in
    let middle : bit_or (a * 2 ^ 24 + b * 2 ^ 16) (shl c 8) ≡ a * 2 ^ 24 + b * 2 ^ 16 + c * 2 ^ 8 =
      bit_or-add 16 (a * 2 ^ 24 + b * 2 ^ 16) (a * 256 + b) (shl c 8) (omega arith) (omega arith)
      ∙ omega arith in
    rw (top, middle)
      (bit_or-add 8 (a * 2 ^ 24 + b * 2 ^ 16 + c * 2 ^ 8) (a * 65536 + b * 256 + c) d (omega arith)
          (omega arith)
        ∙ omega arith)

abbrev five : ℕ → ℕ → List ℕ → List ℕ
five ip port l =
    low_byte ip ∷ low_byte (shr ip 8) ∷ low_byte (shr ip 16) ∷ low_byte (shr ip 24) ∷ port ∷ l

-- An end of a tuple.
sscanf-print_end :
    (ip port : ℕ) (rest : Bytes) (ds : List Directive)
    → port < u16_mod
    → sscanf (print_end ip port rest) (end_format ds) ≡ five ip port (sscanf rest ds)
unfolding print_end
sscanf-print_end ip port rest ds h =
    let s4 = to_string port ++ (b')' ∷ rest) in
    let s3 = to_string (low_byte (shr ip 24)) ++ (b'(' ∷ s4) in
    let s2 = to_string (low_byte (shr ip 16)) ++ (dot ∷ s3) in
    let s1 = to_string (low_byte (shr ip 8)) ++ (dot ∷ s2) in
    let f4 = number u16_mod ∷ byte b')' ∷ ds in
    let f3 = number u32_mod ∷ byte b'(' ∷ f4 in
    let f2 = number u32_mod ∷ byte dot ∷ f3 in
    let f1 = number u32_mod ∷ byte dot ∷ f2 in
    number_then dot (low_byte ip) s1 f1 (omega arith) refl
    ∙ ap (λ l. low_byte ip ∷ l)
        (number_then dot (low_byte (shr ip 8)) s2 f2 (omega arith) refl
          ∙ ap (λ l. low_byte (shr ip 8) ∷ l)
              (number_then dot (low_byte (shr ip 16)) s3 f3 (omega arith) refl
                ∙ ap (λ l. low_byte (shr ip 16) ∷ l)
                    (number_then b'(' (low_byte (shr ip 24)) s4 f4 (omega arith) refl
                      ∙ ap (λ l. low_byte (shr ip 24) ∷ l)
                          (sscanf-number_byte u16_mod port b')' rest ds h (omega arith) refl))))
  where
    number_then :
        (b n : ℕ) (s : Bytes) (fs : List Directive)
        → n < u32_mod
        → is_digit b ≡ false
        → sscanf (to_string n ++ (b ∷ s)) (number u32_mod ∷ byte b ∷ fs) ≡ n ∷ sscanf s fs
    number_then b n s fs lt no_digit = sscanf-number_byte u32_mod n b s fs lt (omega arith) no_digit

abbrev two_numbers : List Directive
two_numbers = blank ∷ number u8_mod ∷ blank ∷ number u64_mod ∷ []

between :
    (s : Bytes)
    → sscanf
        (32 ∷ b'<' ∷ b'-' ∷ b'>' ∷ 32 ∷ s)
        (blank ∷ byte b'<' ∷ byte b'-' ∷ byte b'>' ∷ blank ∷ end_format two_numbers)
      ≡ sscanf s (end_format two_numbers)
unfolding sscanf
between s = sscanf-blank_number u32_mod s (end_tail two_numbers)

-- A line as print_tuple prints it is read back whole: all twelve places are assigned.
sscanf-print_tuple :
    (t : Tuple)
    → t.key.src_port < u16_mod
    → t.key.dst_port < u16_mod
    → t.key.proto < u8_mod
    → t.size < u64_mod
    → sscanf (print_tuple t) tuple_format
      ≡ five t.key.src_ip t.key.src_port
          (five t.key.dst_ip t.key.dst_port (t.key.proto ∷ t.size ∷ []))
unfolding print_tuple sscanf
sscanf-print_tuple t hs hd hp hz =
    let last = print_long t.size ++ 10 ∷ [] in
    let middle = to_string t.key.proto ++ (32 ∷ last) in
    let second = print_end t.key.dst_ip t.key.dst_port (32 ∷ middle) in
    let arrow = blank ∷ byte b'<' ∷ byte b'-' ∷ byte b'>' ∷ blank ∷ end_format two_numbers in
    let size : sscanf (32 ∷ last) (blank ∷ number u64_mod ∷ []) ≡ t.size ∷ [] =
      sscanf-blank_number u64_mod last [] ∙ sscanf-print_long t.size (10 ∷ []) [] hz refl in
    let proto : sscanf (32 ∷ middle) two_numbers ≡ t.key.proto ∷ t.size ∷ [] =
      sscanf-blank_number u8_mod middle (blank ∷ number u64_mod ∷ [])
      ∙ sscanf-to_string u8_mod t.key.proto (32 ∷ last) (blank ∷ number u64_mod ∷ []) hp
          (omega arith) refl
      ∙ ap (λ l. t.key.proto ∷ l) size in
    sscanf-print_end t.key.src_ip t.key.src_port _ arrow hs
    ∙ ap (λ l. five t.key.src_ip t.key.src_port l)
        (between second
          ∙ sscanf-print_end t.key.dst_ip t.key.dst_port (32 ∷ middle) two_numbers hd
          ∙ ap (λ l. five t.key.dst_ip t.key.dst_port l) proto)

-- Whatever stood in the tuple and in the local variables before, reading the line that was printed of
-- a tuple gives the tuple's addresses, ports, protocol and size, and leaves the other fields alone;
-- the tuple's fields hold what their C types hold.
pub read_tuple-print_tuple :
    (locals : ℕ → ℕ) (t p : Tuple)
    → IsFlow (flow_of t)
    → t.key.proto < u8_mod
    → t.size < u64_mod
    → read_tuple locals (print_tuple t) p ≡ record p { key = t.key; size = t.size }
unfolding read_tuple
read_tuple-print_tuple locals t p hf hp hz =
    rw
      (
        sscanf-print_tuple t hf.src_port_fits hf.dst_port_fits hp hz,
        address_of_bytes t.key.src_ip hf.src_ip_fits,
        address_of_bytes t.key.dst_ip hf.dst_ip_fits,
      )
      refl
