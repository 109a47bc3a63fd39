-- ===== src/Packet/Print.antt =====
-- ip2a of libpcapcapture/packet.cpp, which prints an address in network order, beside the text that
-- buildName makes of an address.
use ip_ndn_stack_cpp.Prelude.{ℕ, ◌++◌, ◌<◌, ◌≡◌, refl, arith}
use ip_ndn_stack_cpp.Text.{Bytes, codes, to_string}
use ip_ndn_stack_cpp.Word.{u32_mod, shr, low_byte, ntohl}
use ip_ndn_stack_cpp.Naming.{dotted}

unfoldable pub ip2a : ℕ → Bytes
ip2a ip =
    to_string (low_byte ip)
    ++ codes "."
    ++ to_string (low_byte (shr ip 8))
    ++ codes "."
    ++ to_string (low_byte (shr ip 16))
    ++ codes "."
    ++ to_string (low_byte (shr ip 24))

-- An address of 32 bits prints the same by ip2a, lowest byte first, and in the names of packets,
-- where its bytes are reversed first and then taken highest first.
pub ip2a-dotted : (ip : ℕ) → ip < u32_mod → ip2a ip ≡ dotted (ntohl ip)
unfolding ip2a dotted ntohl
ip2a-dotted ip h =
    let a : low_byte (shr (ntohl ip) 24) ≡ low_byte ip = omega arith in
    let b : low_byte (shr (ntohl ip) 16) ≡ low_byte (shr ip 8) = omega arith in
    let c : low_byte (shr (ntohl ip) 8) ≡ low_byte (shr ip 16) = omega arith in
    let d : low_byte (shr (ntohl ip) 0) ≡ low_byte (shr ip 24) = omega arith in rw (a, b, c, d) refl
