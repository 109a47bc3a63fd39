-- ===== src/Compare.antt =====
-- The comparison functions of libpcapcapture/util.cpp, which are written for qsort: `cmp` on tuples,
-- `cmp_ll` on long long, `cmp_lf` on doubles. A long long is its 64-bit pattern.
pub mod Order
pub mod Examples
use ip_ndn_stack_cpp.Prelude.{ℕ, ◌+◌, ◌%◌, ◌^◌, Bool, true, false, ltb, ◌==◌, if◌then◌else◌}
use ip_ndn_stack_cpp.Word.{u64_mod}
use ip_ndn_stack_cpp.Tuple.{Tuple}

-- The int of a comparison.
abbrev pub as_int : Bool → ℕ
as_int true = 1
as_int false = 0

-- `less` is the order of doubles.
unfoldable pub cmp_lf : {Double : Type 0} → (Double → Double → Bool) → Double → Double → ℕ
cmp_lf less a b = as_int (less a b)

unfoldable pub cmp : Tuple → Tuple → ℕ
cmp t1 t2 =
    if t1.size == t2.size
    then if t1.key.src_ip == t2.key.src_ip
      then if t1.key.dst_ip == t2.key.dst_ip
        then if t1.key.src_port == t2.key.src_port
          then if t1.key.dst_port == t2.key.dst_port
            then as_int (ltb t1.key.proto t2.key.proto)
            else as_int (ltb t1.key.dst_port t2.key.dst_port)
          else as_int (ltb t1.key.src_port t2.key.src_port)
        else as_int (ltb t1.key.dst_ip t2.key.dst_ip)
      else as_int (ltb t1.key.src_ip t2.key.src_ip)
    else as_int (ltb t1.size t2.size)

-- The order of signed patterns is that of the patterns with the sign bit flipped.
unfoldable pub cmp_ll : ℕ → ℕ → ℕ
cmp_ll a b = as_int (ltb ((a + 2 ^ 63) % u64_mod) ((b + 2 ^ 63) % u64_mod))
