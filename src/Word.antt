-- ===== src/Word.antt =====
-- Machine words. A uint16_t, uint32_t or uint64_t is its value, an `int` is its 32-bit pattern; the
-- host is little-endian, as the platforms that the program is built for are.
pub mod Bits
use ip_ndn_stack_cpp.Prelude.{
  ℕ, ◌+◌, ◌-◌, ◌*◌, ◌/◌, ◌%◌, ◌^◌, ◌<◌, ◌≡◌, ◌∷◌, ltb, if◌then◌else◌, arith,
}
use ip_ndn_stack_cpp.Text.{Bytes, dash, to_string}

abbrev pub u8_mod : ℕ
u8_mod = 2 ^ 8

abbrev pub u16_mod : ℕ
u16_mod = 2 ^ 16

abbrev pub u32_mod : ℕ
u32_mod = 2 ^ 32

abbrev pub u64_mod : ℕ
u64_mod = 2 ^ 64

-- The patterns below this one are the non-negative values of an `int`.
abbrev pub int_limit : ℕ
int_limit = 2 ^ 31

-- `x >> k`, and `x & 0xFF`.
abbrev pub shr : ℕ → ℕ → ℕ
shr x k = x / 2 ^ k

abbrev pub low_byte : ℕ → ℕ
low_byte x = x % 256

-- ntohs and ntohl on a little-endian host.
unfoldable pub ntohs : ℕ → ℕ
ntohs x = low_byte x * 2 ^ 8 + low_byte (shr x 8)

unfoldable pub ntohl : ℕ → ℕ
ntohl x =
    low_byte x * 2 ^ 24
    + low_byte (shr x 8) * 2 ^ 16
    + low_byte (shr x 16) * 2 ^ 8
    + low_byte (shr x 24)

-- `n + 1` on an `int`, wrapping as the hardware does.
unfoldable pub inc_int : ℕ → ℕ
inc_int n = (n + 1) % u32_mod

-- std::to_string of an `int`.
unfoldable pub int_to_string : ℕ → Bytes
int_to_string w = if ltb w int_limit then to_string w else dash ∷ to_string (u32_mod - w)

pub ntohs-ntohs : (x : ℕ) → x < u16_mod → ntohs (ntohs x) ≡ x
unfolding ntohs
ntohs-ntohs x h = omega arith

pub ntohl-ntohl : (x : ℕ) → x < u32_mod → ntohl (ntohl x) ≡ x
unfolding ntohl
ntohl-ntohl x h = omega arith

pub ntohs-lt : (x : ℕ) → ntohs x < u16_mod
unfolding ntohs
ntohs-lt x = omega arith

pub ntohl-lt : (x : ℕ) → ntohl x < u32_mod
unfolding ntohl
ntohl-lt x = omega arith

pub inc_int-lt : (n : ℕ) → n + 1 < u32_mod → inc_int n ≡ n + 1
unfolding inc_int
inc_int-lt n h = omega arith

pub int_to_string-lt : (n : ℕ) → n < int_limit → int_to_string n ≡ to_string n
unfolding int_to_string
int_to_string-lt n h = ground arith
