-- ===== src/Text.antt =====
-- Byte strings: std::string, its literals, and std::to_string on unsigned numbers. The lemmas on
-- decimal text, the cutting of names at separators and the two Boost functions are in the children.
pub mod Decimal
pub mod Split
pub mod Scan
use Prim.Native.Char.{code}
use ip_ndn_stack_cpp.Prelude.{
  ℕ, zero, suc, ◌+◌, ◌/◌, ◌%◌, ◌≢◌, List, [], ◌∷◌, ◌++◌, String, ltb, if◌then◌else◌, All,
}

abbrev pub Bytes : Type 0
Bytes = List ℕ

-- The bytes of an ASCII literal.
abbrev pub codes : String → Bytes
codes String.[] = []
codes (String.◌∷◌ c s) = code c ∷ codes s

abbrev pub slash : ℕ
slash = b'/'

abbrev pub dash : ℕ
dash = b'-'

abbrev pub dot : ℕ
dot = b'.'

abbrev pub Lacks : ℕ → Bytes → Type 0
Lacks b = All (λ c. c ≢ b)

-- The decimal digits of `n`, most significant first, within `fuel` rounds.
digits : ℕ → ℕ → Bytes
digits zero n = []
digits (suc fuel) n =
    let longer = digits fuel (n / 10) ++ (b'0' + n % 10) ∷ [] in
    if ltb n 10 then (b'0' + n) ∷ [] else longer

-- std::to_string of an unsigned number.
unfoldable pub to_string : ℕ → Bytes
unfolding digits
to_string n = digits (suc n) n

-- Parts with a separator between them.
abbrev pub join : ℕ → Bytes → List Bytes → Bytes
join sep p [] = p
join sep p (q ∷ qs) = p ++ (sep ∷ join sep q qs)
