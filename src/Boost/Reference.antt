-- ===== src/Boost/Reference.antt =====
-- Functions that meet the interface of Boost, so that the theorems over it apply to something.
use ip_ndn_stack_cpp.Prelude.{
  ℕ, ◌-◌, ◌<◌, ◌≤◌, ◌%◌, ◌≡◌, refl, ◌≢◌, Bool, true, false, ◌&&◌, [], ◌∷◌, Option, none, some, ltb,
  leb, ◌==◌, if◌then◌else◌, arith, All, Bool-cases, inl, inr,
}
use ip_ndn_stack_cpp.Text.{Bytes, dash, to_string}
use ip_ndn_stack_cpp.Text.Decimal.{
  IsDigit, value, value-to_string, to_string-IsDigit, to_string-ne-nil,
}
use ip_ndn_stack_cpp.Text.Split
use ip_ndn_stack_cpp.Word.{u32_mod, int_limit, int_to_string}
use ip_ndn_stack_cpp.Boost.{Boost}

all_digits : Bytes → Bool
all_digits [] = true
all_digits (c ∷ s) = (leb b'0' c && leb c b'9') && all_digits s

read_natural : Bytes → Option ℕ
read_natural [] = none
read_natural (c ∷ s) = if all_digits (c ∷ s) then some (value 0 (c ∷ s)) else none

-- The value below a limit, or its negative as a 32-bit pattern.
positive : Option ℕ → Option ℕ
positive none = none
positive (some n) = if ltb n int_limit then some n else none

negative : Option ℕ → Option ℕ
negative none = none
negative (some n) = if leb n int_limit then some ((u32_mod - n) % u32_mod) else none

unfoldable pub read_int : Bytes → Option ℕ
unfolding all_digits read_natural positive negative
read_int [] = none
read_int (c ∷ s) = if c == dash then negative (read_natural s) else positive (read_natural (c ∷ s))

all_digits-IsDigit : (s : Bytes) → All IsDigit s → all_digits s ≡ true
unfolding all_digits
all_digits-IsDigit [] h = refl
all_digits-IsDigit (c ∷ s) h = ground (arith, all_digits-IsDigit s)

read_natural-digits : (s : Bytes) → s ≢ [] → All IsDigit s → read_natural s ≡ some (value 0 s)
unfolding read_natural
read_natural-digits [] h _ = absurd (h refl)
read_natural-digits (c ∷ s) h d = ground (arith, all_digits-IsDigit (c ∷ s) d)

read_natural-to_string : (n : ℕ) → read_natural (to_string n) ≡ some n
read_natural-to_string n = ground (
  arith,
  read_natural-digits (to_string n) (to_string-ne-nil n) (to_string-IsDigit n),
  value-to_string n,
)

read_int-digits : (s : Bytes) → All IsDigit s → read_int s ≡ positive (read_natural s)
unfolding read_int read_natural positive
read_int-digits [] d = refl
read_int-digits (c ∷ s) d = ground arith

pub read_int-to_string : (w : ℕ) → w < u32_mod → read_int (int_to_string w) ≡ some w
unfolding int_to_string
read_int-to_string w h = elim (Bool-cases (ltb w int_limit)) [
  | inl small ↦ rw small (positive_case small)
  | inr large ↦ rw large (negative_case large)
]
  where
    positive_case : ltb w int_limit ≡ true → read_int (to_string w) ≡ some w
    positive_case e =
        rw (read_int-digits (to_string w) (to_string-IsDigit w), read_natural-to_string w)
          (unfold positive in rw e refl)

    negative_case : ltb w int_limit ≡ false → read_int (dash ∷ to_string (u32_mod - w)) ≡ some w
    negative_case e =
        unfold read_int in
        rw (read_natural-to_string (u32_mod - w)) (unfold negative in ground arith)

pub read_int-past_int : (n : ℕ) → int_limit ≤ n → read_int (to_string n) ≡ none
read_int-past_int n h =
    rw (read_int-digits (to_string n) (to_string-IsDigit n), read_natural-to_string n)
      (unfold positive in ground arith)

pub read_int-nil : read_int [] ≡ none
unfolding read_int
read_int-nil = refl

abbrev pub reference : Boost
reference = record {
  split = Split.split;
  lexical_cast = read_int;
  split-join = Split.split-join;
  lexical_cast-int_to_string = read_int-to_string;
  lexical_cast-past_int = read_int-past_int;
  lexical_cast-nil = read_int-nil;
}
