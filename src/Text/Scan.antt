-- ===== src/Text/Scan.antt =====
-- sscanf of the C library, for the directives that the program's formats have: white space, a byte
-- that has to stand there, and unsigned numbers of a given width.
use ip_ndn_stack_cpp.Prelude.{
  ℕ, ◌-◌, ◌%◌, ◌^◌, ◌≤◌, ◌<◌, ◌≡◌, ◌≢◌, refl, ap, ◌∙◌, List, [], ◌∷◌, ◌++◌, Bool, true, false,
  Option, none, some, ◌&&◌, ◌||◌, ltb, leb, ◌==◌, if◌then◌else◌, arith, All, Bool-cases, inl, inr,
}
use native.Mathlib.Nat.{mod-eq_of_lt}
use ip_ndn_stack_cpp.Text.{Bytes, to_string}
use ip_ndn_stack_cpp.Text.Decimal.{
  IsDigit, value, value-to_string, to_string-IsDigit, to_string-ne-nil,
}
use ip_ndn_stack_cpp.Word.{u64_mod}

pub data Directive : Type 0 where
  blank : Directive
  byte : ℕ → Directive
  -- %hhu, %hu, %u and %lu, by the number of values that the type has.
  number : ℕ → Directive

abbrev is_blank : ℕ → Bool
is_blank c = c == 32 || (leb 9 c && leb c 13)

abbrev pub is_digit : ℕ → Bool
is_digit c = leb b'0' c && leb c b'9'

skip_blanks : Bytes → Bytes
skip_blanks [] = []
skip_blanks (c ∷ s) = let rest = skip_blanks s in if is_blank c then rest else c ∷ s

-- The digits that a text starts with, and what follows them.
span_digits : Bytes → Bytes × Bytes
span_digits [] = ([], [])
span_digits (c ∷ s) =
    let (ds, rest) = span_digits s in if is_digit c then (c ∷ ds, rest) else ([], c ∷ s)

-- strtoul: past its range the greatest value, and negated after a minus sign.
converted : Bool → ℕ → ℕ
converted negative v =
    if leb u64_mod v then u64_mod - 1 else if negative then (u64_mod - v) % u64_mod else v

-- A number is cut to the width of its place.
digits_for : Bool → ℕ → Bytes × Bytes → Option (ℕ × Bytes)
digits_for negative size ([], rest) = none
digits_for negative size (d ∷ ds, rest) = some (converted negative (value 0 (d ∷ ds)) % size, rest)

signed_number : ℕ → Bytes → Option (ℕ × Bytes)
signed_number size [] = none
signed_number size (c ∷ s) =
    if c == b'-'
    then digits_for true size (span_digits s)
    else if c == b'+'
    then digits_for false size (span_digits s)
    else digits_for false size (span_digits (c ∷ s))

read_number : ℕ → Bytes → Option (ℕ × Bytes)
read_number size s = signed_number size (skip_blanks s)

-- What stands behind a byte, if the text starts with it.
past_byte : ℕ → Bytes → Option Bytes
past_byte b [] = none
past_byte b (c ∷ s) = if c == b then some s else none

-- The numbers that are assigned, in order, until a directive fails.
unfoldable pub sscanf : Bytes → List Directive → List ℕ
unfolding skip_blanks past_byte converted span_digits digits_for signed_number read_number
sscanf s [] = []
sscanf s (blank ∷ ds) = sscanf (skip_blanks s) ds
sscanf s (byte b ∷ ds) = elim (past_byte b s) [ none ↦ [] | some rest ↦ sscanf rest ds ]
sscanf s (number size ∷ ds) = elim (read_number size s) [
  | none ↦ []
  | some (n, rest) ↦ n ∷ sscanf rest ds
]

-- A text that does not go on with a digit.
abbrev pub Ends : Bytes → Type 0
Ends [] = Unit {0}
Ends (c ∷ s) = is_digit c ≡ false

span_digits-append :
    (ds rest : Bytes) → All IsDigit ds → Ends rest → span_digits (ds ++ rest) ≡ (ds, rest)
unfolding span_digits
span_digits-append [] [] _ h = refl
span_digits-append [] (c ∷ rest) _ h = rw h refl
span_digits-append (d ∷ ds) rest (hd, hds) h = rw (span_digits-append ds rest hds h) (ground arith)

digit-plain :
    (c : ℕ) → IsDigit c → (is_blank c ≡ false) × ((c == b'-') ≡ false) × ((c == b'+') ≡ false)
digit-plain c h = (ground arith, ground arith, ground arith)

read_number-digits :
    (size : ℕ) (s rest : Bytes)
    → All IsDigit s
    → s ≢ []
    → Ends rest
    → read_number size (s ++ rest) ≡ some (converted false (value 0 s) % size, rest)
unfolding read_number skip_blanks signed_number digits_for
read_number-digits size [] rest h ne e = absurd (ne refl)
read_number-digits size (c ∷ s) rest h ne e =
    let (p, q, r) = digit-plain c h.0 in
    rw p (rw (q, r) (rw (span_digits-append (c ∷ s) rest h e) refl))

read_number-minus :
    (size : ℕ) (s rest : Bytes)
    → All IsDigit s
    → s ≢ []
    → Ends rest
    → read_number size ((b'-' ∷ s) ++ rest) ≡ some (converted true (value 0 s) % size, rest)
unfolding read_number skip_blanks signed_number
read_number-minus size [] rest h ne e = absurd (ne refl)
read_number-minus size (c ∷ s) rest h ne e =
    rw (span_digits-append (c ∷ s) rest h e) (unfold digits_for in refl)

sscanf-number :
    (size n : ℕ) (s rest : Bytes) (ds : List Directive)
    → read_number size s ≡ some (n, rest)
    → sscanf s (number size ∷ ds) ≡ n ∷ sscanf rest ds
unfolding sscanf
sscanf-number size n s rest ds e = rw (e, sscanf) refl

converted_positive : (n : ℕ) → n < u64_mod → converted false n ≡ n
unfolding converted
converted_positive n lt = ground arith

converted-fits : (size n : ℕ) → n < size → size ≤ u64_mod → converted false n % size ≡ n
converted-fits size n lt le =
    ap (λ v. v % size) (converted_positive n (omega arith)) ∙ mod-eq_of_lt lt

converted-negative : (n : ℕ) → 2 ^ 63 ≤ n → n < u64_mod → converted true (u64_mod - n) % u64_mod ≡ n
unfolding converted
converted-negative n ge lt = ground arith

-- A printed number is read back into a place that it fits.
pub sscanf-to_string :
    (size n : ℕ) (rest : Bytes) (ds : List Directive)
    → n < size
    → size ≤ u64_mod
    → Ends rest
    → sscanf (to_string n ++ rest) (number size ∷ ds) ≡ n ∷ sscanf rest ds
sscanf-to_string size n rest ds lt le e = sscanf-number size n (to_string n ++ rest) rest ds (
    read_number-digits size (to_string n) rest (to_string-IsDigit n) (to_string-ne-nil n) e
    ∙ ap (λ v. some (v, rest))
        (ap (λ v. converted false v % size) (value-to_string n) ∙ converted-fits size n lt le))

-- `%ld` of 64 bits.
unfoldable pub print_long : ℕ → Bytes
print_long n = if ltb n (2 ^ 63) then to_string n else b'-' ∷ to_string (u64_mod - n)

sscanf-minus :
    (n : ℕ) (rest : Bytes) (ds : List Directive)
    → 2 ^ 63 ≤ n
    → n < u64_mod
    → Ends rest
    → sscanf ((b'-' ∷ to_string (u64_mod - n)) ++ rest) (number u64_mod ∷ ds) ≡ n ∷ sscanf rest ds
sscanf-minus n rest ds ge lt e =
    let m = u64_mod - n in
    sscanf-number u64_mod n ((b'-' ∷ to_string m) ++ rest) rest ds (
      read_number-minus u64_mod (to_string m) rest (to_string-IsDigit m) (to_string-ne-nil m) e
      ∙ ap (λ v. some (v, rest))
          (ap (λ v. converted true v % u64_mod) (value-to_string m) ∙ converted-negative n ge lt))

-- A number of 64 bits that was printed as a signed one is read back into an unsigned place.
pub sscanf-print_long :
    (n : ℕ) (rest : Bytes) (ds : List Directive)
    → n < u64_mod
    → Ends rest
    → sscanf (print_long n ++ rest) (number u64_mod ∷ ds) ≡ n ∷ sscanf rest ds
unfolding print_long
sscanf-print_long n rest ds lt e = elim (Bool-cases (ltb n (2 ^ 63))) [
  | inl small ↦ rw small (sscanf-to_string u64_mod n rest ds lt (omega arith) e)
  | inr large ↦ rw large (sscanf-minus n rest ds (ground arith) lt e)
]

byte_self : (b : ℕ) → (b == b) ≡ true
byte_self b = ground arith

sscanf-byte :
    (b n : ℕ) (rest : Bytes) (ds : List Directive)
    → ◌≡◌ {A = List ℕ} (n ∷ sscanf (b ∷ rest) (byte b ∷ ds)) (n ∷ sscanf rest ds)
unfolding sscanf
sscanf-byte b n rest ds = rw (byte_self b, sscanf) refl

skip_blanks_twice : (s : Bytes) → skip_blanks (skip_blanks s) ≡ skip_blanks s
unfolding skip_blanks
skip_blanks_twice [] = refl
skip_blanks_twice (c ∷ s) = ground (arith, skip_blanks_twice s)

-- White space before a number is skipped, and so is white space that a directive asks for there.
pub sscanf-blank_number :
    (size : ℕ) (s : Bytes) (ds : List Directive)
    → sscanf (32 ∷ s) (blank ∷ number size ∷ ds) ≡ sscanf s (number size ∷ ds)
unfolding sscanf
sscanf-blank_number size s ds = rw (sscanf, read_number, skip_blanks, skip_blanks_twice s) refl

-- A number with a byte behind it, which is no digit.
pub sscanf-number_byte :
    (size n b : ℕ) (rest : Bytes) (ds : List Directive)
    → n < size
    → size ≤ u64_mod
    → is_digit b ≡ false
    → sscanf (to_string n ++ (b ∷ rest)) (number size ∷ byte b ∷ ds) ≡ n ∷ sscanf rest ds
sscanf-number_byte size n b rest ds lt le h =
    sscanf-to_string size n (b ∷ rest) (byte b ∷ ds) lt le h ∙ sscanf-byte b n rest ds
