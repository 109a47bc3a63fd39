-- ===== src/Text/Decimal.antt =====
-- Decimal text: what it spells, which bytes it holds, and that it determines the number.
use ip_ndn_stack_cpp.Prelude.{
  ℕ, zero, suc, ◌+◌, ◌-◌, ◌*◌, ◌/◌, ◌%◌, ◌≤◌, ◌<◌, ◌≡◌, refl, sym, ap, ◌∙◌, ◌≢◌, [], ◌∷◌, ◌++◌,
  arith, All, All-append,
}
use mathlib.Core.List.{concat-ne-nil, cons-ne-nil}
use ip_ndn_stack_cpp.Text.{Bytes, Lacks, digits, to_string}

abbrev pub IsDigit : ℕ → Type 0
IsDigit c = (b'0' ≤ c) × (c ≤ b'9')

-- The number that digits spell behind `n`.
abbrev pub value : ℕ → Bytes → ℕ
value n [] = n
value n (c ∷ s) = value (n * 10 + (c - b'0')) s

pub value-append : (n : ℕ) (xs ys : Bytes) → value n (xs ++ ys) ≡ value (value n xs) ys
value-append n [] ys = refl
value-append n (x ∷ xs) ys = value-append (n * 10 + (x - b'0')) xs ys

digits-IsDigit : (f n : ℕ) → All IsDigit (digits f n)
unfolding digits
digits-IsDigit zero n = tt
digits-IsDigit (suc f) n = ground (
  arith,
  All-append IsDigit (digits f (n / 10)) ((b'0' + n % 10) ∷ []) (digits-IsDigit f (n / 10))
      (omega arith, tt),
)

value-digits : (f n : ℕ) → n < f → value 0 (digits f n) ≡ n
unfolding digits
value-digits zero n h = elim h [ ]
value-digits (suc f) n h =
    ground
      (arith, value-digits f (n / 10), value-append 0 (digits f (n / 10)) ((b'0' + n % 10) ∷ []))

pub value-to_string : (n : ℕ) → value 0 (to_string n) ≡ n
unfolding to_string
value-to_string n = value-digits (suc n) n (omega arith)

-- Two numbers with the same decimal text are equal.
pub to_string-injective : (m n : ℕ) → to_string m ≡ to_string n → m ≡ n
to_string-injective m n e = sym (value-to_string m) ∙ ap (value 0) e ∙ value-to_string n

pub to_string-IsDigit : (n : ℕ) → All IsDigit (to_string n)
unfolding to_string
to_string-IsDigit n = digits-IsDigit (suc n) n

pub to_string-ne-nil : (n : ℕ) → to_string n ≢ []
unfolding to_string
to_string-ne-nil n =
    ground (arith, concat-ne-nil (b'0' + n % 10) (digits n (n / 10)), cons-ne-nil (b'0' + n) [])

pub Lacks-of_digits : (b : ℕ) (s : Bytes) → b < b'0' → All IsDigit s → Lacks b s
Lacks-of_digits b [] h _ = tt
Lacks-of_digits b (c ∷ s) h (d, ds) = (omega arith, Lacks-of_digits b s h ds)

-- Decimal text holds no byte below '0', so neither a slash nor a dash nor a dot.
pub to_string-Lacks : (b n : ℕ) → b < b'0' → Lacks b (to_string n)
to_string-Lacks b n h = Lacks-of_digits b (to_string n) h (to_string-IsDigit n)
