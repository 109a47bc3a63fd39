-- ===== src/Packet/Checksum.antt =====
-- in_chksum_ip: the checksum loop, and that it is zero exactly for the headers whose 16-bit words
-- sum to a multiple of 65535 that is not zero.
use ip_ndn_stack_cpp.Prelude.{
  ℕ, zero, suc, ◌+◌, ◌-◌, ◌/◌, ◌%◌, ◌<◌, ◌^◌, ◌≡◌, refl, ◌↔◌, ◌⊎◌, ◌==◌, if◌then◌else◌, arith,
  Bool-cases, inl, inr,
}
use mathlib.Core.Path.{subst}
use native.Mathlib.Nat.{add_assoc, zero-add}
use ip_ndn_stack_cpp.Tuple.{Memory}
use ip_ndn_stack_cpp.Packet.Fields.{load16, offset}

-- `(sum & 0xFFFF) + (sum >> 16)`.
unfoldable pub fold : ℕ → ℕ
fold sum = sum % 2 ^ 16 + sum / 2 ^ 16

-- The fold in the loop, when bit 31 is set.
unfoldable pub fold_high : ℕ → ℕ
fold_high sum = if sum / 2 ^ 31 % 2 == 1 then fold sum else sum

-- The first loop and the odd byte, for which a whole word is read.
unfoldable pub add_words : Memory → ℕ → ℕ → ℕ
add_words w zero sum = sum
add_words w (suc zero) sum = sum + load16 w 0
add_words w (suc (suc len)) sum = add_words (offset w 2) len (fold_high (sum + load16 w 0))

-- `while (sum >> 16)`, with fuel.
unfoldable pub fold_all : ℕ → ℕ → ℕ
fold_all zero sum = sum
fold_all (suc fuel) sum =
    let rest = fold_all fuel (fold sum) in if sum / 2 ^ 16 == 0 then sum else rest

-- `~sum` as an unsigned short.
unfoldable pub in_chksum_ip : Memory → ℕ → ℕ
in_chksum_ip w len = let sum = add_words w len 0 in 65535 - fold_all (suc sum) sum % 2 ^ 16

-- The sum of the words, unbounded.
unfoldable pub word_sum : Memory → ℕ → ℕ
word_sum w zero = 0
word_sum w (suc zero) = load16 w 0
word_sum w (suc (suc len)) = load16 w 0 + word_sum (offset w 2) len

-- Equal modulo 65535, and zero together.
record Congruent (a b : ℕ) : Type 0 where
  residue : a % 65535 ≡ b % 65535
  together : ((a ≡ 0) × (b ≡ 0)) ⊎ ((0 < a) × (0 < b))

fold-Congruent : (a b : ℕ) → Congruent a b → Congruent (fold a) b
unfolding fold
fold-Congruent a b c = record { residue = omega arith; together = omega arith }

fold_high-Congruent : (a b : ℕ) → Congruent a b → Congruent (fold_high a) b
unfolding fold_high
fold_high-Congruent a b c = elim (Bool-cases (a / 2 ^ 31 % 2 == 1)) [
  | inl set ↦ rw set (fold-Congruent a b c)
  | inr clear ↦ rw clear c
]

plus-Congruent : (a b k : ℕ) → Congruent a b → Congruent (a + k) (b + k)
plus-Congruent a b k c = record { residue = omega arith; together = omega arith }

add_words-Congruent :
    (w : Memory) (len a b : ℕ) → Congruent a b → Congruent (add_words w len a) (b + word_sum w len)
unfolding add_words word_sum
add_words-Congruent w zero a b c = record { residue = omega arith; together = omega arith }
add_words-Congruent w (suc zero) a b c = plus-Congruent a b (load16 w 0) c
add_words-Congruent w (suc (suc len)) a b c =
    subst (Congruent (add_words w (suc (suc len)) a))
      (add_assoc b (load16 w 0) (word_sum (offset w 2) len))
      (add_words-Congruent (offset w 2) len (fold_high (a + load16 w 0)) (b + load16 w 0)
        (fold_high-Congruent (a + load16 w 0) (b + load16 w 0) (plus-Congruent a b (load16 w 0) c)))

fold_all-Congruent : (fuel a b : ℕ) → Congruent a b → Congruent (fold_all fuel a) b
unfolding fold_all
fold_all-Congruent zero a b c = c
fold_all-Congruent (suc fuel) a b c = elim (Bool-cases (a / 2 ^ 16 == 0)) [
  | inl done ↦ rw done c
  | inr more ↦ rw more (fold_all-Congruent fuel (fold a) b (fold-Congruent a b c))
]

-- The fuel is enough: the loop has ended by its test.
fold_all-lt : (fuel a : ℕ) → a < fuel → fold_all fuel a < 2 ^ 16
unfolding fold_all fold
fold_all-lt zero a h = elim h [ ]
fold_all-lt (suc fuel) a h = ground (arith, fold_all-lt fuel (a % 2 ^ 16 + a / 2 ^ 16))

-- A sum below 2^16 that is congruent to `b` is 65535 exactly for the positive multiples.
full_sum :
    (a b : ℕ) → a < 2 ^ 16 → Congruent a b → (65535 - a % 2 ^ 16 ≡ 0) ↔ ((0 < b) × (b % 65535 ≡ 0))
full_sum a b lt c = (λ e. (omega arith, omega arith), λ h. omega arith)

sums : (w : Memory) (len : ℕ) → Congruent (add_words w len 0) (word_sum w len)
sums w len =
    subst (Congruent (add_words w len 0)) (zero-add (word_sum w len))
      (add_words-Congruent w len 0 0 (record { residue = refl; together = omega arith }))

-- The checksum of a header is zero exactly when the words of the header sum to a positive multiple
-- of 65535.
pub in_chksum_ip-zero :
    (w : Memory) (len : ℕ)
    → (in_chksum_ip w len ≡ 0) ↔ ((0 < word_sum w len) × (word_sum w len % 65535 ≡ 0))
unfolding in_chksum_ip
in_chksum_ip-zero w len =
    let sum = add_words w len 0 in
    full_sum (fold_all (suc sum) sum) (word_sum w len) (fold_all-lt (suc sum) sum (omega arith))
      (fold_all-Congruent (suc sum) sum (word_sum w len) (sums w len))
