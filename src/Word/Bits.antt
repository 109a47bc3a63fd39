-- ===== src/Word/Bits.antt =====
-- `|` of a number whose last digits are clear and a number that has no others: it adds.
use Prim.Native.Nat.{max, bit_or, digits, bit_or-bitwise}
use ip_ndn_stack_cpp.Prelude.{ℕ, zero, suc, ◌+◌, ◌*◌, ◌/◌, ◌≤◌, ◌<◌, ◌≡◌, refl, ◌∙◌, arith}

-- `a << k`, one place at a time.
unfoldable pub shifted : ℕ → ℕ → ℕ
shifted zero a = a
shifted (suc k) a = shifted k a * 2

digits-add :
    (fuel k x a b : ℕ)
    → x ≡ shifted k a
    → x ≤ fuel
    → b < shifted k 1
    → digits (λ c. c) max fuel x b ≡ x + b
unfolding shifted
digits-add zero k x a b e h lt = omega arith
digits-add (suc fuel) k zero a b e h lt = omega arith
digits-add (suc fuel) zero (suc x) a b e h lt =
    omega
      (arith, digits-add fuel 0 (suc x / 2) (suc x / 2) (b / 2) refl (omega arith) (omega arith))
digits-add (suc fuel) (suc k) (suc x) a b e h lt =
    omega (arith, digits-add fuel k (suc x / 2) a (b / 2) (omega arith) (omega arith) (omega arith))

pub bit_or-add : (k n a b : ℕ) → n ≡ shifted k a → b < shifted k 1 → bit_or n b ≡ n + b
bit_or-add k n a b e h = bit_or-bitwise n b ∙ digits-add n k n a b e (omega arith) h
