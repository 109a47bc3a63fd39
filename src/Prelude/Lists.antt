-- ===== src/Prelude/Lists.antt =====
-- Lists measured and indexed by native numbers, and a predicate on every item.
use Prim.Native.Nat.{ℕ, zero, suc, ◌+◌}
use mathlib.Core.Path.{ap, ◌∙◌, ◌≡◌, refl}
use mathlib.Core.List.{List, [], ◌∷◌, ◌++◌}
use mathlib.Core.Option.{Option, none, some}
use native.Mathlib.Omega.{arith}

module _ {ℓ} {A : Type ℓ} where
  abbrev pub length : List A → ℕ
  length [] = 0
  length (x ∷ xs) = suc (length xs)

  abbrev pub get_elem? : List A → ℕ → Option A
  get_elem? [] i = none
  get_elem? (x ∷ xs) zero = some x
  get_elem? (x ∷ xs) (suc i) = get_elem? xs i

  pub length-append : (xs ys : List A) → length (xs ++ ys) ≡ length xs + length ys
  length-append [] ys = omega arith
  length-append (x ∷ xs) ys = omega (arith, length-append xs ys)

  -- An item found in a list is found at the same place when the list has grown.
  pub get_elem?-append :
      (xs ys : List A) (i : ℕ) (c : A) → get_elem? xs i ≡ some c → get_elem? (xs ++ ys) i ≡ some c
  get_elem?-append [] ys i c h = cc
  get_elem?-append (x ∷ xs) ys zero c h = h
  get_elem?-append (x ∷ xs) ys (suc i) c h = get_elem?-append xs ys i c h

  -- What stands behind a list is found that much later.
  pub get_elem?-behind :
      (xs ys : List A) (i : ℕ) → get_elem? (xs ++ ys) (i + length xs) ≡ get_elem? ys i
  get_elem?-behind [] ys i = ap (get_elem? ys) (behind_nil i)
    where
      behind_nil : (i : ℕ) → i + 0 ≡ i
      behind_nil i = omega arith
  get_elem?-behind (x ∷ xs) ys i =
      ap (get_elem? (x ∷ (xs ++ ys))) (behind_one i (length xs)) ∙ get_elem?-behind xs ys i
    where
      behind_one : (i n : ℕ) → i + suc n ≡ suc (i + n)
      behind_one i n = omega arith

  pub get_elem?-length : (xs ys : List A) (y : A) → get_elem? (xs ++ (y ∷ ys)) (length xs) ≡ some y
  get_elem?-length [] ys y = refl
  get_elem?-length (x ∷ xs) ys y = get_elem?-length xs ys y

module _ {ℓ κ} {A : Type ℓ} (P : A → Type κ) where
  abbrev pub All : List A → Type κ
  All [] = Unit
  All (x ∷ xs) = P x × All xs

  pub All-append : (xs ys : List A) → All xs → All ys → All (xs ++ ys)
  All-append [] ys _ hy = hy
  All-append (x ∷ xs) ys (px, hx) hy = (px, All-append xs ys hx hy)
