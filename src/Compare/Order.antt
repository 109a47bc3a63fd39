-- ===== src/Compare/Order.antt =====
-- `cmp` tells which tuples come first, but not which come last.
use ip_ndn_stack_cpp.Prelude.{
  ℕ, ◌≡◌, ◌⊎◌, inl, inr, List, [], ◌∷◌, ◌||◌, ◌&&◌, Bool, false, ltb, ◌==◌, arith,
}
use ip_ndn_stack_cpp.Tuple.{Tuple}
use ip_ndn_stack_cpp.Compare.{as_int, cmp}

-- Tuples that `cmp` cannot tell apart by any field.
pub record IsSame (t u : Tuple) : Type 0 where
  pub sizes : t.size ≡ u.size
  pub sources : t.key.src_ip ≡ u.key.src_ip
  pub destinations : t.key.dst_ip ≡ u.key.dst_ip
  pub source_ports : t.key.src_port ≡ u.key.src_port
  pub destination_ports : t.key.dst_port ≡ u.key.dst_port
  pub protocols : t.key.proto ≡ u.key.proto

cmp-IsSame : (t u : Tuple) → cmp t u ≡ 0 → cmp u t ≡ 0 → IsSame t u
unfolding cmp
cmp-IsSame t u h k = record {
  sizes = ground arith;
  sources = ground arith;
  destinations = ground arith;
  source_ports = ground arith;
  destination_ports = ground arith;
  protocols = ground arith;
}

cmp_asym : (t u : Tuple) → cmp t u ≡ 1 → cmp u t ≡ 0
unfolding cmp
cmp_asym t u h = ground arith

-- The fields of a tuple in the order in which they count.
abbrev pub fields : Tuple → List ℕ
fields t = t.size ∷ t.key.src_ip ∷ t.key.dst_ip ∷ t.key.src_port ∷ t.key.dst_port ∷ t.key.proto ∷ []

-- The dictionary order of lists of one length.
abbrev pub comes_first : List ℕ → List ℕ → Bool
comes_first [] ys = false
comes_first (x ∷ xs) [] = false
comes_first (x ∷ xs) (y ∷ ys) = ltb x y || ((x == y) && comes_first xs ys)

-- `cmp` is 1 where the size, the addresses, the ports and the protocol of the first tuple come before
-- those of the second in dictionary order, and 0 everywhere else.
pub cmp-comes_first : (t u : Tuple) → cmp t u ≡ as_int (comes_first (fields t) (fields u))
unfolding cmp
cmp-comes_first t u = ground arith

cmp_binary : (t u : Tuple) → (cmp t u ≡ 1) ⊎ (cmp t u ≡ 0)
unfolding cmp
cmp_binary t u = ground arith

-- Of two tuples `cmp` is 1 in one order and 0 in the other, or it is 0 in both orders, and then their
-- sizes, addresses, ports and protocols are the same. So it is never negative, and 0 also for tuples
-- that differ.
pub cmp-trichotomy :
    (t u : Tuple)
    → ((cmp t u ≡ 1) × (cmp u t ≡ 0))
      ⊎ (((cmp t u ≡ 0) × (cmp u t ≡ 1)) ⊎ ((cmp t u ≡ 0) × (cmp u t ≡ 0) × IsSame t u))
cmp-trichotomy t u = elim (cmp_binary t u) [
  | inl first ↦ inl (first, cmp_asym t u first)
  | inr h ↦ elim (cmp_binary u t) [
    | inl second ↦ inr (inl (h, second))
    | inr k ↦ inr (inr (h, k, cmp-IsSame t u h k))
  ]
]
