-- ===== src/Table/Sequence.antt =====
-- What getAndIncreaseSequence does to the table of sequence numbers.
use ip_ndn_stack_cpp.Prelude.{ℕ, ◌≡◌, true, false, none, some, bytes_eq, if◌then◌else◌, arith}
use ip_ndn_stack_cpp.Text.{Bytes}
use ip_ndn_stack_cpp.Word.{inc_int}
use ip_ndn_stack_cpp.Table.{Table, lookup, save, erase, get_and_increase_sequence}
use ip_ndn_stack_cpp.Table.Laws.{
  Distinct, lookup-remove_ne, lookup-remove_self, erase-Distinct, save-Distinct,
}

-- The table after a success: the old entry is gone and the next number is in.
abbrev pub advanced : Bytes → ℕ → Table ℕ → Table ℕ
advanced key v m = (save key (inc_int v) (erase key m).0).0

pub increase_found :
    (key : Bytes) (v : ℕ) (m : Table ℕ)
    → Distinct m
    → lookup key m ≡ some v
    → get_and_increase_sequence key m ≡ (advanced key v m, some (inc_int v), true)
unfolding get_and_increase_sequence
increase_found key v m h e = ground (arith, lookup-remove_self key m h)

pub increase_missing :
    (key : Bytes) (m : Table ℕ)
    → lookup key m ≡ none
    → get_and_increase_sequence key m ≡ (m, none, false)
unfolding get_and_increase_sequence
increase_missing key m e = ground arith

pub lookup-advanced :
    (key j : Bytes) (v : ℕ) (m : Table ℕ)
    → Distinct m
    → lookup j (advanced key v m) ≡ (if bytes_eq key j then some (inc_int v) else lookup j m)
unfolding save erase lookup
lookup-advanced key j v m h = ground (arith, lookup-remove_self key m h, lookup-remove_ne key j m)

pub advanced-Distinct :
    (key : Bytes) (v : ℕ) (m : Table ℕ) → Distinct m → Distinct (advanced key v m)
advanced-Distinct key v m h = save-Distinct key (inc_int v) (erase key m).0 (erase-Distinct key m h)
