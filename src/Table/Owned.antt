-- ===== src/Table/Owned.antt =====
-- The overload of MapCacheHelper::erase (helper/MapCacheHelper.h) that deletes what an entry points
-- to: a table of pointers, and the pointers whose objects are there.
use ip_ndn_stack_cpp.Prelude.{
  ℕ, ◌==◌, ◌≡◌, refl, sym, ap, ◌∙◌, Bool, true, false, Option, none, some, bytes_eq, bytes_eq_self,
  if◌then◌else◌, arith, Bool-cases, inl, inr,
}
use ip_ndn_stack_cpp.Text.{Bytes}
use ip_ndn_stack_cpp.Table.{Table, lookup, present, get, erase}
use ip_ndn_stack_cpp.Table.Laws.{Distinct, lookup-erase, erase-Distinct}

pub record Owner : Type 0 where
  pub table : Table ℕ
  pub live : ℕ → Bool

-- `delete` of a pointer; none where its object is not there, which is undefined.
unfoldable pub delete_tuple : ℕ → Owner → Option Owner
delete_tuple p s =
    if s.live p then some (record s { live = λ q. if q == p then false else s.live q }) else none

abbrev pub erase_entry : Bytes → Option Owner → Option (Owner × ℕ)
erase_entry key none = none
erase_entry key (some s) =
    let (table, res) = erase key s.table in some (record s { table = table }, res)

unfoldable pub erase_deleting : Bytes → ℕ → Owner → Option (Owner × ℕ)
erase_deleting key tuple s = erase_entry key (delete_tuple tuple s)

-- Every entry points to an object that is there, and no two entries to the same.
pub record IsOwned (s : Owner) : Type 0 where
  pub distinct : Distinct s.table
  pub alive : (k : Bytes) (p : ℕ) → lookup k s.table ≡ some p → s.live p ≡ true
  pub unshared :
      (j k : Bytes) (p : ℕ)
      → lookup j s.table ≡ some p
      → lookup k s.table ≡ some p
      → bytes_eq j k ≡ true

-- The owner without the object, and without its entry too.
abbrev deleted : ℕ → Owner → Owner
deleted p s = record s { live = λ q. if q == p then false else s.live q }

abbrev erased : Bytes → ℕ → Owner → Owner
erased key p s = record (deleted p s) { table = (erase key s.table).0 }

-- An entry that stays is one from before, of another key.
lookup_left :
    (key k : Bytes) (m : Table ℕ) {q : ℕ}
    → Distinct m
    → lookup k (erase key m).0 ≡ some q
    → (bytes_eq key k ≡ false) × (lookup k m ≡ some q)
lookup_left key k m d e =
    let e' = sym (lookup-erase key k m d) ∙ e in
    elim (Bool-cases (bytes_eq key k)) [
      | inl same ↦ let wrong = ap (λ b. if b then none else lookup k m) (sym same) ∙ e' in cc
      | inr other ↦ (other, ap (λ b. if b then none else lookup k m) (sym other) ∙ e')
    ]

erased-IsOwned :
    (key : Bytes) (p : ℕ) (s : Owner)
    → IsOwned s
    → lookup key s.table ≡ some p
    → IsOwned (erased key p s)
erased-IsOwned key p s h has = record {
  distinct = erase-Distinct key s.table h.distinct;
  alive = λ k q e.
      let (other, there) = lookup_left key k s.table h.distinct e in
      elim (Bool-cases (q == p)) [
        | inl same ↦
            let is_p : q ≡ p = ground (arith, same) in
            let shared = h.unshared key k p has (there ∙ ap some is_p) in cc
        | inr differ ↦ rw differ (h.alive k q there)
      ];
  unshared = λ j k q ej ek.
      h.unshared j k q (lookup_left key j s.table h.distinct ej).1
        (lookup_left key k s.table h.distinct ek).1;
}

-- In a table whose entries point to objects that are there, no two to the same, and given the
-- pointer of the key's own entry: the call is defined, takes one entry out and leaves every other
-- entry with its object; before it has the lock, the key is still found and its object gone.
pub erase_deleting-IsOwned :
    (key : Bytes) (p : ℕ) (s : Owner)
    → IsOwned s
    → lookup key s.table ≡ some p
    → ((s' : Owner) × (erase_deleting key p s ≡ some (s', 1))
        × IsOwned s'
        × (lookup key s'.table ≡ none))
      × ((s' : Owner) × (delete_tuple p s ≡ some s')
          × (get 0 key s'.table ≡ (p, true))
          × (s'.live p ≡ false))
unfolding erase_deleting delete_tuple erase get
erase_deleting-IsOwned key p s h has =
    let there = h.alive key p has in
    (
      (
        erased key p s,
        rw there (ap (λ o. some (erased key p s, if present o then 1 else 0)) has),
        erased-IsOwned key p s h has,
        lookup-erase key key s.table h.distinct ∙ rw (bytes_eq_self key) refl,
      ),
      (deleted p s, rw there refl, rw (has, get) refl, ground arith),
    )
