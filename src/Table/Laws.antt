-- ===== src/Table/Laws.antt =====
-- The table as a finite map: what each operation does to every key, and that keys stay distinct.
use ip_ndn_stack_cpp.Prelude.{
  ◌≡◌, refl, true, false, none, some, [], ◌∷◌, bytes_eq, bytes_eq_iff, bytes_eq_comm,
  bytes_eq_sound, ◌∙◌, if◌then◌else◌, arith, Bool-cases, inl, inr, ◌&&◌, not,
}
use ip_ndn_stack_cpp.Text.{Bytes}
use ip_ndn_stack_cpp.Table.{Table, lookup, remove, present, save, get, erase}

module _ {ℓ} {T : Type ℓ} where
  -- No key stands twice.
  abbrev pub Distinct : Table T → Type ℓ
  Distinct [] = Unit
  Distinct ((k, v) ∷ m) = (lookup k m ≡ none) × Distinct m

  pub lookup-remove_ne :
      (k j : Bytes) (m : Table T) → bytes_eq k j ≡ false → lookup j (remove k m) ≡ lookup j m
  unfolding lookup remove
  lookup-remove_ne k j [] h = refl
  lookup-remove_ne k j ((i, v) ∷ m) h =
      ground (arith, lookup-remove_ne k j m h, bytes_eq_iff i k, bytes_eq_iff i j, bytes_eq_iff k j)

  pub lookup-remove_self : (k : Bytes) (m : Table T) → Distinct m → lookup k (remove k m) ≡ none
  unfolding lookup remove
  lookup-remove_self k [] h = refl
  lookup-remove_self k ((i, v) ∷ m) (fresh, h) =
      ground (arith, lookup-remove_self k m h, bytes_eq_iff i k)

  remove-Distinct : (k : Bytes) (m : Table T) → Distinct m → Distinct (remove k m)
  unfolding lookup remove
  remove-Distinct k [] h = tt
  remove-Distinct k ((i, v) ∷ m) (fresh, h) = elim (Bool-cases (bytes_eq i k)) [
    | inl same ↦ rw (same, remove) h
    | inr other ↦
        rw (other, remove)
          (lookup-remove_ne k i m (bytes_eq_comm k i ∙ other) ∙ fresh, remove-Distinct k m h)
  ]

  pub lookup-erase :
      (k j : Bytes) (m : Table T)
      → Distinct m
      → lookup j (erase k m).0 ≡ (if bytes_eq k j then none else lookup j m)
  unfolding erase
  lookup-erase k j m h = elim (Bool-cases (bytes_eq k j)) [
    | inl same ↦ rw same (rw (← bytes_eq_sound k j same) (lookup-remove_self k m h))
    | inr other ↦ rw other (lookup-remove_ne k j m other)
  ]

  pub erase-Distinct : (k : Bytes) (m : Table T) → Distinct m → Distinct (erase k m).0
  unfolding erase
  erase-Distinct k m h = remove-Distinct k m h

  -- `save` puts the value in at a new key, and changes nothing at one that is there.
  pub lookup-save :
      (k j : Bytes) (v : T) (m : Table T)
      → lookup j (save k v m).0
        ≡ (if bytes_eq k j && not (present (lookup k m)) then some v else lookup j m)
  unfolding lookup save
  lookup-save k j v m = ground (arith, bytes_eq_iff k j)

  pub save-result : (k : Bytes) (v : T) (m : Table T) → (save k v m).1 ≡ not (present (lookup k m))
  unfolding save
  save-result k v m = ground arith

  pub save-Distinct : (k : Bytes) (v : T) (m : Table T) → Distinct m → Distinct (save k v m).0
  unfolding save
  save-Distinct k v m h = ground arith

  pub save_new :
      (k : Bytes) (v : T) (m : Table T) → lookup k m ≡ none → save k v m ≡ ((k, v) ∷ m, true)
  unfolding save
  save_new k v m e = rw e

  pub save_present :
      (k : Bytes) (v : T) {w : T} (m : Table T) → lookup k m ≡ some w → save k v m ≡ (m, false)
  unfolding save
  save_present k v m e = rw e

  -- Whether `get` finds the key.
  pub get-none : (d : T) (k : Bytes) (m : Table T) → lookup k m ≡ none → (get d k m).1 ≡ false
  unfolding get
  get-none d k m e = rw (e, get)

  pub get-some :
      (d : T) (k : Bytes) {v : T} (m : Table T) → lookup k m ≡ some v → (get d k m).1 ≡ true
  unfolding get
  get-some d k m e = rw (e, get)
