-- ===== src/Table/Examples.antt =====
-- Two threads that number packets of two flows, the race with a save of the same key, and a table of
-- one owned pointer.
use ip_ndn_stack_cpp.Prelude.{
  ℕ, ◌==◌, ◌≡◌, refl, sym, ap, ◌∙◌, [], ◌∷◌, List, length, All, bytes_eq_sound, true, false, some,
  none, bytes_eq, if◌then◌else◌, Bool-cases, inl, inr,
}
use ip_ndn_stack_cpp.Text.{Bytes}
use ip_ndn_stack_cpp.Word.{inc_int}
use ip_ndn_stack_cpp.Table.{lookup, get}
use ip_ndn_stack_cpp.Table.Laws.{Distinct}
use ip_ndn_stack_cpp.Table.Threads.{Shared, Action, enter, go_on, save_beside, got, run}
use ip_ndn_stack_cpp.Table.Threads.Counting.{
  calls_of, number_after, counting_calls, visible, spares,
}
use ip_ndn_stack_cpp.Table.Threads.Calls.{run-calls, interrupted_restarts}
use ip_ndn_stack_cpp.Table.Owned.{
  Owner, IsOwned, erase_deleting, delete_tuple, erase_deleting-IsOwned,
}

abbrev key_a : Bytes
key_a = 97 ∷ []

abbrev key_b : Bytes
key_b = 98 ∷ []

abbrev shared : Shared
shared = record { table = (key_a, 4) ∷ []; holder = none; finished = [] }

shared-Distinct : Distinct shared.table
unfolding lookup
shared-Distinct = (refl, tt)

has_a : lookup key_a shared.table ≡ some 4
unfolding lookup bytes_eq
has_a = refl

-- One call of the key, with a second thread that waits and a save of another key in the middle of it,
-- and then the call of the second thread.
abbrev interleaving : List Action
interleaving =
    enter key_a
    ∷ go_on
    ∷ enter key_a
    ∷ go_on
    ∷ save_beside key_b 1
    ∷ go_on
    ∷ enter key_a
    ∷ go_on
    ∷ go_on
    ∷ go_on
    ∷ []

spared : All (λ a. spares key_a a ≡ true) interleaving
unfolding spares bytes_eq
spared = (refl, (refl, (refl, (refl, (refl, (refl, (refl, (refl, (refl, (refl, tt))))))))))

run-calls_example :
    (calls_of key_a (run interleaving shared).finished
      ≡ counting_calls key_a (length (calls_of key_a (run interleaving shared).finished)) 4)
    × (visible key_a (run interleaving shared).holder (run interleaving shared).table
        ≡ some (number_after (length (calls_of key_a (run interleaving shared).finished)) 4))
run-calls_example = run-calls key_a 4 interleaving shared shared-Distinct has_a refl refl spared

abbrev in_a_call : Shared
in_a_call = record shared { holder = some (got key_a 4 true) }

interrupted_restarts_example :
    ((get 0 key_a (run (go_on ∷ []) in_a_call).table).1 ≡ false)
    × ((run (go_on ∷ save_beside key_a 1 ∷ go_on ∷ []) in_a_call).finished
        ≡ record { key = key_a; index = some (inc_int 4); success = false } ∷ [])
    × (lookup key_a (run (go_on ∷ save_beside key_a 1 ∷ go_on ∷ []) in_a_call).table ≡ some 1)
interrupted_restarts_example = interrupted_restarts key_a 4 1 in_a_call shared-Distinct refl

-- A table with one entry, which points to the one object there is.
abbrev owner : Owner
owner = record { table = (key_a, 1000) ∷ []; live = λ p. p == 1000 }

owner_entry :
    (k : Bytes) (p : ℕ) → lookup k owner.table ≡ some p → (bytes_eq key_a k ≡ true) × (1000 ≡ p)
unfolding lookup
owner_entry k p e = elim (Bool-cases (bytes_eq key_a k)) [
  | inl same ↦ let found = ap (λ b. if b then some 1000 else none) (sym same) ∙ e in (same, cc)
  | inr other ↦ let missing = ap (λ b. if b then some 1000 else none) (sym other) ∙ e in cc
]

owner-IsOwned : IsOwned owner
unfolding lookup
owner-IsOwned = record {
  distinct = (refl, tt);
  alive = λ k p e. ap (λ x. x == 1000) (sym (owner_entry k p e).1);
  unshared = λ j k p ej ek.
      ap (λ x. bytes_eq x k) (sym (bytes_eq_sound key_a j (owner_entry j p ej).0))
      ∙ (owner_entry k p ek).0;
}

owner_has : lookup key_a owner.table ≡ some 1000
unfolding lookup bytes_eq
owner_has = refl

erase_deleting-IsOwned_example :
    ((s' : Owner) × (erase_deleting key_a 1000 owner ≡ some (s', 1))
      × IsOwned s'
      × (lookup key_a s'.table ≡ none))
    × ((s' : Owner) × (delete_tuple 1000 owner ≡ some s')
        × (get 0 key_a s'.table ≡ (1000, true))
        × (s'.live 1000 ≡ false))
erase_deleting-IsOwned_example = erase_deleting-IsOwned key_a 1000 owner owner-IsOwned owner_has
