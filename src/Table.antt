-- ===== src/Table.antt =====
-- MapCacheHelper<T> (helper/MapCacheHelper.h): a table from strings to values under one lock. The
-- std::unordered_map inside is a list of entries with distinct keys; T is generic, and
-- `getAndIncreaseSequence` is the member that the table of ints has.
pub mod Laws
pub mod Sequence
pub mod Threads
pub mod Owned
pub mod Examples
use ip_ndn_stack_cpp.Prelude.{
  ℕ, Bool, true, false, Option, none, some, List, [], ◌∷◌, bytes_eq, if◌then◌else◌,
}
use ip_ndn_stack_cpp.Text.{Bytes}
use ip_ndn_stack_cpp.Word.{inc_int}

abbrev pub Table {ℓ} : Type ℓ → Type ℓ
Table T = List (Bytes × T)

module _ {ℓ} {T : Type ℓ} where
  -- unordered_map::find.
  unfoldable pub lookup : Bytes → Table T → Option T
  lookup key [] = none
  lookup key ((k, v) ∷ m) = if bytes_eq k key then some v else lookup key m

  -- unordered_map::erase of a key; the entries that stay, and how many went.
  unfoldable pub remove : Bytes → Table T → Table T
  remove key [] = []
  remove key ((k, v) ∷ m) = if bytes_eq k key then m else (k, v) ∷ remove key m

  abbrev pub present : Option T → Bool
  present none = false
  present (some v) = true

  -- The table and whether the value went in: an entry that is there already is kept.
  unfoldable pub save : Bytes → T → Table T → Table T × Bool
  save key value m = if present (lookup key m) then (m, false) else ((key, value) ∷ m, true)

  -- The second part says whether the key was found; `empty_item` is the member `emptyItem`.
  unfoldable pub get : T → Bytes → Table T → T × Bool
  get empty_item key m = elim (lookup key m) [ none ↦ (empty_item, false) | some v ↦ (v, true) ]

  -- The table and the number of entries that went.
  unfoldable pub erase : Bytes → Table T → Table T × ℕ
  erase key m = (remove key m, if present (lookup key m) then 1 else 0)

-- The table, the index that the tuple gets (if it gets one), and the success. The value of the key
-- is an int, by its pattern; what `emptyItem` holds is of no account.
unfoldable pub get_and_increase_sequence : Bytes → Table ℕ → Table ℕ × Option ℕ × Bool
unfolding get save erase
get_and_increase_sequence key m =
    let (v, found) = get 0 key m in
    let index = inc_int v in
    let (m', success) = save key index (erase key m).0 in
    if found then (m', some index, success) else (m, none, false)
