-- ===== src/Table/Threads/Calls.antt =====
-- The numbers that concurrent calls of getAndIncreaseSequence (helper/MapCacheHelper.h) give.
use ip_ndn_stack_cpp.Prelude.{
  ℕ, ◌≡◌, refl, sym, ap, ◌∙◌, List, [], ◌∷◌, length, true, false, none, some, bytes_eq_self, All,
  arith, Option-cases, inl, inr,
}
use mathlib.Core.Path.{subst}
use ip_ndn_stack_cpp.Text.{Bytes}
use ip_ndn_stack_cpp.Word.{inc_int}
use ip_ndn_stack_cpp.Table.{lookup, save, get, erase}
use ip_ndn_stack_cpp.Table.Laws.{Distinct, lookup-erase, save_new, save_present, get-none}
use ip_ndn_stack_cpp.Table.Threads.{
  got, Shared, proceed, Action, enter, go_on, save_beside, go_on_if_held, step, run,
}
use ip_ndn_stack_cpp.Table.Threads.Counting.{
  calls_of, number_after, counting_calls, spares, visible, IsSeen, IsNumbered,
}
use ip_ndn_stack_cpp.Table.Threads.Steps.{
  enter-IsNumbered, save_beside-IsNumbered, lookup_head, proceed-IsNumbered,
}

Holds : Bytes → ℕ → Shared → Type 0
Holds key first s = IsNumbered key first s.holder s.table s.finished

go_on-Holds :
    (key : Bytes) (first : ℕ) (s : Shared)
    → Holds key first s
    → Holds key first (go_on_if_held s.holder s)
unfolding Holds
go_on-Holds key first s h = elim (Option-cases s.holder) [
  | inl free ↦
      subst
        (λ o.
          IsNumbered key first (go_on_if_held o s).holder (go_on_if_held o s).table
            (go_on_if_held o s).finished)
        (sym free) h
  | inr (p, held) ↦
      subst
        (λ o.
          IsNumbered key first (go_on_if_held o s).holder (go_on_if_held o s).table
            (go_on_if_held o s).finished)
        (sym held)
        (proceed-IsNumbered key first p s
          (subst (λ o. IsNumbered key first o s.table s.finished) held h))
]

step-Holds :
    (key : Bytes) (first : ℕ) (a : Action) (s : Shared)
    → spares key a ≡ true
    → Holds key first s
    → Holds key first (step a s)
unfolding Holds step spares
step-Holds key first (enter k) s other h =
    enter-IsNumbered key k first s.holder s.table s.finished h
step-Holds key first go_on s other h = go_on-Holds key first s h
step-Holds key first (save_beside k v) s other h =
    save_beside-IsNumbered key k v first s.holder s.table s.finished (ground (arith, other)) h

run-Holds :
    (key : Bytes) (first : ℕ) (actions : List Action) (s : Shared)
    → All (λ a. spares key a ≡ true) actions
    → Holds key first s
    → Holds key first (run actions s)
unfolding run
run-Holds key first [] s _ h = h
run-Holds key first (a ∷ actions) s (other, others) h =
    run-Holds key first actions (step a s) others (step-Holds key first a s other h)

-- Threads increase the numbers of a table with distinct keys, of any keys, and save other keys than
-- one, in any order. If that key has a number when they begin, with the mutex free and no call
-- finished, all finished calls of the key succeeded, each with the number after that of the one
-- before; and so many numbers on is the value of the key, but between the erasure and the insertion
-- of a call.
pub run-calls :
    (key : Bytes) (first : ℕ) (actions : List Action) (s : Shared)
    → Distinct s.table
    → lookup key s.table ≡ some first
    → s.holder ≡ none
    → s.finished ≡ []
    → All (λ a. spares key a ≡ true) actions
    → let r = run actions s in
      let n = length (calls_of key r.finished) in
      (calls_of key r.finished ≡ counting_calls key n first)
      × (visible key r.holder r.table ≡ some (number_after n first))
unfolding Holds calls_of counting_calls number_after visible IsSeen
run-calls key first actions s d has free fresh others =
    let begin : Holds key first s =
      subst (λ o. IsNumbered key first o s.table s.finished) (sym free)
        (subst (IsNumbered key first none s.table) (sym fresh)
          (record { distinct = d; seen = tt; number = has; counted = refl })) in
    let h = run-Holds key first actions s others begin in (h.counted, h.number)

-- In a table with distinct keys, let a call that has found the key take it out, another thread save
-- a number of the key, and the call go on. Then the call fails, and the key starts from the number
-- that was saved; in between, `get` did not find the key.
pub interrupted_restarts :
    (key : Bytes) (v first : ℕ) (s : Shared)
    → Distinct s.table
    → s.holder ≡ some (got key v true)
    → ((get 0 key (run (go_on ∷ []) s).table).1 ≡ false)
      × ((run (go_on ∷ save_beside key first ∷ go_on ∷ []) s).finished
          ≡ record { key = key; index = some (inc_int v); success = false } ∷ s.finished)
      × (lookup key (run (go_on ∷ save_beside key first ∷ go_on ∷ []) s).table ≡ some first)
unfolding run step proceed
interrupted_restarts key v first s d held =
    let gone = lookup-erase key key s.table d ∙ rw (bytes_eq_self key) refl in
    let m = (erase key s.table).0 in
    let head = lookup_head key key first m (bytes_eq_self key) in
    let both =
      ap (λ x. save key (inc_int v) x.0) (save_new key first m gone)
      ∙ save_present key (inc_int v) ((key, first) ∷ m) head in
    rw held (
      get-none 0 key m gone,
      ap (λ x. record { key = key; index = some (inc_int v); success = x.1 } ∷ s.finished) both,
      ap (λ x. lookup key x.0) both ∙ head,
    )
