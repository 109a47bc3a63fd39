-- ===== src/Table/Threads/Steps.antt =====
-- Every step of getAndIncreaseSequence (helper/MapCacheHelper.h), and of the calls beside it, keeps
-- the count.
use ip_ndn_stack_cpp.Prelude.{
  ℕ, ◌≡◌, refl, sym, ap, ap₂, ◌∙◌, List, ◌∷◌, length, Bool, true, false, Option, none, some,
  bytes_eq, bytes_eq_sound, if◌then◌else◌, Bool-cases, inl, inr,
}
use ip_ndn_stack_cpp.Text.{Bytes}
use ip_ndn_stack_cpp.Word.{inc_int}
use ip_ndn_stack_cpp.Table.{Table, lookup, save, get, erase}
use ip_ndn_stack_cpp.Table.Laws.{
  Distinct, lookup-erase, lookup-save, erase-Distinct, save-Distinct, save_new,
}
use ip_ndn_stack_cpp.Table.Threads.{
  Progress, entered, got, erased, Call, Shared, proceed, enter_if_free,
}
use ip_ndn_stack_cpp.Table.Threads.Counting.{
  calls_of, number_after, visible, IsSeen, IsNumbered, IsSeen-change, visible-change, finish_other,
  finish_same,
}

pub enter-IsNumbered :
    (key k : Bytes) (first : ℕ) (o : Option Progress) (m : Table ℕ) (cs : List Call)
    → IsNumbered key first o m cs
    → IsNumbered key first (enter_if_free k o) m cs
unfolding IsSeen visible
enter-IsNumbered key k first none m cs h = record {
  distinct = h.distinct;
  seen = tt;
  number = h.number;
  counted = h.counted;
}
enter-IsNumbered key k first (some p) m cs h = h

-- A save of another key does not change the lookup.
save-lookup :
    (key k : Bytes) (v : ℕ) (m : Table ℕ)
    → bytes_eq k key ≡ false
    → lookup key (save k v m).0 ≡ lookup key m
save-lookup key k v m other = lookup-save k key v m ∙ rw other refl

erase-lookup :
    (key k : Bytes) (m : Table ℕ)
    → Distinct m
    → bytes_eq k key ≡ false
    → lookup key (erase k m).0 ≡ lookup key m
erase-lookup key k m d other = lookup-erase k key m d ∙ rw other refl

pub save_beside-IsNumbered :
    (key k : Bytes) (v first : ℕ) (o : Option Progress) (m : Table ℕ) (cs : List Call)
    → bytes_eq k key ≡ false
    → IsNumbered key first o m cs
    → IsNumbered key first o (save k v m).0 cs
save_beside-IsNumbered key k v first o m cs other h =
    let e = save-lookup key k v m other in
    record {
      distinct = save-Distinct k v m h.distinct;
      seen = IsSeen-change key o m (save k v m).0 e h.seen;
      number = visible-change key o m (save k v m).0 e ∙ h.number;
      counted = h.counted;
    }

-- The value in an option, if there is one.
abbrev value_of : Option ℕ → ℕ
value_of none = 0
value_of (some v) = v

pub lookup_head :
    (key k : Bytes) (v : ℕ) (m : Table ℕ) → bytes_eq k key ≡ true → lookup key ((k, v) ∷ m) ≡ some v
unfolding lookup
lookup_head key k v m same = rw same refl

get_found : (key : Bytes) (m : Table ℕ) {v : ℕ} → lookup key m ≡ some v → get 0 key m ≡ (v, true)
unfolding get
get_found key m e = rw (e, get) refl

pub proceed-IsNumbered :
    (key : Bytes) (first : ℕ) (p : Progress) (s : Shared)
    → IsNumbered key first (some p) s.table s.finished
    → IsNumbered key first (proceed p s).holder (proceed p s).table (proceed p s).finished
unfolding proceed IsSeen visible number_after
proceed-IsNumbered key first (entered k) s h = record {
  distinct = h.distinct;
  seen = λ same.
      let found =
        ap (λ x. get 0 x s.table) (bytes_eq_sound k key same) ∙ get_found key s.table h.number in
      (ap (λ x. x.1) found, h.number ∙ ap (λ x. some x.0) (sym found));
  number = h.number;
  counted = h.counted;
}
proceed-IsNumbered key first (got k v false) s h = elim (Bool-cases (bytes_eq k key)) [
  | inl same ↦ let wrong = (h.seen same).0 in cc
  | inr other ↦
      finish_other key first (record { key = k; index = none; success = false }) s.table s.finished
        other (record { distinct = h.distinct; seen = tt; number = h.number; counted = h.counted })
]
proceed-IsNumbered key first (got k v true) s h = record {
  distinct = erase-Distinct k s.table h.distinct;
  seen = λ same. lookup-erase k key s.table h.distinct ∙ rw same refl;
  number = elim (Bool-cases (bytes_eq k key)) [
    | inl same ↦ rw same (sym (h.seen same).1 ∙ h.number)
    | inr other ↦ rw other (erase-lookup key k s.table h.distinct other ∙ h.number)
  ];
  counted = h.counted;
}
proceed-IsNumbered key first (erased k v) s h =
    let (m, success) = save k (inc_int v) s.table in
    let c : Call = record { key = k; index = some (inc_int v); success = success } in
    let n = length (calls_of key s.finished) in
    elim (Bool-cases (bytes_eq k key)) [
      | inl same ↦
          let e = bytes_eq_sound k key same in
          let saved = save_new k (inc_int v) s.table (ap (λ x. lookup x s.table) e ∙ h.seen same) in
          let reached : v ≡ number_after n first =
            ap (λ (b : Bool). value_of (if b then some v else lookup key s.table)) (sym same)
            ∙ ap value_of h.number in
          finish_same key first n c m s.finished refl
            (ap₂ (λ x b. record { key = x; index = some (inc_int v); success = b }) e
                (ap (λ y. y.1) saved)
              ∙ ap (λ w. record { key = key; index = some (inc_int w); success = true }) reached)
            (save-Distinct k (inc_int v) s.table h.distinct)
            (ap (λ y. lookup key y.0) saved
              ∙ lookup_head key k (inc_int v) s.table same
              ∙ ap (λ w. some (inc_int w)) reached)
            h.counted
      | inr other ↦ finish_other key first c m s.finished other (record {
        distinct = save-Distinct k (inc_int v) s.table h.distinct;
        seen = tt;
        number =
            save-lookup key k (inc_int v) s.table other
            ∙ ap (λ b. if b then some v else lookup key s.table) (sym other)
            ∙ h.number;
        counted = h.counted;
      })
    ]
