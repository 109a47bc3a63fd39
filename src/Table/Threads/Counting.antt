-- ===== src/Table/Threads/Counting.antt =====
-- What it means that the calls of getAndIncreaseSequence (helper/MapCacheHelper.h) count.
use ip_ndn_stack_cpp.Prelude.{
  ℕ, zero, suc, ◌≡◌, refl, sym, ap, ap₂, ◌∙◌, List, [], ◌∷◌, length, Bool, true, false, Option,
  none, some, bytes_eq, bytes_eq_self, if◌then◌else◌, not,
}
use mathlib.Core.Path.{subst}
use ip_ndn_stack_cpp.Text.{Bytes}
use ip_ndn_stack_cpp.Word.{inc_int}
use ip_ndn_stack_cpp.Table.{Table, lookup}
use ip_ndn_stack_cpp.Table.Laws.{Distinct}
use ip_ndn_stack_cpp.Table.Threads.{
  Progress, entered, got, erased, Call, Action, enter, go_on, save_beside,
}

-- The calls of one key, newest first.
unfoldable pub calls_of : Bytes → List Call → List Call
calls_of key [] = []
calls_of key (c ∷ cs) = let rest = calls_of key cs in if bytes_eq c.key key then c ∷ rest else rest

-- The number after so many calls.
unfoldable pub number_after : ℕ → ℕ → ℕ
number_after zero v = v
number_after (suc n) v = inc_int (number_after n v)

-- So many calls that succeed, each with the number after that of the one before it.
unfoldable pub counting_calls : Bytes → ℕ → ℕ → List Call
counting_calls key zero v = []
counting_calls key (suc n) v =
    record { key = key; index = some (number_after (suc n) v); success = true }
    ∷ counting_calls key n v

-- The action is no save of the key.
unfoldable pub spares : Bytes → Action → Bool
spares key (enter k) = true
spares key go_on = true
spares key (save_beside k v) = not (bytes_eq k key)

-- The value of the key, the step between erase and save left out.
unfoldable pub visible : Bytes → Option Progress → Table ℕ → Option ℕ
visible key none m = lookup key m
visible key (some (entered k)) m = lookup key m
visible key (some (got k v found)) m = lookup key m
visible key (some (erased k v)) m = if bytes_eq k key then some v else lookup key m

-- What the call in progress has seen and done, if it is of the key.
unfoldable pub IsSeen : Bytes → Option Progress → Table ℕ → Type 0
IsSeen key none m = Unit
IsSeen key (some (entered k)) m = Unit
IsSeen key (some (got k v found)) m =
    bytes_eq k key ≡ true → (found ≡ true) × (lookup key m ≡ some v)
IsSeen key (some (erased k v)) m = bytes_eq k key ≡ true → lookup key m ≡ none

pub record IsNumbered (key : Bytes) (first : ℕ) (o : Option Progress) (m : Table ℕ) (cs : List Call)
    : Type 0 where
  pub distinct : Distinct m
  pub seen : IsSeen key o m
  pub number : visible key o m ≡ some (number_after (length (calls_of key cs)) first)
  pub counted : calls_of key cs ≡ counting_calls key (length (calls_of key cs)) first

pub IsSeen-change :
    (key : Bytes) (o : Option Progress) (m m' : Table ℕ)
    → lookup key m' ≡ lookup key m
    → IsSeen key o m
    → IsSeen key o m'
unfolding IsSeen
IsSeen-change key none m m' e h = tt
IsSeen-change key (some (entered k)) m m' e h = tt
IsSeen-change key (some (got k v found)) m m' e h = λ same. ((h same).0, e ∙ (h same).1)
IsSeen-change key (some (erased k v)) m m' e h = λ same. e ∙ h same

pub visible-change :
    (key : Bytes) (o : Option Progress) (m m' : Table ℕ)
    → lookup key m' ≡ lookup key m
    → visible key o m' ≡ visible key o m
unfolding visible
visible-change key none m m' e = e
visible-change key (some (entered k)) m m' e = e
visible-change key (some (got k v found)) m m' e = e
visible-change key (some (erased k v)) m m' e = ap (λ x. if bytes_eq k key then some v else x) e

pub calls_of-other :
    (key : Bytes) (c : Call) (cs : List Call)
    → bytes_eq c.key key ≡ false
    → calls_of key (c ∷ cs) ≡ calls_of key cs
unfolding calls_of
calls_of-other key c cs other = rw other refl

pub calls_of-same :
    (key : Bytes) (c : Call) (cs : List Call)
    → bytes_eq c.key key ≡ true
    → calls_of key (c ∷ cs) ≡ c ∷ calls_of key cs
unfolding calls_of
calls_of-same key c cs same = rw same refl

-- A call of another key ends.
pub finish_other :
    (key : Bytes) (first : ℕ) (c : Call) (m : Table ℕ) (cs : List Call)
    → bytes_eq c.key key ≡ false
    → IsNumbered key first none m cs
    → IsNumbered key first none m (c ∷ cs)
finish_other key first c m cs other h =
    let e = sym (calls_of-other key c cs other) in
    record {
      distinct = h.distinct;
      seen = h.seen;
      number = subst (λ l. visible key none m ≡ some (number_after (length l) first)) e h.number;
      counted = subst (λ l. l ≡ counting_calls key (length l) first) e h.counted;
    }

-- A call of the key ends with the next number, which is now the value of the key.
pub finish_same :
    (key : Bytes) (first n : ℕ) (c : Call) (m : Table ℕ) (cs : List Call)
    → n ≡ length (calls_of key cs)
    → c ≡ record { key = key; index = some (number_after (suc n) first); success = true }
    → Distinct m
    → lookup key m ≡ some (number_after (suc n) first)
    → calls_of key cs ≡ counting_calls key n first
    → IsNumbered key first none m (c ∷ cs)
unfolding IsSeen visible counting_calls
finish_same key first n c m cs len is distinct number counted =
    let e =
      sym (calls_of-same key c cs (ap (λ (x : Call). bytes_eq x.key key) is ∙ bytes_eq_self key)) in
    record {
      distinct = distinct;
      seen = tt;
      number =
          subst (λ l. lookup key m ≡ some (number_after (length l) first)) e
            (number ∙ ap (λ i. some (number_after (suc i) first)) len);
      counted =
          subst (λ l. l ≡ counting_calls key (length l) first) e
            (ap₂ (λ x l. x ∷ l) is counted ∙ ap (λ i. counting_calls key (suc i) first) len);
    }
