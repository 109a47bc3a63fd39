-- ===== src/Ndn/Rounds.antt =====
-- The guessing loop of dealOnInterest: which interests it expresses, and which guesses it leaves.
use ip_ndn_stack_cpp.Prelude.{
  ℕ, zero, suc, ◌+◌, ◌<◌, ◌≡◌, refl, sym, ap, List, [], ◌∷◌, ◌++◌, map, append-nil, append_assoc,
  true, false, ◌||◌, bytes_eq, if◌then◌else◌, arith, All, Bool-cases, inl, inr, get_elem?, some,
  bytes_eq_sound,
}
use ip_ndn_stack_cpp.Text.{Bytes}
use ip_ndn_stack_cpp.Word.{inc_int-lt, int_to_string, int_limit}
use ip_ndn_stack_cpp.GuessSet
use ip_ndn_stack_cpp.GuessSet.{GuessSet, find}
use ip_ndn_stack_cpp.GuessSet.Laws.{find-save_concurrence, save_concurrence-result}
use ip_ndn_stack_cpp.Ndn.State.{interest_lifetime, Ndn, Request, express_interest}
use ip_ndn_stack_cpp.Ndn.Handlers.{guess_one, guess_rounds}

-- The names numbered `num + 1` up to `num + rounds`.
unfoldable pub names : (ℕ → Bytes) → ℕ → ℕ → List Bytes
names name zero num = []
names name (suc rounds) num = name (num + 1) ∷ names name rounds (num + 1)

pub guess_all : List Bytes → Ndn → Ndn
guess_all [] s = s
guess_all (x ∷ xs) s = guess_all xs (guess_one x s)

pub guess_rounds-guess_all :
    (name : ℕ → Bytes) (g : Bytes)
    → ((n : ℕ) → g ++ int_to_string n ≡ name n)
    → (rounds num : ℕ) (s : Ndn) → num + rounds < int_limit
    → guess_rounds g rounds num s ≡ guess_all (names name rounds num) s
unfolding guess_rounds guess_all names
guess_rounds-guess_all name g e zero num s h = refl
guess_rounds-guess_all name g e (suc rounds) num s h =
    rw (inc_int-lt num (omega arith), e (num + 1))
      (guess_rounds-guess_all name g e rounds (num + 1) (guess_one (name (num + 1)) s)
        (omega arith))

-- The names that are not in the table.
unfoldable pub missing : GuessSet → List Bytes → List Bytes
missing t [] = []
missing t (x ∷ xs) = if find x t then missing t xs else x ∷ missing t xs

abbrev pub tcp_request : Bytes → Request
tcp_request name = record {
  name = name;
  is_pre = false;
  is_tcp = true;
  lifetime = interest_lifetime;
}

abbrev Differs : Bytes → List Bytes → Type 0
Differs x = All (λ y. bytes_eq x y ≡ false)

abbrev pub AllDiffer : List Bytes → Type 0
AllDiffer [] = Unit {0}
AllDiffer (x ∷ xs) = Differs x xs × AllDiffer xs

missing-save :
    (x : Bytes) (t : GuessSet) (ys : List Bytes)
    → Differs x ys
    → missing (GuessSet.save_concurrence x t).0 ys ≡ missing t ys
unfolding missing
missing-save x t [] h = refl
missing-save x t (y ∷ ys) (d, h) =
    ground (arith, find-save_concurrence x y t, missing-save x t ys h)

pub guess_one-table :
    (x : Bytes) (s : Ndn)
    → (guess_one x s).guess_table ≡ (GuessSet.save_concurrence x s.guess_table).0
unfolding guess_one express_interest
guess_one-table x s = ground arith

pub guess_one-expressed :
    (x : Bytes) (s : Ndn)
    → (guess_one x s).expressed
      ≡ (if find x s.guess_table then s.expressed else s.expressed ++ tcp_request x ∷ [])
unfolding guess_one express_interest
guess_one-expressed x s = ground (arith, save_concurrence-result x s.guess_table)

-- The loop expresses an interest for each name that is not yet guessed, in order.
pub guess_all-expressed :
    (xs : List Bytes) (s : Ndn)
    → AllDiffer xs
    → (guess_all xs s).expressed ≡ s.expressed ++ map tcp_request (missing s.guess_table xs)
unfolding guess_all missing
guess_all-expressed [] s h = sym (append-nil s.expressed)
guess_all-expressed (x ∷ xs) s (d, h) =
    rw
      (
        guess_all-expressed xs (guess_one x s) h,
        guess_one-table x s,
        missing-save x s.guess_table xs d,
        guess_one-expressed x s,
      )
      (elim (Bool-cases (find x s.guess_table)) [
        | inl old ↦ rw old
        | inr new ↦ rw new (append_assoc s.expressed (tcp_request x ∷ []) _)
      ])

-- Afterwards the old guesses and the names are in the table, and nothing else.
pub guess_all-table :
    (u : Bytes) (xs : List Bytes) (s : Ndn)
    → find u (guess_all xs s).guess_table ≡ (find u xs || find u s.guess_table)
unfolding guess_all find
guess_all-table u [] s = refl
guess_all-table u (x ∷ xs) s = ground (
  arith,
  guess_all-table u xs (guess_one x s),
  ap (find u) (guess_one-table x s),
  find-save_concurrence x u s.guess_table,
)

-- A name that the table does not hold is at some place among those missing.
pub missing-place :
    (u : Bytes) (t : GuessSet) (xs : List Bytes)
    → find u t ≡ false
    → find u xs ≡ true
    → (i : ℕ) × (get_elem? (map tcp_request (missing t xs)) i ≡ some (tcp_request u))
unfolding missing find
missing-place u t [] new h = cc
missing-place u t (x ∷ xs) new h = elim (Bool-cases (bytes_eq x u)) [
  | inl same ↦ (zero, rw (bytes_eq_sound x u same, new) refl)
  | inr differs ↦
      let (i, there) = missing-place u t xs new (rw differs at h) in
      elim (Bool-cases (find x t)) [
        | inl old ↦ (i, rw old there)
        | inr fresh ↦ (suc i, rw fresh there)
      ]
]
