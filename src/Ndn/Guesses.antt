-- ===== src/Ndn/Guesses.antt =====
-- The guess table (`prefixGuestTable` of helper/NDNHelper.cpp) against the interests that went out: a
-- name that it holds is not asked for again by the guessing loop, because it has been asked for.
use ip_ndn_stack_cpp.Prelude.{
  ℕ, ◌≡◌, refl, sym, ap, ◌∙◌, ◌⊎◌, inl, inr, List, [], ◌∷◌, ◌++◌, Bool, true, false, ◌||◌, some,
  bytes_eq, bytes_eq_sound, arith, length, get_elem?, get_elem?-append, get_elem?-length,
  if◌then◌else◌,
}
use ip_ndn_stack_cpp.Text.{Bytes}
use ip_ndn_stack_cpp.Boost.{Boost}
use ip_ndn_stack_cpp.GuessSet.{find}
use ip_ndn_stack_cpp.GuessSet.Laws.{find-save_concurrence, find-erase}
use ip_ndn_stack_cpp.Ndn.State.{Ndn, Request, express_interest}
use ip_ndn_stack_cpp.Ndn.Handlers.{guess_one, forget_guess, on_interest}
use ip_ndn_stack_cpp.Ndn.Keeps.{IsKept, on_interest_keeps}
use ip_ndn_stack_cpp.Ndn.Rounds.{tcp_request, guess_one-table, guess_one-expressed}

-- The place of an interest for the data of a flow under the name `u`.
pub record IsAskedFor (u : Bytes) (asked : List Request) : Type 0 where
  pub place : ℕ
  pub there : get_elem? asked place ≡ some (tcp_request u)

pub record GuessesAsked (s : Ndn) : Type 0 where
  pub guess : (u : Bytes) → find u s.guess_table ≡ true → IsAskedFor u s.expressed

more-IsAskedFor :
    (u : Bytes) (asked more : List Request) → IsAskedFor u asked → IsAskedFor u (asked ++ more)
more-IsAskedFor u asked more a = record {
  place = a.place;
  there = get_elem?-append asked more a.place (tcp_request u) a.there;
}

last-IsAskedFor : (u : Bytes) (asked : List Request) → IsAskedFor u (asked ++ tcp_request u ∷ [])
last-IsAskedFor u asked = record {
  place = length asked;
  there = get_elem?-length asked [] (tcp_request u);
}

-- What has been asked for has still been after an interest more.
express-IsAskedFor :
    (u name : Bytes) (tcp : Bool) (s : Ndn)
    → IsAskedFor u s.expressed
    → IsAskedFor u (express_interest name false tcp s).expressed
unfolding express_interest
express-IsAskedFor u name tcp s a = more-IsAskedFor u s.expressed _ a

pub forget-expressed : (name : Bytes) (s : Ndn) → (forget_guess name s).expressed ≡ s.expressed
unfolding forget_guess
forget-expressed name s = ground arith

forget-IsAskedFor :
    (u name : Bytes) (s : Ndn)
    → IsAskedFor u s.expressed
    → IsAskedFor u (forget_guess name s).expressed
forget-IsAskedFor u name s a = rw (forget-expressed name s) a

guess-IsAskedFor :
    (u name : Bytes) (s : Ndn)
    → IsAskedFor u s.expressed
    → IsAskedFor u (guess_one name s).expressed
guess-IsAskedFor u name s a = rw (guess_one-expressed name s) (by_test (find name s.guess_table))
  where
    by_test :
        (b : Bool) → IsAskedFor u (if b then s.expressed else s.expressed ++ tcp_request name ∷ [])
    by_test true = a
    by_test false = more-IsAskedFor u s.expressed _ a

IsAskedFor-IsKept : (u : Bytes) → IsKept (λ s. IsAskedFor u s.expressed)
IsAskedFor-IsKept u = record {
  expresses = express-IsAskedFor u;
  forgets = forget-IsAskedFor u;
  guesses = guess-IsAskedFor u;
}

forget-find :
    (name u : Bytes) (s : Ndn)
    → find u (forget_guess name s).guess_table ≡ true
    → find u s.guess_table ≡ true
unfolding forget_guess
forget-find name u s h = ground (arith, find-erase name u s.guess_table)

-- The name itself is asked for now, if it is not a guess already.
own-IsAskedFor :
    (name : Bytes) (s : Ndn) → GuessesAsked s → IsAskedFor name (guess_one name s).expressed
own-IsAskedFor name s g = rw (guess_one-expressed name s) (by_test (find name s.guess_table) refl)
  where
    by_test :
        (b : Bool)
        → find name s.guess_table ≡ b
        → IsAskedFor name (if b then s.expressed else s.expressed ++ tcp_request name ∷ [])
    by_test true e = g.guess name e
    by_test false e = last-IsAskedFor name s.expressed

new_or_old :
    (name u : Bytes) (s : Ndn)
    → find u (guess_one name s).guess_table ≡ true
    → (bytes_eq name u ≡ true) ⊎ (find u s.guess_table ≡ true)
new_or_old name u s h =
    split (bytes_eq name u) (find u s.guess_table)
      (sym (ap (find u) (guess_one-table name s) ∙ find-save_concurrence name u s.guess_table) ∙ h)
  where
    split : (a b : Bool) → (a || b) ≡ true → (a ≡ true) ⊎ (b ≡ true)
    split true b h = inl refl
    split false b h = inr h

guess-GuessesAsked : (name : Bytes) (s : Ndn) → GuessesAsked s → GuessesAsked (guess_one name s)
guess-GuessesAsked name s g = record {
  guess = λ u h. elim (new_or_old name u s h) [
    | inl same ↦ rw (sym (bytes_eq_sound name u same)) (own-IsAskedFor name s g)
    | inr old ↦ guess-IsAskedFor u name s (g.guess u old)
  ];
}

GuessesAsked-IsKept : IsKept GuessesAsked
unfolding express_interest
GuessesAsked-IsKept = record {
  expresses =
      λ name tcp s g. record { guess = λ u h. more-IsAskedFor u s.expressed _ (g.guess u h) };
  forgets = λ name s g. record {
    guess = λ u h. forget-IsAskedFor u name s (g.guess u (forget-find name u s h));
  };
  guesses = guess-GuessesAsked;
}

module _ (boost : Boost) where
  -- If every name in the guess table has been asked for, as data of a flow, then so it is after any
  -- incoming interest, whatever its name and its flags, and also where the handler throws or indexes
  -- out of range.
  pub on_interest-GuessesAsked :
      (name : Bytes) (is_pre is_tcp : Bool) (s : Ndn)
      → GuessesAsked s
      → GuessesAsked (on_interest boost name is_pre is_tcp s).1
  on_interest-GuessesAsked name is_pre is_tcp s =
      on_interest_keeps boost GuessesAsked name is_pre is_tcp s GuessesAsked-IsKept
