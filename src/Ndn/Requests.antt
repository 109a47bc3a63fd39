-- ===== src/Ndn/Requests.antt =====
-- What a pre-request makes the receiver ask for: exactly the name that the sender published the
-- packet under, and guesses at the names of the packets after it.
mod Parsing
unfoldable pub use Parsing.*
use ip_ndn_stack_cpp.Prelude.{
  ℕ, zero, suc, ◌+◌, ◌<◌, ◌≤◌, ◌≡◌, refl, List, [], ◌∷◌, ◌++◌, map, append_assoc, true, false, ◌||◌,
  ◌&&◌, not, bytes_eq, bytes_eq_sound, bytes_eq_iff, arith, All, Bool-cases, inl, inr,
}
use ip_ndn_stack_cpp.Text.{Bytes}
use ip_ndn_stack_cpp.Word.{int_limit}
use ip_ndn_stack_cpp.Boost.{Boost}
use ip_ndn_stack_cpp.Naming.Injective.{Flow, IsFlow, flow_data_name, flow_data_name-injective}
use ip_ndn_stack_cpp.GuessSet.{find}
use ip_ndn_stack_cpp.GuessSet.Laws.{find-erase}
use ip_ndn_stack_cpp.Ndn.State.{Ndn, returns, express_interest}
use ip_ndn_stack_cpp.Ndn.Handlers.{forget_guess, num_of_guest, deal_on_interest, on_interest}
use ip_ndn_stack_cpp.Ndn.Rounds.{
  names, guess_all, guess_rounds-guess_all, missing, tcp_request, AllDiffer, guess_all-expressed,
  guess_all-table,
}

abbrev guessed : Flow → ℕ → List Bytes
guessed f seq = names (flow_data_name f) num_of_guest seq

name-differs :
    (f : Flow) (m n : ℕ)
    → IsFlow f
    → m < n
    → n < int_limit
    → bytes_eq (flow_data_name f m) (flow_data_name f n) ≡ false
name-differs f m n hf lt h =
    elim (Bool-cases (bytes_eq (flow_data_name f m) (flow_data_name f n))) [
      | inr differ ↦ differ
      | inl same ↦ absurd (
          omega (
            arith,
            (flow_data_name-injective f f m n hf hf (omega arith) h (bytes_eq_sound _ _ same)).1,
          ))
    ]

names-Differs :
    (f : Flow) (m rounds num : ℕ)
    → IsFlow f
    → m ≤ num
    → num + rounds < int_limit
    → All (λ y. bytes_eq (flow_data_name f m) y ≡ false) (names (flow_data_name f) rounds num)
unfolding names
names-Differs f m zero num hf le h = tt
names-Differs f m (suc rounds) num hf le h = (
  name-differs f m (num + 1) hf (omega arith) (omega arith),
  names-Differs f m rounds (num + 1) hf (omega arith) (omega arith),
)

names-AllDiffer :
    (f : Flow) (rounds num : ℕ)
    → IsFlow f
    → num + rounds < int_limit
    → AllDiffer (names (flow_data_name f) rounds num)
unfolding names
names-AllDiffer f zero num hf h = tt
names-AllDiffer f (suc rounds) num hf h = (
  names-Differs f (num + 1) rounds (num + 1) hf (omega arith) (omega arith),
  names-AllDiffer f rounds (num + 1) hf (omega arith),
)

-- The state in which the guessing starts.
abbrev asked : Flow → ℕ → Ndn → Ndn
asked f seq s =
    forget_guess (flow_data_name f seq) (express_interest (flow_data_name f seq) false true s)

asked-expressed :
    (f : Flow) (seq : ℕ) (s : Ndn)
    → (asked f seq s).expressed ≡ s.expressed ++ tcp_request (flow_data_name f seq) ∷ []
unfolding forget_guess express_interest
asked-expressed f seq s = ground arith

asked-table :
    (u : Bytes) (f : Flow) (seq : ℕ) (s : Ndn)
    → find u (asked f seq s).guess_table
      ≡ (not (bytes_eq (flow_data_name f seq) u) && find u s.guess_table)
unfolding forget_guess express_interest
asked-table u f seq s = ground (
  arith,
  find-erase (flow_data_name f seq) u s.guess_table,
  bytes_eq_iff (flow_data_name f seq) u,
)

missing-asked :
    (f : Flow) (seq : ℕ) (s : Ndn) (ys : List Bytes)
    → All (λ y. bytes_eq (flow_data_name f seq) y ≡ false) ys
    → missing (asked f seq s).guess_table ys ≡ missing s.guess_table ys
unfolding missing
missing-asked f seq s [] h = refl
missing-asked f seq s (y ∷ ys) (d, h) = rw (asked-table y f seq s, d, missing-asked f seq s ys h)

module _ (boost : Boost) where
  on_tcp_pre-guess_all :
      (f : Flow) (seq : ℕ) (s : Ndn)
      → seq + num_of_guest < int_limit
      → on_interest boost (flow_pre_name f seq) true true s
        ≡ (returns tt, guess_all (guessed f seq) (asked f seq s))
  unfolding on_interest deal_on_interest
  on_tcp_pre-guess_all f seq s h = rw (
    tcp_pre_runs boost f seq s (omega arith),
    guess_rounds-guess_all (flow_data_name f) (guess_base f) (guess_base-name f) num_of_guest seq
        (asked f seq s) h,
  )

  -- The pre-request for a flow's packet number `seq` is answered by an interest for the name that
  -- this packet is published under, followed by one for each of the next 60 names that is not in the
  -- guess table yet, in order; the flow's addresses and ports fit their fields, and the 60 numbers
  -- fit an int.
  pub on_tcp_pre-expressed :
      (f : Flow) (seq : ℕ) (s : Ndn)
      → IsFlow f
      → seq + num_of_guest < int_limit
      → (on_interest boost (flow_pre_name f seq) true true s).1.expressed
        ≡ s.expressed
          ++ (tcp_request (flow_data_name f seq)
              ∷ map tcp_request (missing s.guess_table (names (flow_data_name f) num_of_guest seq)))
  on_tcp_pre-expressed f seq s hf h =
      rw
        (
          on_tcp_pre-guess_all f seq s h,
          guess_all-expressed (guessed f seq) (asked f seq s)
              (names-AllDiffer f num_of_guest seq hf h),
          missing-asked f seq s (guessed f seq)
              (names-Differs f seq num_of_guest seq hf (omega arith) h),
          asked-expressed f seq s,
        )
        (append_assoc s.expressed (tcp_request (flow_data_name f seq) ∷ [])
          (map tcp_request (missing s.guess_table (guessed f seq))))

  -- After the pre-request for a flow's packet number `seq` the guess table holds the names of the
  -- next 60 packets, and of the old guesses all but the name of the packet itself; the 60 numbers fit
  -- an int.
  pub on_tcp_pre-guess_table :
      (f : Flow) (seq : ℕ) (s : Ndn) (u : Bytes)
      → seq + num_of_guest < int_limit
      → find u (on_interest boost (flow_pre_name f seq) true true s).1.guess_table ≡ (
          find u (names (flow_data_name f) num_of_guest seq)
          || (not (bytes_eq (flow_data_name f seq) u) && find u s.guess_table))
  on_tcp_pre-guess_table f seq s u h = rw (
    on_tcp_pre-guess_all f seq s h,
    guess_all-table u (guessed f seq) (asked f seq s),
    asked-table u f seq s,
  )
