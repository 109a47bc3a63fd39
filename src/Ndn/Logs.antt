-- ===== src/Ndn/Logs.antt =====
-- The logs only grow, and the counter of interests counts them: for every name, on every branch of
-- the handler of interests, also where it throws or indexes out of range.
use ip_ndn_stack_cpp.Prelude.{
  ◌+◌, ◌%◌, ◌≡◌, refl, sym, ap, ◌∙◌, List, [], ◌∷◌, ◌++◌, append-nil, append_assoc, Bool, true,
  false, arith, length, length-append, Bool-cases, inl, inr,
}
use ip_ndn_stack_cpp.Text.{Bytes}
use ip_ndn_stack_cpp.Word.{u32_mod, inc_int}
use ip_ndn_stack_cpp.Boost.{Boost}
use ip_ndn_stack_cpp.GuessSet
use ip_ndn_stack_cpp.Ndn.State.{interest_lifetime, Ndn, Request, express_interest}
use ip_ndn_stack_cpp.Ndn.Keeps.{IsKept, on_interest_keeps}
use ip_ndn_stack_cpp.Ndn.Handlers.{guess_one, forget_guess, on_interest}

-- `s'` comes after `s` by asking for `new`, and by changes of the guess table.
pub record Asks (s s' : Ndn) : Type 0 where
  pub new : List Request
  pub expressed : s'.expressed ≡ s.expressed ++ new
  pub counted : s'.interest_packet_num % u32_mod ≡ (s.interest_packet_num + length new) % u32_mod
  pub published : s'.published ≡ s.published
  pub sent : s'.sent ≡ s.sent
  pub filters : s'.filters ≡ s.filters
  pub register_ip : s'.register_ip ≡ s.register_ip

Asks-refl : (s : Ndn) → Asks s s
Asks-refl s = record {
  new = [];
  expressed = sym (append-nil s.expressed);
  counted = omega arith;
  published = refl;
  sent = refl;
  filters = refl;
  register_ip = refl;
}

Asks-trans : {s t u : Ndn} → Asks s t → Asks t u → Asks s u
Asks-trans {s} a b = record {
  new = a.new ++ b.new;
  expressed = b.expressed ∙ ap (λ l. l ++ b.new) a.expressed ∙ append_assoc s.expressed a.new b.new;
  counted = omega (arith, a.counted, b.counted, length-append a.new b.new);
  published = b.published ∙ a.published;
  sent = b.sent ∙ a.sent;
  filters = b.filters ∙ a.filters;
  register_ip = b.register_ip ∙ a.register_ip;
}

express-Asks :
    (name : Bytes) (is_pre is_tcp : Bool) (s : Ndn) → Asks s (express_interest name is_pre is_tcp s)
unfolding express_interest inc_int
express-Asks name is_pre is_tcp s = record {
  new = record { name = name; is_pre = is_pre; is_tcp = is_tcp; lifetime = interest_lifetime } ∷ [];
  expressed = refl;
  counted = omega arith;
  published = refl;
  sent = refl;
  filters = refl;
  register_ip = refl;
}

table-Asks : (t : GuessSet.GuessSet) (s : Ndn) → Asks s (record s { guess_table = t })
table-Asks t s = record {
  new = [];
  expressed = sym (append-nil s.expressed);
  counted = omega arith;
  published = refl;
  sent = refl;
  filters = refl;
  register_ip = refl;
}

forget-Asks : (name : Bytes) (s : Ndn) → Asks s (forget_guess name s)
unfolding forget_guess
forget-Asks name s = elim (Bool-cases (GuessSet.find name s.guess_table)) [
  | inl there ↦ rw there (table-Asks _ s)
  | inr gone ↦ rw gone (Asks-refl s)
]

guess_one-Asks : (name : Bytes) (s : Ndn) → Asks s (guess_one name s)
unfolding guess_one
guess_one-Asks name s = elim (Bool-cases (GuessSet.save_concurrence name s.guess_table).1) [
  | inl fresh ↦ rw fresh (Asks-trans (table-Asks _ s) (express-Asks name false true _))
  | inr old ↦ rw old (table-Asks _ s)
]

-- What came after a state still comes after it, whichever operation the handler calls.
after-IsKept : (s : Ndn) → IsKept (Asks s)
after-IsKept s = record {
  expresses = λ name tcp t h. Asks-trans h (express-Asks name false tcp t);
  forgets = λ name t h. Asks-trans h (forget-Asks name t);
  guesses = λ name t h. Asks-trans h (guess_one-Asks name t);
}

module _ (boost : Boost) where
  -- Whatever the name and the flags of an incoming interest, and also where the handler throws or
  -- indexes out of range: it only adds interests and changes the guess table, and the counter has
  -- grown by the number of interests added, modulo 2^32.
  pub on_interest-Asks :
      (name : Bytes) (is_pre is_tcp : Bool) (s : Ndn)
      → Asks s (on_interest boost name is_pre is_tcp s).1
  on_interest-Asks name is_pre is_tcp s =
      on_interest_keeps boost (Asks s) name is_pre is_tcp s (after-IsKept s) (Asks-refl s)
