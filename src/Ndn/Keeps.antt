-- ===== src/Ndn/Keeps.antt =====
-- What every handler of NDNHelper (helper/NDNHelper.cpp) keeps: whatever the operations that it calls
-- keep, on every branch, also where it throws or indexes out of range.
use ip_ndn_stack_cpp.Prelude.{ℕ, ◌∷◌, [], ◌++◌, Bool, true, false, Option, none, some, zero, suc}
use ip_ndn_stack_cpp.Text.{Bytes}
use ip_ndn_stack_cpp.Word.{inc_int, int_to_string}
use ip_ndn_stack_cpp.Boost.{Boost}
use ip_ndn_stack_cpp.Ndn.State.{
  Ndn, Datagram, M, Outcome, returns, throws, out_of_range, ◌>>=◌, pure, continue, update,
  from_field, cast_result, express_interest,
}
use ip_ndn_stack_cpp.Ndn.Handlers.{
  Sockets, guess_one, guess_rounds, forget_guess, num_of_guest, deal_on_tcp_pre, deal_on_other_pre,
  deal_on_interest, on_interest, send_packet_to, deal_on_data, on_data,
}

-- `P` is kept by the operations that the handler of interests calls.
pub record IsKept (P : Ndn → Type 0) : Type 0 where
  pub expresses :
      (name : Bytes) (tcp : Bool) (s : Ndn) → P s → P (express_interest name false tcp s)
  pub forgets : (name : Bytes) (s : Ndn) → P s → P (forget_guess name s)
  pub guesses : (name : Bytes) (s : Ndn) → P s → P (guess_one name s)

record Keeps {A : Type 0} (P : Ndn → Type 0) (m : M A) : Type 0 where
  run : (s : Ndn) → P s → P (m s).1

module _ {P : Ndn → Type 0} where
  continue-Keeps :
      {A B : Type 0} (f : A → M B) (r : Outcome A × Ndn)
      → P r.1
      → ((a : A) → Keeps P (f a))
      → P (continue f r).1
  continue-Keeps f (returns a, t) h hf = (hf a).run t h
  continue-Keeps f (throws e, t) h hf = h
  continue-Keeps f (out_of_range, t) h hf = h

  >>=-Keeps :
      {A B : Type 0} {m : M A} {f : A → M B}
      → Keeps P m
      → ((a : A) → Keeps P (f a))
      → Keeps P (m >>= f)
  unfolding ◌>>=◌
  >>=-Keeps {m = m} {f = f} hm hf = record { run = λ s h. continue-Keeps f (m s) (hm.run s h) hf }

  field-Keeps : {A : Type 0} (o : Option A) → Keeps P (from_field o)
  unfolding from_field
  field-Keeps none = record { run = λ s h. h }
  field-Keeps (some a) = record { run = λ s h. h }

  cast-Keeps : (o : Option ℕ) → Keeps P (cast_result o)
  unfolding cast_result
  cast-Keeps none = record { run = λ s h. h }
  cast-Keeps (some n) = record { run = λ s h. h }

  update-Keeps : (f : Ndn → Ndn) → ((s : Ndn) → P s → P (f s)) → Keeps P (update f)
  unfolding update
  update-Keeps f h = record { run = h }

  guess_rounds-keeps :
      IsKept P → (g : Bytes) (rounds num : ℕ) (s : Ndn) → P s → P (guess_rounds g rounds num s)
  unfolding guess_rounds
  guess_rounds-keeps k g zero num s h = h
  guess_rounds-keeps k g (suc rounds) num s h =
      guess_rounds-keeps k g rounds (inc_int num) (guess_one (g ++ int_to_string (inc_int num)) s)
        (k.guesses (g ++ int_to_string (inc_int num)) s h)

module _ (boost : Boost) (P : Ndn → Type 0) where
  tcp_pre-Keeps : IsKept P → (name : Bytes) → Keeps P (deal_on_tcp_pre boost name)
  unfolding deal_on_tcp_pre
  tcp_pre-Keeps k name = >>=-Keeps (field-Keeps _) λ sip. >>=-Keeps (field-Keeps _) λ dip.
      >>=-Keeps (field-Keeps _) λ uid. >>=-Keeps (update-Keeps _ (k.expresses _ true)) λ _.
        >>=-Keeps (update-Keeps _ (k.forgets _)) λ _. >>=-Keeps (field-Keeps _) λ text.
          >>=-Keeps (cast-Keeps _) λ num. >>=-Keeps (field-Keeps _) λ first.
            >>=-Keeps (field-Keeps _)
              λ second. update-Keeps _ (guess_rounds-keeps k _ num_of_guest num)

  other_pre-Keeps : IsKept P → (name : Bytes) → Keeps P (deal_on_other_pre boost name)
  unfolding deal_on_other_pre
  other_pre-Keeps k name = >>=-Keeps (field-Keeps _) λ sip.
      >>=-Keeps (field-Keeps _)
        λ dip. >>=-Keeps (field-Keeps _) λ uid. update-Keeps _ (k.expresses _ false)

  pub on_interest_keeps :
      (name : Bytes) (is_pre is_tcp : Bool) (s : Ndn)
      → IsKept P
      → P s
      → P (on_interest boost name is_pre is_tcp s).1
  unfolding on_interest deal_on_interest pure
  on_interest_keeps name true true s k h = (tcp_pre-Keeps k name).run s h
  on_interest_keeps name true false s k h = (other_pre-Keeps k name).run s h
  on_interest_keeps name false is_tcp s k h = h

  -- The handler of data only sends.
  pub on_data_keeps :
      (sockets : Sockets) (name content : Bytes) (is_pre is_tcp : Bool) (s : Ndn)
      → ((d : Datagram) (t : Ndn) → P t → P (record t { sent = t.sent ++ d ∷ [] }))
      → P s
      → P (on_data sockets boost name content is_pre is_tcp s).1
  unfolding on_data deal_on_data send_packet_to pure
  on_data_keeps sockets name content true is_tcp s k h = h
  on_data_keeps sockets name content false is_tcp s k h =
      (>>=-Keeps (field-Keeps _) λ ip. update-Keeps _ (k _)).run s h
