-- ===== src/Ndn/State.antt =====
-- The state of NDNHelper, what its handlers may end with, and the operations that only log a call.
use ip_ndn_stack_cpp.Prelude.{ℕ, List, [], ◌∷◌, ◌++◌, Bool, Option, none, some, get_elem?}
use ip_ndn_stack_cpp.Text.{Bytes}
use ip_ndn_stack_cpp.Word.{inc_int}
use ip_ndn_stack_cpp.GuessSet.{GuessSet}
use ip_ndn_stack_cpp.Tuple.{Memory, Tuple}

-- An expressed interest: its name, its lifetime in milliseconds, and the flags bound into its
-- callbacks. The face calls these while the lifetime lasts.
pub record Request : Type 0 where
  pub name : Bytes
  pub lifetime : ℕ
  pub is_pre : Bool
  pub is_tcp : Bool

-- A Data packet handed to the face: its name, and the pointer and the length that its content is
-- copied from. `none` is the null pointer.
pub record Publication : Type 0 where
  pub name : Bytes
  pub pkt : Option Memory
  pub size : ℕ

-- A datagram handed to the raw socket: its bytes and the address in network order.
pub record Datagram : Type 0 where
  pub buffer : Bytes
  pub address : ℕ

-- An interest filter set on the face, with the flags bound into its callback.
pub record Filter : Type 0 where
  pub prefix : Bytes
  pub pre : Bool
  pub tcp : Bool

-- Logs are oldest first. `interest_packet_num` is an int, by its pattern.
pub record Ndn : Type 0 where
  pub register_ip : List Bytes
  pub filters : List Filter
  pub expressed : List Request
  pub published : List Publication
  pub sent : List Datagram
  pub guess_table : GuessSet
  pub interest_packet_num : ℕ

pub data Exception : Type 0 where
  bad_lexical_cast : Exception

-- A handler returns, throws, or indexes a vector out of its range, which is undefined.
pub data Outcome {ℓ} (A : Type ℓ) : Type ℓ where
  returns : A → Outcome A
  throws : Exception → Outcome A
  out_of_range : Outcome A

abbrev pub M : Type 0 → Type 0
M A = Ndn → Outcome A × Ndn

abbrev pub continue : {A B : Type 0} → (A → M B) → Outcome A × Ndn → Outcome B × Ndn
continue f (returns a, s) = f a s
continue f (throws e, s) = (throws e, s)
continue f (out_of_range, s) = (out_of_range, s)

infixl 5 ◌>>=◌ ◌>>◌
unfoldable pub ◌>>=◌ : {A B : Type 0} → M A → (A → M B) → M B
◌>>=◌ m f s = continue f (m s)

abbrev pub ◌>>◌ : {B : Type 0} → M (Unit {0}) → M B → M B
m >> k = m >>= λ _. k

unfoldable pub pure : {A : Type 0} → A → M A
pure a s = (returns a, s)

unfoldable pub update : (Ndn → Ndn) → M (Unit {0})
update f s = (returns tt, f s)

unfoldable pub from_field : {A : Type 0} → Option A → M A
from_field none s = (out_of_range, s)
from_field (some a) s = (returns a, s)

-- `fields[i]` of a std::vector.
abbrev pub at : List Bytes → ℕ → M Bytes
at fields i = from_field (get_elem? fields i)

unfoldable pub cast_result : Option ℕ → M ℕ
cast_result none s = (throws bad_lexical_cast, s)
cast_result (some n) s = (returns n, s)

-- The two seconds of expressInterest.
abbrev pub interest_lifetime : ℕ
interest_lifetime = 2000

-- NDNHelper::expressInterest.
unfoldable pub express_interest : Bytes → Bool → Bool → Ndn → Ndn
express_interest name is_pre is_tcp s = record s {
  expressed =
      s.expressed
      ++ record { name = name; is_pre = is_pre; is_tcp = is_tcp; lifetime = interest_lifetime }
        ∷ [];
  interest_packet_num = inc_int s.interest_packet_num;
}

-- NDNHelper::putData and NDNHelper::putDataToCache: they differ in the length that they copy. What
-- ndn-cxx does with a null pointer and a length is its own; here the call is logged.
unfoldable pub put_data : Bytes → Tuple → Ndn → Ndn
put_data name t s = record s {
  published = s.published ++ record { name = name; pkt = t.pkt; size = t.size } ∷ [];
}

unfoldable pub put_data_to_cache : Bytes → Tuple → Ndn → Ndn
put_data_to_cache interest_name t s = record s {
  published = s.published ++ record { name = interest_name; pkt = t.pkt; size = t.ip_size } ∷ [];
}
