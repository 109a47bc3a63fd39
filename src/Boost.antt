-- ===== src/Boost.antt =====
-- The two functions of Boost that NDNHelper.cpp calls on names, boost::split with is_any_of on one
-- separator and boost::lexical_cast<int>, as an interface: the functions, and what their
-- documentation promises of them. The handlers take it as a parameter.
pub mod Reference
use ip_ndn_stack_cpp.Prelude.{ℕ, ◌<◌, ◌≤◌, ◌≡◌, List, [], ◌∷◌, Option, none, some, All}
use ip_ndn_stack_cpp.Text.{Bytes, Lacks, join, to_string}
use ip_ndn_stack_cpp.Word.{u32_mod, int_limit, int_to_string}

pub record Boost : Type 0 where
  pub split : Bytes → ℕ → List Bytes
  -- `none` stands for the exception bad_lexical_cast.
  pub lexical_cast : Bytes → Option ℕ
  -- Every separator ends a part, empty parts included (token_compress_off).
  pub split-join :
      (sep : ℕ) (p : Bytes) (ps : List Bytes)
      → All (Lacks sep) (p ∷ ps)
      → split (join sep p ps) sep ≡ p ∷ ps
  -- The text of an int is read back.
  pub lexical_cast-int_to_string : (w : ℕ) → w < u32_mod → lexical_cast (int_to_string w) ≡ some w
  -- A number too large for an int is not read.
  pub lexical_cast-past_int : (n : ℕ) → int_limit ≤ n → lexical_cast (to_string n) ≡ none
  -- Nothing is read from the empty text.
  pub lexical_cast-nil : lexical_cast [] ≡ none
