-- ===== src/GuessSet.antt =====
-- SetHelper<string> (helper/SetHelper.h): a set under a lock. The std::set inside is a list of its
-- members; its order is never observed. `saveConcurrence` and `save` differ in the lock alone.
pub mod Laws
use ip_ndn_stack_cpp.Prelude.{Bool, true, false, ◌||◌, List, [], ◌∷◌, bytes_eq, if◌then◌else◌}
use ip_ndn_stack_cpp.Text.{Bytes}

abbrev pub GuessSet : Type 0
GuessSet = List Bytes

-- Whether `t` is a member.
unfoldable pub find : Bytes → GuessSet → Bool
find t [] = false
find t (x ∷ s) = bytes_eq x t || find t s

-- The set with `t` in it, and whether it was not there before.
unfoldable pub save : Bytes → GuessSet → GuessSet × Bool
save t s = if find t s then (s, false) else (t ∷ s, true)

unfoldable pub save_concurrence : Bytes → GuessSet → GuessSet × Bool
save_concurrence t s = if find t s then (s, false) else (t ∷ s, true)

remove : Bytes → GuessSet → GuessSet
remove t [] = []
remove t (x ∷ s) = let rest = remove t s in if bytes_eq x t then rest else x ∷ rest

-- The answer is `true` whether or not a member went.
unfoldable pub erase : Bytes → GuessSet → GuessSet × Bool
unfolding remove
erase t s = (remove t s, true)
