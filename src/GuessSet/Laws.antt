-- ===== src/GuessSet/Laws.antt =====
-- The set by its members.
use ip_ndn_stack_cpp.Prelude.{◌≡◌, refl, ◌||◌, ◌&&◌, not, [], ◌∷◌, bytes_eq, bytes_eq_iff, arith}
use ip_ndn_stack_cpp.Text.{Bytes}
use ip_ndn_stack_cpp.GuessSet.{GuessSet, find, save, save_concurrence, erase}

pub find-save_concurrence :
    (t u : Bytes) (s : GuessSet) → find u (save_concurrence t s).0 ≡ (bytes_eq t u || find u s)
unfolding save_concurrence find
find-save_concurrence t u s = ground (arith, bytes_eq_iff t u)

-- Both ways to save answer `true` exactly for a new member.
pub save_concurrence-result : (t : Bytes) (s : GuessSet) → (save_concurrence t s).1 ≡ not (find t s)
unfolding save_concurrence
save_concurrence-result t s = ground arith

pub save_concurrence-save : (t : Bytes) (s : GuessSet) → save_concurrence t s ≡ save t s
unfolding save_concurrence save
save_concurrence-save t s = refl

pub find-erase :
    (t u : Bytes) (s : GuessSet) → find u (erase t s).0 ≡ (not (bytes_eq t u) && find u s)
unfolding erase find
find-erase t u [] = ground arith
find-erase t u (x ∷ s) =
    ground (arith, find-erase t u s, bytes_eq_iff x t, bytes_eq_iff t u, bytes_eq_iff x u)
