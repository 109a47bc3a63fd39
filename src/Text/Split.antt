-- ===== src/Text/Split.antt =====
-- A reference for cutting a text at every separator, and that it undoes `join`. It serves to prove
-- that names determine their parts, and as the concrete function behind the interface of `Boost`.
use ip_ndn_stack_cpp.Prelude.{
  ℕ, ◌≡◌, ap, ◌∙◌, sym, refl, List, [], ◌∷◌, ◌++◌, append-nil, append_assoc, arith, ◌==◌, All,
  if◌then◌else◌,
}
use ip_ndn_stack_cpp.Text.{Bytes, Lacks, join}

-- The text `cur` is read and not yet cut off.
cut : ℕ → Bytes → Bytes → List Bytes
cut sep cur [] = cur ∷ []
cut sep cur (c ∷ s) =
    let here = cur ∷ cut sep [] s in
    let on = cut sep (cur ++ c ∷ []) s in if c == sep then here else on

unfoldable pub split : Bytes → ℕ → List Bytes
unfolding cut
split s sep = cut sep [] s

cut-append :
    (sep : ℕ) (cur p rest : Bytes) → Lacks sep p → cut sep cur (p ++ rest) ≡ cut sep (cur ++ p) rest
unfolding cut
cut-append sep cur [] rest h = rw append-nil
cut-append sep cur (c ∷ p) rest h =
    ground (arith, cut-append sep (cur ++ c ∷ []) p rest, append_assoc cur (c ∷ []) p)

cut_at : (sep : ℕ) (cur s : Bytes) → cut sep cur (sep ∷ s) ≡ cur ∷ cut sep [] s
unfolding cut
cut_at sep cur s = ground arith

-- What stands before a separator is cut off.
pub split-line :
    (sep : ℕ) (p s : Bytes) → Lacks sep p → split (p ++ (sep ∷ s)) sep ≡ p ∷ split s sep
unfolding split
split-line sep p s h = cut-append sep [] p (sep ∷ s) h ∙ cut_at sep p s

pub split-whole : (sep : ℕ) (p : Bytes) → Lacks sep p → split p sep ≡ p ∷ []
unfolding split
split-whole sep p h =
    ap (cut sep []) (sym (append-nil p)) ∙ cut-append sep [] p [] h ∙ unfold cut in refl

pub split-join :
    (sep : ℕ) (p : Bytes) (ps : List Bytes)
    → All (Lacks sep) (p ∷ ps)
    → split (join sep p ps) sep ≡ p ∷ ps
split-join sep p [] (hp, _) = split-whole sep p hp
split-join sep p (q ∷ qs) (hp, hs) =
    split-line sep p (join sep q qs) hp ∙ ap (◌∷◌ p) (split-join sep q qs hs)

-- A joined text determines its parts.
pub join-injective :
    (sep : ℕ) (p q : Bytes) (ps qs : List Bytes)
    → All (Lacks sep) (p ∷ ps)
    → All (Lacks sep) (q ∷ qs)
    → join sep p ps ≡ join sep q qs
    → ◌≡◌ {A = List Bytes} (p ∷ ps) (q ∷ qs)
join-injective sep p q ps qs hp hq e =
    sym (split-join sep p ps hp) ∙ ap (λ s. split s sep) e ∙ split-join sep q qs hq
