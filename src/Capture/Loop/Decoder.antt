-- ===== src/Capture/Loop/Decoder.antt =====
-- Dealing with tuples (helper/LibPcapHelper.cpp) and the globals of the decoder.
use ip_ndn_stack_cpp.Prelude.{
  ℕ, ◌≡◌, refl, ap, ◌∙◌, List, [], ◌∷◌, Bool, true, false, Option, none, some, ltb, Bool-cases, inl,
  inr, if◌then◌else◌,
}
use ip_ndn_stack_cpp.Text.{Bytes}
use ip_ndn_stack_cpp.Tuple.{Tuple}
use ip_ndn_stack_cpp.Packet.Stat.{Globals}
use ip_ndn_stack_cpp.Capture.{
  Host, deal, deal_first, deal_next, deal_other, announce_next, deal_read,
}
use ip_ndn_stack_cpp.Naming.Injective.{flow_key}
use ip_ndn_stack_cpp.Table.{Table, get, save}
use ip_ndn_stack_cpp.Capture.Numbering.{flow_of, is_flow}
use ip_ndn_stack_cpp.Capture.Fresh.{deal_all}
use ip_ndn_stack_cpp.Capture.Loop.{kept_packet}

abbrev pub with_globals : Globals → Host → Host
with_globals g h = record h { globals = g }

announce_next-globals :
    (t : Tuple) (m : Table ℕ) (o : Option ℕ) (success : Bool) (h : Host) (g : Globals)
    → announce_next t m o success (with_globals g h)
      ≡ with_globals g (announce_next t m o success h)
unfolding announce_next
announce_next-globals t m none success h g = refl
announce_next-globals t m (some n) true h g = refl
announce_next-globals t m (some n) false h g = refl

if-globals :
    (b : Bool) (x y : Host) (g : Globals)
    → (if b then with_globals g x else with_globals g y) ≡ with_globals g (if b then x else y)
if-globals true x y g = refl
if-globals false x y g = refl

-- Dealing with a tuple neither reads nor changes the globals of the decoder.
deal-globals :
    (uuid : Bytes) (t : Tuple) (h : Host) (g : Globals)
    → deal uuid t (with_globals g h) ≡ with_globals g (deal uuid t h)
unfolding deal deal_first deal_next deal_other
deal-globals uuid t h g = elim (Bool-cases (is_flow t)) [
  | inr other ↦ rw other refl
  | inl flow ↦
      let key = flow_key (flow_of t) in
      elim (Bool-cases (get 0 key h.sequence_table).1) [
        | inl old ↦ rw (flow, old) (announce_next-globals t _ _ _ h g)
        | inr new ↦ rw (flow, new) (if-globals (save key 1 h.sequence_table).1 _ _ g)
      ]
]

pub deal_all-globals :
    (ts : List (Bytes × Tuple)) (h : Host) (g : Globals)
    → deal_all ts (with_globals g h) ≡ with_globals g (deal_all ts h)
unfolding deal_all
deal_all-globals [] h g = refl
deal_all-globals ((uuid, t) ∷ ts) h g =
    ap (deal_all ts) (deal-globals uuid t h g) ∙ deal_all-globals ts (deal uuid t h) g

pub deal_read-globals :
    (uuid : Bytes) (o : Option Tuple) (h : Host) (g : Globals)
    → deal_read uuid o (with_globals g h) ≡ with_globals g (deal_read uuid o h)
unfolding deal_read
deal_read-globals uuid none h g = refl
deal_read-globals uuid (some t) h g = elim (Bool-cases (ltb t.ip_size 8600)) [
  | inl small ↦ rw small (deal-globals uuid t h g)
  | inr large ↦ rw large refl
]

pub deal_read-kept :
    (uuid : Bytes) (o : Option Tuple) (h : Host) (rest : List (Bytes × Tuple))
    → deal_all (kept_packet uuid o rest) h ≡ deal_all rest (deal_read uuid o h)
unfolding deal_read kept_packet deal_all
deal_read-kept uuid none h rest = refl
deal_read-kept uuid (some t) h rest = elim (Bool-cases (ltb t.ip_size 8600)) [
  | inl small ↦ rw small refl
  | inr large ↦ rw large refl
]
