-- ===== src/Capture/Loop/Order.antt =====
-- The event loop of LibPcapHelper (helper/LibPcapHelper.cpp) and the filters that NDNHelper
-- (helper/NDNHelper.cpp) sets meanwhile do not touch each other.
use ip_ndn_stack_cpp.Prelude.{
  ℕ, ◌≡◌, refl, sym, ap, ◌∙◌, List, [], ◌∷◌, ◌++◌, Bool, true, false, Option, none, some,
  Bool-cases, inl, inr, if◌then◌else◌,
}
use ip_ndn_stack_cpp.Text.{Bytes}
use ip_ndn_stack_cpp.Tuple.{Tuple}
use ip_ndn_stack_cpp.Table.{Table, get, save}
use ip_ndn_stack_cpp.Ndn.State.{Ndn, Filter, put_data_to_cache, express_interest}
use ip_ndn_stack_cpp.Naming.Injective.{flow_key}
use ip_ndn_stack_cpp.Capture.{Host, deal, deal_first, deal_next, deal_other, announce_next, publish}
use ip_ndn_stack_cpp.Capture.Numbering.{flow_of, is_flow}
use ip_ndn_stack_cpp.Capture.Fresh.{deal_all}
use ip_ndn_stack_cpp.Capture.Loop.{
  Completion, Capturer, complete, start, before_error, no_error, captured, globals_after,
}
use ip_ndn_stack_cpp.Capture.Loop.Deals.{start-deals, start-stopped, start-next}

-- A host with other registered addresses and filters.
abbrev pub registered : List Bytes → List Filter → Host → Host
registered ips fs h = record h { ndn = record h.ndn { register_ip = ips; filters = fs } }

publish-registered :
    (a b : Bytes) (t : Tuple) (s : Ndn) (ips : List Bytes) (fs : List Filter)
    → publish a b t (record s { register_ip = ips; filters = fs })
      ≡ record (publish a b t s) { register_ip = ips; filters = fs }
unfolding publish put_data_to_cache express_interest
publish-registered a b t s ips fs = refl

announce_next-registered :
    (t : Tuple) (m : Table ℕ) (o : Option ℕ) (success : Bool) (h : Host) (ips : List Bytes)
    (fs : List Filter)
    → announce_next t m o success (registered ips fs h)
      ≡ registered ips fs (announce_next t m o success h)
unfolding announce_next publish put_data_to_cache express_interest
announce_next-registered t m none success h ips fs = refl
announce_next-registered t m (some n) true h ips fs = refl
announce_next-registered t m (some n) false h ips fs = refl

if-registered :
    (b : Bool) (x y : Host) (ips : List Bytes) (fs : List Filter)
    → (if b then registered ips fs x else registered ips fs y)
      ≡ registered ips fs (if b then x else y)
if-registered true x y ips fs = refl
if-registered false x y ips fs = refl

deal-registered :
    (uuid : Bytes) (t : Tuple) (h : Host) (ips : List Bytes) (fs : List Filter)
    → deal uuid t (registered ips fs h) ≡ registered ips fs (deal uuid t h)
unfolding deal deal_first deal_next deal_other publish put_data_to_cache express_interest
deal-registered uuid t h ips fs = elim (Bool-cases (is_flow t)) [
  | inr other ↦ rw other refl
  | inl flow ↦
      let key = flow_key (flow_of t) in
      elim (Bool-cases (get 0 key h.sequence_table).1) [
        | inl old ↦ rw (flow, old) (announce_next-registered t _ _ _ h ips fs)
        | inr new ↦ rw (flow, new) (if-registered (save key 1 h.sequence_table).1 _ _ ips fs)
      ]
]

deal_all-registered :
    (ts : List (Bytes × Tuple)) (h : Host) (ips : List Bytes) (fs : List Filter)
    → deal_all ts (registered ips fs h) ≡ registered ips fs (deal_all ts h)
unfolding deal_all
deal_all-registered [] h ips fs = refl
deal_all-registered ((uuid, t) ∷ ts) h ips fs =
    ap (deal_all ts) (deal-registered uuid t h ips fs)
    ∙ deal_all-registered ts (deal uuid t h) ips fs

abbrev pub with_registered : List Bytes → List Filter → Capturer → Capturer
with_registered ips fs c = record c { host = registered ips fs c.host }

-- The service when dealing has left the host `h`.
after_dealing : List Completion → Capturer → Host → Capturer
after_dealing es c h = record c {
  host = record h { globals = globals_after (before_error es) c.host.globals };
  waiting = no_error es;
}

-- The service does the same whatever addresses and filters are registered, and leaves them.
pub start-registered :
    (es : List Completion) (c : Capturer) (ips : List Bytes) (fs : List Filter)
    → start es (with_registered ips fs c) ≡ with_registered ips fs (start es c)
unfolding after_dealing
start-registered es c ips fs = elim (Bool-cases c.waiting) [
  | inl waits ↦
      let ts = captured (before_error es) c.host.globals in
      start-deals es (with_registered ips fs c) waits
      ∙ ap (after_dealing es c) (deal_all-registered ts c.host ips fs)
      ∙ sym (ap (with_registered ips fs) (start-deals es c waits))
  | inr stopped ↦
      start-stopped es (with_registered ips fs c) stopped
      ∙ ap (with_registered ips fs) (sym (start-stopped es c stopped))
]

-- A service that stops for a while goes on where it was.
pub start-append :
    (es fs : List Completion) (c : Capturer) → start fs (start es c) ≡ start (es ++ fs) c
start-append [] fs c = unfold start in refl
start-append (e ∷ es) fs c = elim (Bool-cases c.waiting) [
  | inl waits ↦
      ap (start fs) (start-next e es c waits)
      ∙ start-append es fs (complete e c)
      ∙ sym (start-next e (es ++ fs) c waits)
  | inr stopped ↦
      ap (start fs) (start-stopped (e ∷ es) c stopped)
      ∙ start-stopped fs c stopped
      ∙ sym (start-stopped (e ∷ es ++ fs) c stopped)
]
