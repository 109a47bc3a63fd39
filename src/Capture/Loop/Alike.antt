-- ===== src/Capture/Loop/Alike.antt =====
-- What LibPcapHelper::deal (helper/LibPcapHelper.cpp) publishes depends on nothing that the handlers of
-- NDNHelper (helper/NDNHelper.cpp) change.
use ip_ndn_stack_cpp.Prelude.{
  ℕ, ◌≡◌, refl, ap, ap₂, ◌∙◌, Bool, true, false, Option, none, some, Bool-cases, inl, inr,
  if◌then◌else◌, ltb,
}
use ip_ndn_stack_cpp.Text.{Bytes}
use ip_ndn_stack_cpp.Tuple.{Tuple}
use ip_ndn_stack_cpp.Table.{Table, get, save}
use ip_ndn_stack_cpp.Ndn.State.{put_data_to_cache, express_interest}
use ip_ndn_stack_cpp.Naming.Injective.{flow_key}
use ip_ndn_stack_cpp.Capture.{
  Host, deal, deal_first, deal_next, deal_other, announce_next, publish, deal_read,
}
use ip_ndn_stack_cpp.Capture.Numbering.{flow_of, is_flow}

-- Hosts with the same sequence table that have published the same.
pub record IsAlike (h h' : Host) : Type 0 where
  pub table : h.sequence_table ≡ h'.sequence_table
  pub published : h.ndn.published ≡ h'.ndn.published

-- The host `h` with what another one keeps beside its table and its publications.
abbrev beside : Host → Host → Host
beside h h' = record h' {
  sequence_table = h.sequence_table;
  ndn = record h'.ndn { published = h.ndn.published };
}

announce_next-IsAlike :
    (t : Tuple) (m : Table ℕ) (o : Option ℕ) (success : Bool) (h h' : Host)
    → IsAlike (announce_next t m o success h) (announce_next t m o success (beside h h'))
unfolding announce_next publish put_data_to_cache express_interest
announce_next-IsAlike t m none success h h' = record { table = refl; published = refl }
announce_next-IsAlike t m (some n) true h h' = record { table = refl; published = refl }
announce_next-IsAlike t m (some n) false h h' = record { table = refl; published = refl }

if-IsAlike :
    (b : Bool) (x y x' y' : Host)
    → IsAlike x x'
    → IsAlike y y'
    → IsAlike (if b then x else y) (if b then x' else y')
if-IsAlike true x y x' y' hx hy = hx
if-IsAlike false x y x' y' hx hy = hy

deal-beside :
    (uuid : Bytes) (t : Tuple) (h h' : Host) → IsAlike (deal uuid t h) (deal uuid t (beside h h'))
unfolding deal deal_first deal_next deal_other publish put_data_to_cache express_interest
deal-beside uuid t h h' = elim (Bool-cases (is_flow t)) [
  | inr other ↦ rw other (record { table = refl; published = refl })
  | inl flow ↦
      let key = flow_key (flow_of t) in
      elim (Bool-cases (get 0 key h.sequence_table).1) [
        | inl old ↦ rw (flow, old) (announce_next-IsAlike t _ _ _ h h')
        | inr new ↦
            rw (flow, new)
              (if-IsAlike (save key 1 h.sequence_table).1 _ _ _ _
                (record { table = refl; published = refl })
                (record { table = refl; published = refl }))
      ]
]

deal-IsAlike :
    (uuid : Bytes) (t : Tuple) (h h' : Host)
    → IsAlike h h'
    → IsAlike (deal uuid t h) (deal uuid t h')
deal-IsAlike uuid t h h' a =
    let e : beside h h' ≡ h' =
      ap₂ (λ m p. record h' { sequence_table = m; ndn = record h'.ndn { published = p } }) a.table
        a.published in
    let b = deal-beside uuid t h h' in
    record {
      table = b.table ∙ ap (λ x. (deal uuid t x).sequence_table) e;
      published = b.published ∙ ap (λ x. (deal uuid t x).ndn.published) e;
    }

pub deal_read-IsAlike :
    (uuid : Bytes) (o : Option Tuple) (h h' : Host)
    → IsAlike h h'
    → IsAlike (deal_read uuid o h) (deal_read uuid o h')
unfolding deal_read
deal_read-IsAlike uuid none h h' a = a
deal_read-IsAlike uuid (some t) h h' a =
    if-IsAlike (ltb t.ip_size 8600) _ _ _ _ (deal-IsAlike uuid t h h' a) a

announce_next-sent :
    (t : Tuple) (m : Table ℕ) (o : Option ℕ) (success : Bool) (h : Host)
    → (announce_next t m o success h).ndn.sent ≡ h.ndn.sent
unfolding announce_next publish put_data_to_cache express_interest
announce_next-sent t m none success h = refl
announce_next-sent t m (some n) true h = refl
announce_next-sent t m (some n) false h = refl

if-sent :
    (b : Bool) (x y h : Host)
    → x.ndn.sent ≡ h.ndn.sent
    → y.ndn.sent ≡ h.ndn.sent
    → (if b then x else y).ndn.sent ≡ h.ndn.sent
if-sent true x y h hx hy = hx
if-sent false x y h hx hy = hy

deal-sent : (uuid : Bytes) (t : Tuple) (h : Host) → (deal uuid t h).ndn.sent ≡ h.ndn.sent
unfolding deal deal_first deal_next deal_other publish put_data_to_cache express_interest
deal-sent uuid t h =
    if-sent (is_flow t) _ _ h
      (if-sent (get 0 (flow_key (flow_of t)) h.sequence_table).1 _ _ h
        (announce_next-sent t _ _ _ h)
        (if-sent (save (flow_key (flow_of t)) 1 h.sequence_table).1 _ _ h refl refl))
      refl

-- Dealing with a tuple sends nothing to the raw socket.
pub deal_read-sent :
    (uuid : Bytes) (o : Option Tuple) (h : Host) → (deal_read uuid o h).ndn.sent ≡ h.ndn.sent
unfolding deal_read
deal_read-sent uuid none h = refl
deal_read-sent uuid (some t) h = if-sent (ltb t.ip_size 8600) _ _ h (deal-sent uuid t h) refl
