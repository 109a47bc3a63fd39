-- ===== src/Capture/Fresh.antt =====
-- Histories of captured packets: under which names they are published, and that no two packets of
-- flows share a name.
use ip_ndn_stack_cpp.Prelude.{
  ℕ, ◌+◌, ◌-◌, ◌<◌, ◌≤◌, ◌≡◌, refl, sym, ap, ◌∙◌, ◌⊎◌, inl, inr, List, [], ◌∷◌, ◌++◌, map,
  append-nil, append_assoc, map-append, true, false, bytes_eq, bytes_eq_self, bytes_eq_sound,
  if◌then◌else◌, arith, All, length, Bool-cases,
}
use ip_ndn_stack_cpp.Text.{Bytes}
use ip_ndn_stack_cpp.Word.{int_limit, u32_mod}
use ip_ndn_stack_cpp.Tuple.{Tuple}
use ip_ndn_stack_cpp.Naming.Injective.{
  Flow, IsFlow, flow_key, flow_data_name, flow_data_name-injective,
}
use ip_ndn_stack_cpp.Table.{lookup}
use ip_ndn_stack_cpp.Ndn.State.{Ndn, Publication, express_interest, put_data_to_cache}
use ip_ndn_stack_cpp.Ndn.Rounds.{AllDiffer}
use ip_ndn_stack_cpp.Capture.{Host, publish, deal_other, deal, tuple_name}
use ip_ndn_stack_cpp.Capture.Numbering.{
  flow_of, is_flow, count, count-le, Counts, next_number-count, deal-flow, deal-Counts,
}

-- Dealing with packets in order, each with the uuid that it would get.
unfoldable pub deal_all : List (Bytes × Tuple) → Host → Host
deal_all [] h = h
deal_all ((uuid, t) ∷ ts) h = deal_all ts (deal uuid t h)

abbrev pub published_names : Host → List Bytes
published_names h = map (λ (p : Publication). p.name) h.ndn.published

-- The names of a history after flow packets with the keys `seen`: a packet of a flow gets one more
-- than the number of packets of its flow before it, any other its uuid.
unfoldable pub expected_names : List Bytes → List (Bytes × Tuple) → List Bytes
expected_names seen [] = []
expected_names seen ((uuid, t) ∷ ts) =
    if is_flow t
    then flow_data_name (flow_of t) (count (flow_key (flow_of t)) seen + 1)
      ∷ expected_names (flow_key (flow_of t) ∷ seen) ts
    else tuple_name t 2 (u32_mod - 1) uuid ∷ expected_names seen ts

publish-names :
    (n p : Bytes) (t : Tuple) (s : Ndn)
    → map (λ (q : Publication). q.name) (publish n p t s).published
      ≡ map (λ (q : Publication). q.name) s.published ++ n ∷ []
unfolding publish express_interest put_data_to_cache
publish-names n p t s = map-append (λ (q : Publication). q.name) s.published _

pub deal-other_lem :
    (uuid : Bytes) (t : Tuple) (h : Host) → is_flow t ≡ false → deal uuid t h ≡ deal_other uuid t h
unfolding deal
deal-other_lem uuid t h e = rw e

deal-other_Counts :
    (uuid : Bytes) (t : Tuple) (seen : List Bytes) (h : Host)
    → Counts seen h
    → Counts seen (deal_other uuid t h)
unfolding deal_other
deal-other_Counts uuid t seen h c = record { distinct = c.distinct; counted = c.counted }

deal-other_names :
    (uuid : Bytes) (t : Tuple) (h : Host)
    → published_names (deal_other uuid t h)
      ≡ published_names h ++ tuple_name t 2 (u32_mod - 1) uuid ∷ []
unfolding deal_other
deal-other_names uuid t h = publish-names _ _ t h.ndn

deal-flow_names :
    (uuid : Bytes) (t : Tuple) (seen : List Bytes) (h : Host)
    → Counts seen h
    → length seen < int_limit
    → is_flow t ≡ true
    → published_names (deal uuid t h)
      ≡ published_names h ++ flow_data_name (flow_of t) (count (flow_key (flow_of t)) seen + 1) ∷ []
deal-flow_names uuid t seen h c lt e =
    ap published_names (deal-flow uuid t h c.distinct e)
    ∙ publish-names _ _ _ h.ndn
    ∙ ap (λ n. published_names h ++ flow_data_name (flow_of t) n ∷ [])
        (next_number-count seen t h c lt)

-- A history of packets publishes one name for each, in order: a packet of a flow under the number of
-- its flow's packets so far and itself, any other under its uuid. The table counts the packets of
-- flows with the keys `seen` before, and these and the history are fewer than 2^31 together.
pub deal_all-names :
    (seen : List Bytes) (ts : List (Bytes × Tuple)) (h : Host)
    → Counts seen h
    → length seen + length ts < int_limit
    → published_names (deal_all ts h) ≡ published_names h ++ expected_names seen ts
unfolding deal_all expected_names
deal_all-names seen [] h c lt = sym (append-nil (published_names h))
deal_all-names seen ((uuid, t) ∷ ts) h c lt = elim (Bool-cases (is_flow t)) [
  | inl e ↦ rw e (
      deal_all-names (flow_key (flow_of t) ∷ seen) ts (deal uuid t h)
        (deal-Counts uuid t seen h c (omega arith) e) (omega arith)
      ∙ ap (λ l. l ++ expected_names (flow_key (flow_of t) ∷ seen) ts)
          (deal-flow_names uuid t seen h c (omega arith) e)
      ∙ append_assoc (published_names h) _ (expected_names (flow_key (flow_of t) ∷ seen) ts))
  | inr e ↦ rw e (
      ap (λ x. published_names (deal_all ts x)) (deal-other_lem uuid t h e)
      ∙ deal_all-names seen ts (deal_other uuid t h) (deal-other_Counts uuid t seen h c)
          (omega arith)
      ∙ ap (λ l. l ++ expected_names seen ts) (deal-other_names uuid t h)
      ∙ append_assoc (published_names h) _ (expected_names seen ts))
]

-- A packet of a flow, whose fields hold what their C types hold.
abbrev pub IsFlowPacket : Bytes × Tuple → Type 0
IsFlowPacket (uuid, t) = (is_flow t ≡ true) × IsFlow (flow_of t)

count-grows : (k x : Bytes) (xs : List Bytes) → count k xs ≤ count k (x ∷ xs)
unfolding count
count-grows k x xs = ground arith

count_self : (k : Bytes) (xs : List Bytes) → count k (k ∷ xs) ≡ count k xs + 1
unfolding count
count_self k xs = rw (bytes_eq_self k) (omega arith)

later_differ :
    (f : Flow) (n : ℕ) (seen : List Bytes) (ts : List (Bytes × Tuple))
    → IsFlow f
    → n ≤ count (flow_key f) seen
    → length seen + length ts < int_limit
    → All IsFlowPacket ts
    → All (λ y. bytes_eq (flow_data_name f n) y ≡ false) (expected_names seen ts)
unfolding expected_names
later_differ f n seen [] hf le lt a = tt
later_differ f n seen ((uuid, t) ∷ ts) hf le lt ((e, ht), a) = rw e (
  distinct_name (Bool-cases (bytes_eq (flow_data_name f n) (flow_data_name g m))),
  later_differ f n (flow_key g ∷ seen) ts hf
      (omega (arith, count-grows (flow_key f) (flow_key g) seen)) (omega arith) a,
)
  where
    g : Flow
    g = flow_of t

    m : ℕ
    m = count (flow_key g) seen + 1

    distinct_name :
        (bytes_eq (flow_data_name f n) (flow_data_name g m) ≡ true)
          ⊎ (bytes_eq (flow_data_name f n) (flow_data_name g m) ≡ false)
        → bytes_eq (flow_data_name f n) (flow_data_name g m) ≡ false
    distinct_name (inr differ) = differ
    distinct_name (inl same) =
        let (flows, numbers) =
          flow_data_name-injective f g n m hf ht (omega (arith, count-le (flow_key f) seen))
            (omega (arith, count-le (flow_key g) seen)) (bytes_eq_sound _ _ same) in
        absurd (omega (arith, numbers, ap (λ x. count (flow_key x) seen) flows))

expected_names-AllDiffer :
    (seen : List Bytes) (ts : List (Bytes × Tuple))
    → length seen + length ts < int_limit
    → All IsFlowPacket ts
    → AllDiffer (expected_names seen ts)
unfolding expected_names
expected_names-AllDiffer seen [] lt a = tt
expected_names-AllDiffer seen ((uuid, t) ∷ ts) lt ((e, ht), a) = rw e (
  later_differ (flow_of t) (count (flow_key (flow_of t)) seen + 1) (flow_key (flow_of t) ∷ seen) ts
      ht (omega (arith, count_self (flow_key (flow_of t)) seen)) (omega arith) a,
  expected_names-AllDiffer (flow_key (flow_of t) ∷ seen) ts (omega arith) a,
)

-- No packet of a flow is counted in an empty table.
pub empty-Counts : (h : Host) → h.sequence_table ≡ [] → Counts [] h
unfolding lookup count
empty-Counts h e = record { distinct = rw e tt; counted = λ k. rw e refl }

-- From an empty sequence table and nothing published yet, a history of fewer than 2^31 packets of
-- flows, whose addresses and ports fit their fields, publishes names that all differ from one another.
pub deal_all-AllDiffer :
    (ts : List (Bytes × Tuple)) (h : Host)
    → h.sequence_table ≡ []
    → h.ndn.published ≡ []
    → length ts < int_limit
    → All IsFlowPacket ts
    → AllDiffer (published_names (deal_all ts h))
deal_all-AllDiffer ts h e p lt a =
    rw (deal_all-names [] ts h (empty-Counts h e) (omega arith), p)
      (expected_names-AllDiffer [] ts (omega arith) a)
