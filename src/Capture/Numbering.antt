-- ===== src/Capture/Numbering.antt =====
-- How the packets of flows are numbered.
use ip_ndn_stack_cpp.Prelude.{
  ℕ, zero, suc, ◌+◌, ◌<◌, ◌≤◌, ◌≡◌, refl, ap, ◌∙◌, inl, inr, List, [], ◌∷◌, Bool, true, false, ◌||◌,
  Option, none, some, ◌==◌, bytes_eq, if◌then◌else◌, arith, length, Option-cases, Bool-cases,
  bytes_eq_sound,
}
use native.Mathlib.Numerals.{add-one}
use ip_ndn_stack_cpp.Text.{Bytes}
use ip_ndn_stack_cpp.Word.{inc_int, inc_int-lt, int_limit}
use ip_ndn_stack_cpp.Tuple.{Tuple}
use ip_ndn_stack_cpp.Naming.Injective.{Flow, flow_key, flow_data_name}
use ip_ndn_stack_cpp.Table.{Table, lookup}
use ip_ndn_stack_cpp.Table.Laws.{Distinct, save_new, get-none, get-some}
use ip_ndn_stack_cpp.Table.Sequence.{advanced, increase_found, lookup-advanced, advanced-Distinct}
use ip_ndn_stack_cpp.Ndn.Requests.{flow_pre_name}
use ip_ndn_stack_cpp.Packet.Decode.{ipproto_tcp, ipproto_udp}
use ip_ndn_stack_cpp.Capture.{Host, publish, deal_first, deal_next, deal}

abbrev pub flow_of : Tuple → Flow
flow_of t = record {
  src_ip = t.key.src_ip;
  dst_ip = t.key.dst_ip;
  src_port = t.key.src_port;
  dst_port = t.key.dst_port;
}

abbrev pub is_flow : Tuple → Bool
is_flow t = t.key.proto == ipproto_tcp || t.key.proto == ipproto_udp

-- The number that the next packet of a flow gets.
abbrev pub following : Option ℕ → ℕ
following none = 1
following (some v) = inc_int v

abbrev pub next_number : Tuple → Host → ℕ
next_number t h = following (lookup (flow_key (flow_of t)) h.sequence_table)

-- The table once that number is given out.
unfoldable pub numbered : Bytes → Option ℕ → Table ℕ → Table ℕ
numbered key none m = (key, 1) ∷ m
numbered key (some v) m = advanced key v m

-- A packet of a flow is published under its flow's next number, announced under the same number, and
-- the table remembers the number; the keys of the table are distinct.
pub deal-flow :
    (uuid : Bytes) (t : Tuple) (h : Host)
    → Distinct h.sequence_table
    → is_flow t ≡ true
    → deal uuid t h ≡ record h {
      ndn =
          publish
            (flow_data_name (flow_of t) (next_number t h))
            (flow_pre_name (flow_of t) (next_number t h))
            (record t { index = next_number t h })
            h.ndn;
      sequence_table =
          numbered
            (flow_key (flow_of t))
            (lookup (flow_key (flow_of t)) h.sequence_table)
            h.sequence_table;
    }
unfolding deal deal_first deal_next numbered
deal-flow uuid t h d e = elim (Option-cases (lookup (flow_key (flow_of t)) h.sequence_table)) [
  | inl new ↦ rw (
    e,
    get-none 0 (flow_key (flow_of t)) h.sequence_table new,
    new,
    save_new (flow_key (flow_of t)) 1 h.sequence_table new,
  )
  | inr (v, old) ↦ rw (
    e,
    get-some 0 (flow_key (flow_of t)) h.sequence_table old,
    old,
    increase_found (flow_key (flow_of t)) v h.sequence_table d old,
  )
]

-- How often a key stands in a list.
unfoldable pub count : Bytes → List Bytes → ℕ
count k [] = 0
count k (x ∷ xs) = if bytes_eq x k then suc (count k xs) else count k xs

pub count-le : (k : Bytes) (xs : List Bytes) → count k xs ≤ length xs
unfolding count
count-le k [] = omega arith
count-le k (x ∷ xs) = ground (arith, count-le k xs)

-- `seen` are the keys of the flow packets so far: the table holds, of each flow, how many.
pub record Counts (seen : List Bytes) (h : Host) : Type 0 where
  pub distinct : Distinct h.sequence_table
  pub counted :
      (k : Bytes)
      → lookup k h.sequence_table ≡ (if count k seen == 0 then none else some (count k seen))

==-zero : (n : ℕ) → (suc n == 0) ≡ false
==-zero n = ground arith

following-count : (n : ℕ) → n < int_limit → following (if n == 0 then none else some n) ≡ n + 1
following-count zero h = refl
following-count (suc n) h = rw ((==-zero n)) (inc_int-lt (suc n) (omega arith))

pub next_number-count :
    (seen : List Bytes) (t : Tuple) (h : Host)
    → Counts seen h
    → length seen < int_limit
    → next_number t h ≡ count (flow_key (flow_of t)) seen + 1
next_number-count seen t h c lt =
    ap following (c.counted (flow_key (flow_of t)))
    ∙ following-count (count (flow_key (flow_of t)) seen)
        (omega (arith, count-le (flow_key (flow_of t)) seen))

pub numbered-Distinct :
    (key : Bytes) (o : Option ℕ) (m : Table ℕ)
    → Distinct m
    → lookup key m ≡ o
    → Distinct (numbered key o m)
unfolding numbered
numbered-Distinct key none m d e = (e, d)
numbered-Distinct key (some v) m d e = advanced-Distinct key v m d

lookup-numbered :
    (key j : Bytes) (o : Option ℕ) (m : Table ℕ)
    → Distinct m
    → lookup key m ≡ o
    → lookup j (numbered key o m) ≡ (if bytes_eq key j then some (following o) else lookup j m)
unfolding numbered lookup
lookup-numbered key j none m d e = refl
lookup-numbered key j (some v) m d e = lookup-advanced key j v m d

pub deal-flow_table :
    (uuid : Bytes) (t : Tuple) (h : Host)
    → Distinct h.sequence_table
    → is_flow t ≡ true
    → (deal uuid t h).sequence_table
      ≡ numbered
          (flow_key (flow_of t))
          (lookup (flow_key (flow_of t)) h.sequence_table)
          h.sequence_table
deal-flow_table uuid t h d e = ap (λ (x : Host). x.sequence_table) (deal-flow uuid t h d e)

-- The abstract table, with one more packet of a key.
counted_more :
    (key k : Bytes) (n : ℕ) (seen : List Bytes)
    → n ≡ count key seen + 1
    → (if bytes_eq key k then some n else (if count k seen == 0 then none else some (count k seen)))
      ≡ (if count k (key ∷ seen) == 0 then none else some (count k (key ∷ seen)))
unfolding count
counted_more key k n seen e = elim (Bool-cases (bytes_eq key k)) [
  | inl same ↦
      let there : key ≡ k = bytes_eq_sound key k same in
      rw same (
        rw (==-zero (count k seen))
          (ap some (e ∙ ap (λ x. count x seen + 1) there ∙ add-one (count k seen))))
  | inr other ↦ rw other refl
]

-- If the sequence table holds, of each flow, how many of its packets there were, then it does so
-- after dealing with one more packet of a flow; the packets before were fewer than 2^31.
pub deal-Counts :
    (uuid : Bytes) (t : Tuple) (seen : List Bytes) (h : Host)
    → Counts seen h
    → length seen < int_limit
    → is_flow t ≡ true
    → Counts (flow_key (flow_of t) ∷ seen) (deal uuid t h)
deal-Counts uuid t seen h c lt e =
    let key = flow_key (flow_of t) in
    let o = lookup key h.sequence_table in
    record {
      distinct =
          rw (deal-flow_table uuid t h c.distinct e)
            (numbered-Distinct key o h.sequence_table c.distinct refl);
      counted = λ k.
          ap (lookup k) (deal-flow_table uuid t h c.distinct e)
          ∙ lookup-numbered key k o h.sequence_table c.distinct refl
          ∙ ap (λ x. if bytes_eq key k then some (next_number t h) else x) (c.counted k)
          ∙ counted_more key k (next_number t h) seen (next_number-count seen t h c lt);
    }
