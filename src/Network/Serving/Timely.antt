-- ===== src/Network/Serving/Timely.antt =====
-- The sender's announcements carry numbers that fit an int, as long as it has captured fewer than 2^31
-- packets.
use ip_ndn_stack_cpp.Prelude.{
  ℕ, suc, ◌-◌, ◌<◌, ◌≤◌, ◌≡◌, refl, List, [], ◌∷◌, true, All, All-append, Bool-cases, inl, inr,
  arith, length, Bool, sym, some,
}
use ip_ndn_stack_cpp.Text.{Bytes}
use ip_ndn_stack_cpp.Word.{int_limit, u32_mod}
use ip_ndn_stack_cpp.Tuple.{Tuple}
use ip_ndn_stack_cpp.Naming.Injective.{flow_key}
use ip_ndn_stack_cpp.Ndn.State.{Request, express_interest, put_data_to_cache}
use ip_ndn_stack_cpp.Capture.{Host, publish, deal, deal_other}
use ip_ndn_stack_cpp.Capture.Numbering.{
  flow_of, is_flow, next_number, count-le, Counts, next_number-count, deal-Counts,
}
use ip_ndn_stack_cpp.Capture.Exchange.{flow-Announces}
use ip_ndn_stack_cpp.Capture.Fresh.{deal-other_lem, empty-Counts}
use mathlib.Core.Path.{subst}
use ip_ndn_stack_cpp.Text.{slash, Lacks}
use ip_ndn_stack_cpp.Packet.Fields.{IsMemory}
use ip_ndn_stack_cpp.Tuple.{Memory}
use ip_ndn_stack_cpp.Capture.{Poll, handle_read}
use ip_ndn_stack_cpp.Capture.Reads.{decoded_tuple, decoded-IsFlow, Idles, handle_read_cases}
use ip_ndn_stack_cpp.Network.Sender.{IsPacket, IsAnnouncement, announces_flow, announces_other}

abbrev pub IsBelow : {r : Request} → IsAnnouncement r → Type 0
IsBelow (announces_flow f n e) = n < int_limit
IsBelow (announces_other f n uid l e) = Unit {0}

pub record IsTimely (r : Request) : Type 0 where
  pub announcement : IsAnnouncement r
  pub below : IsBelow announcement

-- A sender that has captured `k` packets.
pub record Timely (k : ℕ) (h : Host) : Type 0 where
  pub seen : List Bytes
  pub counts : Counts seen h
  pub few : length seen ≤ k
  pub announced : All IsTimely h.ndn.expressed

pub start-Timely : (h : Host) → h.sequence_table ≡ [] → h.ndn.expressed ≡ [] → Timely 0 h
start-Timely h table asked = record {
  seen = [];
  counts = empty-Counts h table;
  few = omega arith;
  announced = rw asked tt;
}

flow-Timely :
    (k : ℕ) (uuid : Bytes) (t : Tuple) (h : Host)
    → suc k < int_limit
    → is_flow t ≡ true
    → Timely k h
    → Timely (suc k) (deal uuid t h)
flow-Timely k uuid t h lt e s =
    let n = next_number t h in
    let key = flow_key (flow_of t) in
    let few = s.few in
    record {
      seen = key ∷ s.seen;
      counts = deal-Counts uuid t s.seen h s.counts (omega arith) e;
      few = omega arith;
      announced = rw ((flow-Announces uuid t h s.counts.distinct e).announcement) (
          All-append IsTimely h.ndn.expressed _ s.announced (
            record {
              announcement = announces_flow (flow_of t) n refl;
              below =
                  omega (
                    arith,
                    next_number-count s.seen t h s.counts (omega arith),
                    count-le key s.seen,
                  );
            },
            tt,
          ));
    }

other-Timely :
    (k : ℕ) (uuid : Bytes) (t : Tuple) (h : Host)
    → IsPacket (uuid, t)
    → Timely k h
    → Timely (suc k) (deal_other uuid t h)
unfolding deal_other publish express_interest put_data_to_cache
other-Timely k uuid t h p s =
    let few = s.few in
    record {
      seen = s.seen;
      counts = record { distinct = s.counts.distinct; counted = s.counts.counted };
      few = omega arith;
      announced = All-append IsTimely h.ndn.expressed _ s.announced (
        record {
          announcement = announces_other (flow_of t) (u32_mod - 1) uuid p.uuid_slashless refl;
          below = tt;
        },
        tt,
      );
    }

deal-Timely :
    (k : ℕ) (uuid : Bytes) (t : Tuple) (h : Host)
    → suc k < int_limit
    → IsPacket (uuid, t)
    → Timely k h
    → Timely (suc k) (deal uuid t h)
deal-Timely k uuid t h lt p s = elim (Bool-cases (is_flow t)) [
  | inl e ↦ flow-Timely k uuid t h lt e s
  | inr e ↦ rw (deal-other_lem uuid t h e) (other-Timely k uuid t h p s)
]

-- A sender that has read `k` times, whatever it read.
idle-Timely : (k : ℕ) (h h' : Host) → Idles h h' → Timely k h → Timely (suc k) h'
idle-Timely k h h' i s =
    let few = s.few in
    record {
      seen = s.seen;
      counts = record {
        distinct = rw i.sequence_table s.counts.distinct;
        counted = λ key. rw i.sequence_table (s.counts.counted key);
      };
      few = omega arith;
      announced = rw i.ndn s.announced;
    }

pub handle_read-Timely :
    (k : ℕ) (error : Bool) (poll : Poll) (err : Bytes) (now : ℕ) (uuid : Bytes) (h : Host)
    → suc k < int_limit
    → ((frame : Memory) → poll.packet ≡ some frame → IsMemory frame)
    → Lacks slash uuid
    → Timely k h
    → Timely (suc k) (handle_read error poll err now uuid h).0
handle_read-Timely k error poll err now uuid h lt bytes lacks s =
    elim (handle_read_cases error poll err now uuid h) [
      | inl i ↦ idle-Timely k h _ i s
      | inr d ↦ subst (Timely (suc k)) (sym d.dealt) (
          deal-Timely k uuid (decoded_tuple poll d.frame now h) (record h { globals = d.globals })
            lt
            (record {
              fits = decoded-IsFlow poll d.frame now h (bytes d.frame d.there);
              uuid_slashless = lacks;
            })
            (record {
              seen = s.seen;
              counts = record { distinct = s.counts.distinct; counted = s.counts.counted };
              few = s.few;
              announced = s.announced;
            }))
    ]
