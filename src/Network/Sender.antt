-- ===== src/Network/Sender.antt =====
-- What the sender's logs hold: publications of packets that it captured, and announcements.
use ip_ndn_stack_cpp.Prelude.{ℕ, ◌-◌, ◌≡◌, refl, true, false, All, All-append, Bool-cases, inl, inr}
use ip_ndn_stack_cpp.Text.{Bytes, slash, Lacks}
use ip_ndn_stack_cpp.Word.{u32_mod}
use ip_ndn_stack_cpp.Tuple.{Tuple}
use ip_ndn_stack_cpp.Naming.{build_name}
use ip_ndn_stack_cpp.Naming.Injective.{Flow, IsFlow, flow_data_name}
use ip_ndn_stack_cpp.Table.{lookup}
use ip_ndn_stack_cpp.Table.Laws.{Distinct}
use ip_ndn_stack_cpp.Ndn.State.{
  interest_lifetime, Ndn, Request, Publication, express_interest, put_data_to_cache,
}
use ip_ndn_stack_cpp.Ndn.Requests.{flow_pre_name}
use ip_ndn_stack_cpp.Capture.{Host, publish, deal, deal_other}
use ip_ndn_stack_cpp.Capture.Numbering.{
  flow_of, is_flow, next_number, deal-flow, deal-flow_table, numbered-Distinct,
}
use ip_ndn_stack_cpp.Capture.Fresh.{deal-other_lem}

-- A packet whose fields hold what their C types hold, with a uuid that holds no slash, as those of
-- Boost do not.
pub record IsPacket (x : Bytes × Tuple) : Type 0 where
  pub fits : IsFlow (flow_of x.1)
  pub uuid_slashless : Lacks slash x.0

abbrev pub other_name : ℕ → Tuple → ℕ → Bytes → Bytes
other_name type t n uid =
    (build_name t.key.src_ip t.key.dst_ip t.key.src_port t.key.dst_port type n uid).0

-- The name of a captured packet.
pub data IsNameOf (x : Bytes × Tuple) (name : Bytes) : Type 0 where
  flow_name : (n : ℕ) → name ≡ flow_data_name (flow_of x.1) n → IsNameOf x name
  uid_name : (n : ℕ) → name ≡ other_name 2 x.1 n x.0 → IsNameOf x name

-- A publication is of a captured packet.
pub record Origin (Captured : Bytes × Tuple → Type 0) (p : Publication) : Type 0 where
  pub packet : Bytes × Tuple
  pub member : Captured packet
  pub is_packet : IsPacket packet
  pub named : IsNameOf packet p.name
  pub pointer : p.pkt ≡ packet.1.pkt
  pub size : p.size ≡ packet.1.ip_size

pub data IsAnnouncement (r : Request) : Type 0 where
  announces_flow : (f : Flow) (n : ℕ) → r.name ≡ flow_pre_name f n → IsAnnouncement r
  announces_other :
      (f : Flow) (n : ℕ) (uid : Bytes)
      → Lacks slash uid
      → r.name ≡ (build_name f.src_ip f.dst_ip f.src_port f.dst_port 1 n uid).0
      → IsAnnouncement r

pub record SoundSender (Captured : Bytes × Tuple → Type 0) (h : Host) : Type 0 where
  pub distinct : Distinct h.sequence_table
  pub published : All (Origin Captured) h.ndn.published
  pub announced : All IsAnnouncement h.ndn.expressed

publish_sound :
    (Captured : Bytes × Tuple → Type 0) (name pre : Bytes) (t : Tuple) (s : Ndn)
    → All (Origin Captured) s.published
    → All IsAnnouncement s.expressed
    → Origin Captured (record { name = name; pkt = t.pkt; size = t.ip_size })
    → IsAnnouncement
        (record { name = pre; is_pre = true; is_tcp = false; lifetime = interest_lifetime })
    → All (Origin Captured) (publish name pre t s).published
      × All IsAnnouncement (publish name pre t s).expressed
unfolding publish express_interest put_data_to_cache
publish_sound Captured name pre t s hp ha o a = (
  All-append (Origin Captured) s.published _ hp (o, tt),
  All-append IsAnnouncement s.expressed _ ha (a, tt),
)

deal-flow_sound :
    (Captured : Bytes × Tuple → Type 0) (uuid : Bytes) (t : Tuple) (h : Host)
    → Captured (uuid, t)
    → IsPacket (uuid, t)
    → is_flow t ≡ true
    → SoundSender Captured h
    → SoundSender Captured (deal uuid t h)
deal-flow_sound Captured uuid t h m k e s =
    let n = next_number t h in
    let (hp, ha) =
      publish_sound Captured (flow_data_name (flow_of t) n) (flow_pre_name (flow_of t) n)
        (record t { index = n }) h.ndn s.published s.announced
        (record {
          packet = (uuid, t);
          member = m;
          is_packet = k;
          named = flow_name n refl;
          pointer = refl;
          size = refl;
        })
        (announces_flow (flow_of t) n refl) in
    record {
      distinct =
          rw (deal-flow_table uuid t h s.distinct e)
            (numbered-Distinct _ (lookup _ h.sequence_table) h.sequence_table s.distinct refl);
      published = rw (deal-flow uuid t h s.distinct e) hp;
      announced = rw (deal-flow uuid t h s.distinct e) ha;
    }

deal-other_sound :
    (Captured : Bytes × Tuple → Type 0) (uuid : Bytes) (t : Tuple) (h : Host)
    → Captured (uuid, t)
    → IsPacket (uuid, t)
    → SoundSender Captured h
    → SoundSender Captured (deal_other uuid t h)
unfolding deal_other
deal-other_sound Captured uuid t h m k s =
    let n = u32_mod - 1 in
    let (hp, ha) =
      publish_sound Captured (other_name 2 t n uuid) (other_name 1 t n uuid) t h.ndn s.published
        s.announced
        (record {
          packet = (uuid, t);
          member = m;
          is_packet = k;
          named = uid_name n refl;
          pointer = refl;
          size = refl;
        })
        (announces_other (flow_of t) n uuid k.uuid_slashless refl) in
    record { distinct = s.distinct; published = hp; announced = ha }

pub deal-SoundSender :
    (Captured : Bytes × Tuple → Type 0) (uuid : Bytes) (t : Tuple) (h : Host)
    → Captured (uuid, t)
    → IsPacket (uuid, t)
    → SoundSender Captured h
    → SoundSender Captured (deal uuid t h)
deal-SoundSender Captured uuid t h m k s = elim (Bool-cases (is_flow t)) [
  | inl e ↦ deal-flow_sound Captured uuid t h m k e s
  | inr e ↦ rw (deal-other_lem uuid t h e) (deal-other_sound Captured uuid t h m k s)
]
