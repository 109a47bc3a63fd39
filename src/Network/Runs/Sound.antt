-- ===== src/Network/Runs/Sound.antt =====
-- What every run of the two hosts keeps of their logs.
use mathlib.Core.Path.{subst}
use ip_ndn_stack_cpp.Prelude.{
  ℕ, zero, suc, ◌≡◌, refl, sym, ap, ◌∙◌, List, [], ◌∷◌, ◌++◌, Bool, true, false, Option, none, some,
  All, All-append, Bool-cases, inl, inr, get_elem?,
}
use ip_ndn_stack_cpp.Text.{Bytes}
use ip_ndn_stack_cpp.Boost.{Boost}
use ip_ndn_stack_cpp.Tuple.{Memory, Tuple}
use ip_ndn_stack_cpp.Ndn.State.{Ndn, Request, Publication, Filter, Datagram, returns}
use ip_ndn_stack_cpp.Ndn.Handlers.{Sockets, on_data, start}
use ip_ndn_stack_cpp.Ndn.Logs.{on_interest-Asks}
use ip_ndn_stack_cpp.Ndn.Delivery.{on_tcp_data-sends, on_other_data-sends, start-filters}
use ip_ndn_stack_cpp.Capture.{Host}
use ip_ndn_stack_cpp.Capture.Numbering.{flow_of}
use ip_ndn_stack_cpp.Network.{
  Forwarder, World, Event, captures, asks, brings, bytes_of, hear, receive, receive_content, step,
  run,
}
use ip_ndn_stack_cpp.Network.Kinds.{IsKind, kinds_agree, flow-IsKind, other-IsKind}
use ip_ndn_stack_cpp.Network.Sender.{
  IsPacket, flow_name, uid_name, Origin, SoundSender, IsAnnouncement, deal-SoundSender,
}
use ip_ndn_stack_cpp.Network.Receiver.{
  IsAsked, IsFitting, all_accepted-IsFitting, on_interest-AllAsked,
}

-- A datagram is the bytes of a captured packet, from its IP header on, to its destination.
pub record IsGenuine (Captured : Bytes × Tuple → Type 0) (d : Datagram) : Type 0 where
  pub packet : Bytes × Tuple
  pub member : Captured packet
  pub memory : Memory
  pub pointer : packet.1.pkt ≡ some memory
  pub buffer : d.buffer ≡ bytes_of memory packet.1.ip_size
  pub address : d.address ≡ packet.1.key.dst_ip

pub record SoundReceiver (Captured : Bytes × Tuple → Type 0) (s : Ndn) : Type 0 where
  pub asked : All IsAsked s.expressed
  pub fitting : All IsFitting s.filters
  pub genuine : All (IsGenuine Captured) s.sent

pub record IsSound (Captured : Bytes × Tuple → Type 0) (w : World) : Type 0 where
  pub sender : SoundSender Captured w.sender
  pub receiver : SoundReceiver Captured w.receiver

-- Only packets that `Captured` holds of are captured.
abbrev pub Among : (Bytes × Tuple → Type 0) → Event → Type 0
Among Captured (captures uuid t) = Captured (uuid, t) × IsPacket (uuid, t)
Among Captured (asks k j) = Unit {0}
Among Captured (brings k j) = Unit {0}

-- What an item found by its place satisfies.
unfoldable pub Of : {A : Type 0} → (A → Type 0) → Option A → Type 0
Of P none = Unit {0}
Of P (some a) = P a

pub found : {A : Type 0} (P : A → Type 0) (xs : List A) (i : ℕ) → All P xs → Of P (get_elem? xs i)
unfolding Of
found P [] i h = tt
found P (x ∷ xs) zero (hx, h) = hx
found P (x ∷ xs) (suc i) (hx, h) = found P xs i h

module _ (forwarder : Forwarder) (boost : Boost) (sockets : Sockets)
    (Captured : Bytes × Tuple → Type 0) where
  hear-SoundReceiver :
      (r : Option Request) (f : Option Filter) (s : Ndn)
      → Of IsAnnouncement r
      → Of IsFitting f
      → SoundReceiver Captured s
      → SoundReceiver Captured (hear forwarder boost sockets r f s)
  unfolding hear Of
  hear-SoundReceiver none f s a fit h = h
  hear-SoundReceiver (some r) none s a fit h = h
  hear-SoundReceiver (some r) (some f) s a fit h =
      elim (Bool-cases (forwarder.matches f.prefix r.name)) [
        | inr other ↦ rw other h
        | inl same ↦
            let (rest, e) = forwarder.matches-extends f.prefix r.name same in
            let log = on_interest-Asks boost r.name f.pre f.tcp s in
            rw same (record {
              asked = on_interest-AllAsked boost r f rest s a fit e h.asked;
              fitting = rw log.filters h.fitting;
              genuine = rw log.sent h.genuine;
            })
      ]

  -- The data that comes back for an interest is sent to the destination of the packet.
  pub on_data-sends :
      (r : Request) (p : Publication) (rest content : Bytes) (s : Ndn)
      → IsAsked r
      → (o : Origin Captured p) → p.name ≡ r.name ++ rest
      → on_data sockets boost p.name content r.is_pre r.is_tcp s ≡ (
        returns tt,
        record s {
          sent = s.sent ++ record { buffer = content; address = o.packet.1.key.dst_ip } ∷ [];
        },
      )
  on_data-sends r p rest content s k o e =
      let t = o.packet.1 in
      let fits = o.is_packet.fits in
      elim o.named [
        | flow_name n e' ↦
            let tcp =
              kinds_agree r.is_tcp true r.name rest k.kind
                (subst (IsKind true) (sym e' ∙ e) (flow-IsKind (flow_of t) n)) in
            rw (e', k.for_data, tcp) (on_tcp_data-sends sockets boost (flow_of t) n content s fits)
        | uid_name n e' ↦
            let tcp =
              kinds_agree r.is_tcp false r.name rest k.kind
                (subst (IsKind false) (sym e' ∙ e) (other-IsKind (flow_of t) n o.packet.0)) in
            rw (e', k.for_data, tcp)
              (on_other_data-sends sockets boost (flow_of t) n o.packet.0 content s fits
                o.is_packet.uuid_slashless)
      ]

  sent-SoundReceiver :
      (d : Datagram) (s : Ndn)
      → IsGenuine Captured d
      → SoundReceiver Captured s
      → SoundReceiver Captured (record s { sent = s.sent ++ d ∷ [] })
  sent-SoundReceiver d s g h = record {
    asked = h.asked;
    fitting = h.fitting;
    genuine = All-append (IsGenuine Captured) s.sent (d ∷ []) h.genuine (g, tt);
  }

  content-SoundReceiver :
      (r : Request) (p : Publication) (o : Option Memory) (s : Ndn)
      → IsAsked r
      → Origin Captured p
      → p.pkt ≡ o
      → SoundReceiver Captured s
      → SoundReceiver Captured (receive_content forwarder boost sockets r p o s)
  unfolding receive_content
  content-SoundReceiver r p none s k o e h = h
  content-SoundReceiver r p (some m) s k o e h =
      elim (Bool-cases (forwarder.matches r.name p.name)) [
        | inr other ↦ rw other h
        | inl same ↦
            let (rest, extends) = forwarder.matches-extends r.name p.name same in
            rw (same, on_data-sends r p rest (bytes_of m p.size) s k o extends)
              (sent-SoundReceiver _ s
                (record {
                  packet = o.packet;
                  member = o.member;
                  memory = m;
                  pointer = sym o.pointer ∙ e;
                  buffer = ap (bytes_of m) o.size;
                  address = refl;
                })
                h)
      ]

  receive-SoundReceiver :
      (r : Option Request) (p : Option Publication) (s : Ndn)
      → Of IsAsked r
      → Of (Origin Captured) p
      → SoundReceiver Captured s
      → SoundReceiver Captured (receive forwarder boost sockets r p s)
  unfolding receive Of
  receive-SoundReceiver none p s k o h = h
  receive-SoundReceiver (some r) none s k o h = h
  receive-SoundReceiver (some r) (some p) s k o h = content-SoundReceiver r p p.pkt s k o refl h

  pub step-IsSound :
      (e : Event) (w : World)
      → Among Captured e
      → IsSound Captured w
      → IsSound Captured (step forwarder boost sockets w e)
  unfolding step
  step-IsSound (captures uuid t) w (m, k) h = record {
    sender = deal-SoundSender Captured uuid t w.sender m k h.sender;
    receiver = h.receiver;
  }
  step-IsSound (asks k j) w a h = record {
    sender = h.sender;
    receiver =
        hear-SoundReceiver (get_elem? w.sender.ndn.expressed k) (get_elem? w.receiver.filters j)
          w.receiver (found IsAnnouncement w.sender.ndn.expressed k h.sender.announced)
          (found IsFitting w.receiver.filters j h.receiver.fitting) h.receiver;
  }
  step-IsSound (brings k j) w a h = record {
    sender = h.sender;
    receiver =
        receive-SoundReceiver (get_elem? w.receiver.expressed k)
          (get_elem? w.sender.ndn.published j) w.receiver
          (found IsAsked w.receiver.expressed k h.receiver.asked)
          (found (Origin Captured) w.sender.ndn.published j h.sender.published) h.receiver;
  }

  pub run-IsSound :
      (es : List Event) (w : World)
      → All (Among Captured) es
      → IsSound Captured w
      → IsSound Captured (run forwarder boost sockets es w)
  unfolding run
  run-IsSound [] w a h = h
  run-IsSound (e ∷ es) w (ae, a) h =
      run-IsSound es (step forwarder boost sockets w e) a (step-IsSound e w ae h)

  pub start-IsSound :
      (accepts : Bytes → Bool) (h : Host) (s : Ndn)
      → h.sequence_table ≡ []
      → (h.ndn.published ≡ []) × (h.ndn.expressed ≡ [])
      → (s.expressed ≡ []) × (s.filters ≡ []) × (s.sent ≡ [])
      → IsSound Captured (record { sender = h; receiver = start accepts s })
  start-IsSound accepts h s table (published, announced) (asked, filters, sent) = record {
    sender = sender_sound;
    receiver = receiver_sound;
  }
    where
      sender_sound : SoundSender Captured h
      sender_sound = record {
        distinct = rw table tt;
        published = rw published tt;
        announced = rw announced tt;
      }

      receiver_sound : SoundReceiver Captured (start accepts s)
      receiver_sound = rw (start-filters accepts s) (record {
        asked = rw asked tt;
        fitting = rw filters (all_accepted-IsFitting accepts s.register_ip);
        genuine = rw sent tt;
      })
