-- ===== src/Network/Frames/Other.antt =====
-- The same way for the frames of other protocols, such as ICMP, whose packets go by a uuid.
use ip_ndn_stack_cpp.Prelude.{
  ℕ, ◌-◌, ◌+◌, ◌%◌, ◌<◌, ◌≤◌, ◌≡◌, refl, ap, ◌∙◌, [], ◌∷◌, ◌++◌, true, false, ◌||◌, ◌==◌, Option,
  some, arith, length, get_elem?, get_elem?-length,
}
use mathlib.Core.Path.{subst}
use ip_ndn_stack_cpp.Text.{Bytes, slash, Lacks}
use ip_ndn_stack_cpp.Word.{u32_mod}
use ip_ndn_stack_cpp.Boost.{Boost}
use ip_ndn_stack_cpp.Tuple.{Memory, Tuple}
use ip_ndn_stack_cpp.Naming.Injective.{IsFlow}
use ip_ndn_stack_cpp.Packet.Fields.{ip_p, ip_dst, IsMemory}
use ip_ndn_stack_cpp.Packet.Decode.{read_key, ipproto_tcp, ipproto_udp}
use ip_ndn_stack_cpp.Packet.Accepts.{IsWhole}
use ip_ndn_stack_cpp.Ndn.State.{
  interest_lifetime, Ndn, Request, Publication, Filter, express_interest, put_data_to_cache,
}
use ip_ndn_stack_cpp.Ndn.Handlers.{Sockets}
use ip_ndn_stack_cpp.Ndn.Requests.{on_other_pre-asks}
use ip_ndn_stack_cpp.Ndn.Delivery.{on_other_data-sends}
use ip_ndn_stack_cpp.Capture.{Host, Poll, publish, deal_other, handle_read}
use ip_ndn_stack_cpp.Capture.Numbering.{flow_of}
use ip_ndn_stack_cpp.Capture.Fresh.{deal-other_lem}
use ip_ndn_stack_cpp.Capture.Reads.{ip_of, decoded-IsFlow}
use ip_ndn_stack_cpp.Capture.Rejected.{HasPacket}
use ip_ndn_stack_cpp.Network.{
  Forwarder, World, asks, brings, bytes_of, hear, receive, receive_content, step, run,
}
use ip_ndn_stack_cpp.Network.Sender.{other_name}
use ip_ndn_stack_cpp.Network.Frames.{frame_tuple, frame_decodes, decoded, handle_read-deal}

-- A frame as pcap gives it, with a whole packet of neither TCP nor UDP, of a size that handleRead deals
-- with.
pub record IsOtherFrame (poll : Poll) (frame : Memory) : Type 0 where
  pub has_packet : HasPacket poll frame
  pub bytes : IsMemory frame
  pub whole : IsWhole frame poll.caplen
  pub unported : (ip_p (ip_of frame) == ipproto_tcp || ip_p (ip_of frame) == ipproto_udp) ≡ false
  pub long : 14 ≤ poll.caplen
  pub short : poll.caplen < 8614

-- The filter that `start` sets for the pre-requests of other packets, at place `j`.
pub record IsOtherFilter (forwarder : Forwarder) (name : Bytes) (j : ℕ) (s : Ndn) : Type 0 where
  pub filter : Filter
  pub there : get_elem? s.filters j ≡ some filter
  pub pre : filter.pre ≡ true
  pub tcp : filter.tcp ≡ false
  pub matched : forwarder.matches filter.prefix name ≡ true

-- The names of a packet by its uuid: its pre-request's and its own.
abbrev pub uuid_pre_name : Tuple → Bytes → Bytes
uuid_pre_name t uuid = other_name 1 t (u32_mod - 1) uuid

abbrev pub uuid_name : Tuple → Bytes → Bytes
uuid_name t uuid = other_name 2 t (u32_mod - 1) uuid

abbrev uuid_request : Tuple → Bytes → Request
uuid_request t uuid = record {
  name = uuid_name t uuid;
  is_pre = false;
  is_tcp = false;
  lifetime = interest_lifetime;
}

module _ (forwarder : Forwarder) (boost : Boost) (sockets : Sockets) where
  hear_other :
      (t : Tuple) (uuid : Bytes) (o : Option Request) (j : ℕ) (s : Ndn)
      → Lacks slash uuid
      → o
        ≡ some (record {
          name = uuid_pre_name t uuid;
          is_pre = true;
          is_tcp = false;
          lifetime = interest_lifetime;
        })
      → IsOtherFilter forwarder (uuid_pre_name t uuid) j s
      → hear forwarder boost sockets o (get_elem? s.filters j) s
        ≡ express_interest (uuid_name t uuid) false false s
  unfolding hear
  hear_other t uuid o j s lacks e f =
      rw (e, f.there)
        (rw (f.matched, f.pre, f.tcp)
          (ap (λ x. x.1) (on_other_pre-asks boost (flow_of t) (u32_mod - 1) uuid s lacks)))

  receive_other :
      (t : Tuple) (uuid : Bytes) (o : Option Request) (po : Option Publication) (m : Memory)
      (size : ℕ) (s : Ndn)
      → IsFlow (flow_of t)
      → Lacks slash uuid
      → o ≡ some (uuid_request t uuid)
      → po ≡ some (record { name = uuid_name t uuid; pkt = some m; size = size })
      → (receive forwarder boost sockets o po s).sent
        ≡ s.sent ++ record { buffer = bytes_of m size; address = t.key.dst_ip } ∷ []
  unfolding receive receive_content
  receive_other t uuid o po m size s hf lacks e e' =
      rw (e, e')
        (rw (forwarder.matches_self (uuid_name t uuid)) (
          ap (λ x. x.1.sent)
            (on_other_data-sends sockets boost (flow_of t) (u32_mod - 1) uuid (bytes_of m size) s hf
              lacks)))

  -- A packet that goes by its uuid, once it is dealt with.
  other-delivered :
      (t : Tuple) (uuid : Bytes) (m : Memory) (j : ℕ) (h : Host) (s : Ndn)
      → IsFlow (flow_of t)
      → Lacks slash uuid
      → t.pkt ≡ some m
      → IsOtherFilter forwarder (uuid_pre_name t uuid) j s
      → (run forwarder boost sockets
          (asks (length h.ndn.expressed) j
            ∷ brings (length s.expressed) (length h.ndn.published)
            ∷ [])
          (record { sender = deal_other uuid t h; receiver = s })).receiver.sent
        ≡ s.sent ++ record { buffer = bytes_of m t.ip_size; address = t.key.dst_ip } ∷ []
  unfolding run step deal_other publish express_interest put_data_to_cache
  other-delivered t uuid m j h s hf lacks pkt filter =
      rw (hear_other t uuid _ j s lacks (get_elem?-length h.ndn.expressed [] _) filter) (
        receive_other t uuid _ _ m t.ip_size (express_interest (uuid_name t uuid) false false s) hf
          lacks (get_elem?-length s.expressed [] _)
          (rw pkt (get_elem?-length h.ndn.published [] _)))

  -- Let the sender read a frame that holds a whole IPv4 packet of neither TCP nor UDP, let the
  -- announcement that it makes reach the receiver's filter for the pre-requests of such packets, and
  -- let the publication come back for the interest that the receiver answers with. Then the receiver
  -- sends, as one more datagram, the frame's bytes from the IP header on, to the destination address
  -- of that header, whatever the two hosts did before. The datagram is 14 bytes shorter than the
  -- captured frame: it goes to the frame's end behind a plain Ethernet header, padding included, and
  -- four bytes past the captured ones behind a VLAN header. The uuid that the packet gets holds no
  -- slash.
  pub other_frame-delivered :
      (frame : Memory) (poll : Poll) (err : Bytes) (now : ℕ) (uuid : Bytes) (j : ℕ) (w : World)
      → IsOtherFrame poll frame
      → Lacks slash uuid
      → IsOtherFilter forwarder
          (uuid_pre_name (frame_tuple frame poll now w.sender) uuid)
          j
          w.receiver
      → (run forwarder boost sockets
          (asks (length w.sender.ndn.expressed) j
            ∷ brings (length w.receiver.expressed) (length w.sender.ndn.published)
            ∷ [])
          (record w { sender = (handle_read false poll err now uuid w.sender).0 })).receiver.sent
        ≡ w.receiver.sent
          ++ record {
            buffer = bytes_of (ip_of frame) (poll.caplen - 14);
            address = ip_dst (ip_of frame);
          }
            ∷ []
  unfolding read_key
  other_frame-delivered frame poll err now uuid j w f lacks filter =
      let t = frame_tuple frame poll now w.sender in
      let small : poll.caplen < 8614 = f.short in
      let long : 14 ≤ poll.caplen = f.long in
      let exact : (poll.caplen + u32_mod - 14) % u32_mod ≡ poll.caplen - 14 = omega arith in
      let fits =
        subst (λ (u : Tuple). IsFlow (flow_of u))
          (frame_decodes frame poll now w.sender f.whole (omega arith))
          (decoded-IsFlow poll frame now w.sender f.bytes) in
      let h = decoded frame poll now w.sender in
      rw
        (
          handle_read-deal frame poll err now uuid w.sender f.has_packet f.whole long small,
          deal-other_lem uuid t h f.unported,
        )
        (other-delivered t uuid (ip_of frame) j h w.receiver fits lacks refl filter
          ∙ ap
              (λ n.
                w.receiver.sent
                ++ record { buffer = bytes_of (ip_of frame) n; address = ip_dst (ip_of frame) }
                  ∷ [])
              exact)
