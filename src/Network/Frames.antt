-- ===== src/Network/Frames.antt =====
-- From the wire of one host to the raw socket of the other: handleRead (helper/LibPcapHelper.cpp),
-- with the decoder (libpcapcapture/packet.cpp) under it, and the two hosts' NDN sides.
pub mod Other
pub mod Examples
use ip_ndn_stack_cpp.Prelude.{
  ℕ, ◌+◌, ◌-◌, ◌%◌, ◌<◌, ◌≤◌, ◌≡◌, refl, ap, ◌∙◌, [], ◌∷◌, ◌++◌, true, false, ◌||◌, ◌==◌, arith,
  length, ltb,
}
use ip_ndn_stack_cpp.Text.{Bytes}
use ip_ndn_stack_cpp.Word.{int_limit, u32_mod}
use ip_ndn_stack_cpp.Boost.{Boost}
use ip_ndn_stack_cpp.Tuple.{Memory, Tuple}
use ip_ndn_stack_cpp.Naming.Injective.{IsFlow}
use ip_ndn_stack_cpp.Table.Laws.{Distinct}
use ip_ndn_stack_cpp.Packet.Fields.{ip_p, ip_dst, IsMemory}
use ip_ndn_stack_cpp.Packet.Decode.{decode, read_key, ipproto_tcp, ipproto_udp}
use ip_ndn_stack_cpp.Packet.Accepts.{IsWhole, frame_status-valid}
use ip_ndn_stack_cpp.Packet.Results.{accepted_tuple, decode-accepted}
use ip_ndn_stack_cpp.Ndn.Handlers.{Sockets, num_of_guest}
use ip_ndn_stack_cpp.Ndn.Requests.{flow_pre_name}
use ip_ndn_stack_cpp.Capture.{Host, Poll, new_tuple, deal, handle_read}
use ip_ndn_stack_cpp.Capture.Numbering.{flow_of, next_number}
use mathlib.Core.Path.{subst}
use ip_ndn_stack_cpp.Capture.Reads.{ip_of, decoded-IsFlow}
use ip_ndn_stack_cpp.Capture.Rejected.{HasPacket, read_next-packet}
use ip_ndn_stack_cpp.Network.{Forwarder, World, asks, brings, bytes_of, step, run}
use ip_ndn_stack_cpp.Network.Delivered.{IsFilterFor, run-delivers}

-- The tuple of a frame that `decode` accepts.
abbrev pub frame_tuple : Memory → Poll → ℕ → Host → Tuple
frame_tuple frame poll now h =
    accepted_tuple frame (ip_of frame) poll.caplen now new_tuple h.globals

-- The host once the frame is decoded.
abbrev pub decoded : Memory → Poll → ℕ → Host → Host
decoded frame poll now h = record h {
  globals = (decode frame poll.caplen poll.len now new_tuple h.globals).2;
}

pub frame_decodes :
    (frame : Memory) (poll : Poll) (now : ℕ) (h : Host)
    → IsWhole frame poll.caplen
    → poll.caplen < int_limit
    → (decode frame poll.caplen poll.len now new_tuple h.globals).1 ≡ frame_tuple frame poll now h
frame_decodes frame poll now h w lt =
    decode-accepted frame poll.caplen poll.len now new_tuple h.globals
      ((frame_status-valid frame poll.caplen lt).1 w)

pub handle_read-deal :
    (frame : Memory) (poll : Poll) (err : Bytes) (now : ℕ) (uuid : Bytes) (h : Host)
    → HasPacket poll frame
    → IsWhole frame poll.caplen
    → 14 ≤ poll.caplen
    → poll.caplen < 8614
    → (handle_read false poll err now uuid h).0
      ≡ deal uuid (frame_tuple frame poll now h) (decoded frame poll now h)
unfolding handle_read
handle_read-deal frame poll err now uuid h p w lo hi =
    let small : ltb ((poll.caplen + u32_mod - 14) % u32_mod) 8600 ≡ true = ground arith in
    rw (read_next-packet poll frame err now h.globals p)
      (rw (frame_decodes frame poll now h w (omega arith)) (rw small refl))

-- A frame as pcap gives it, with a whole packet of TCP or UDP, of a size that handleRead deals with.
pub record IsFlowFrame (poll : Poll) (frame : Memory) : Type 0 where
  pub has_packet : HasPacket poll frame
  pub bytes : IsMemory frame
  pub whole : IsWhole frame poll.caplen
  pub ported : (ip_p (ip_of frame) == ipproto_tcp || ip_p (ip_of frame) == ipproto_udp) ≡ true
  pub long : 14 ≤ poll.caplen
  pub short : poll.caplen < 8614

module _ (forwarder : Forwarder) (boost : Boost) (sockets : Sockets) where
  -- Let the sender read a frame that holds a whole TCP or UDP packet over IPv4, let the announcement
  -- that it makes reach the receiver's filter for the pre-requests of flows, and let the publication
  -- come back for the interest that the receiver answers with. Then the receiver sends, as one more
  -- datagram, the captured bytes from the IP header on, to the destination address of that header,
  -- whatever the two hosts did before. The datagram is 14 bytes shorter than the captured frame: it
  -- goes to the frame's end behind a plain Ethernet header, padding included, and four bytes past the
  -- end behind a VLAN header. The sender's table has distinct keys, and the packet's number is at
  -- least 60 below 2^31.
  pub frame-delivered :
      (frame : Memory) (poll : Poll) (err : Bytes) (now : ℕ) (uuid : Bytes) (j : ℕ) (w : World)
      → IsFlowFrame poll frame
      → Distinct w.sender.sequence_table
      → next_number (frame_tuple frame poll now w.sender) w.sender + num_of_guest < int_limit
      → IsFilterFor forwarder
          (flow_pre_name
            (flow_of (frame_tuple frame poll now w.sender))
            (next_number (frame_tuple frame poll now w.sender) w.sender))
          j
          w.receiver
      → (run forwarder boost sockets
          (asks (length w.sender.ndn.expressed) j
            ∷ brings (length w.receiver.expressed) (length w.sender.ndn.published)
            ∷ [])
          (record w { sender = (handle_read false poll err now uuid w.sender).0 })).receiver.sent
        ≡ w.receiver.sent
          ++ record {
            buffer = bytes_of (ip_of frame) (poll.caplen - 14);
            address = ip_dst (ip_of frame);
          }
            ∷ []
  unfolding run step read_key
  frame-delivered frame poll err now uuid j w f d lt filter =
      let t = frame_tuple frame poll now w.sender in
      let small : poll.caplen < 8614 = f.short in
      let long : 14 ≤ poll.caplen = f.long in
      let exact : (poll.caplen + u32_mod - 14) % u32_mod ≡ poll.caplen - 14 = omega arith in
      let fits =
        subst (λ (u : Tuple). IsFlow (flow_of u))
          (frame_decodes frame poll now w.sender f.whole (omega arith))
          (decoded-IsFlow poll frame now w.sender f.bytes) in
      rw (handle_read-deal frame poll err now uuid w.sender f.has_packet f.whole long small) (
        run-delivers forwarder boost sockets uuid t (ip_of frame) j
          (record w { sender = decoded frame poll now w.sender }) d f.ported fits refl lt filter
        ∙ ap
            (λ n.
              w.receiver.sent
              ++ record { buffer = bytes_of (ip_of frame) n; address = ip_dst (ip_of frame) } ∷ [])
            exact)
