-- ===== src/Network/Serving/Overflow.antt =====
-- The packet of a flow whose number does not fit an int any more.
use ip_ndn_stack_cpp.Prelude.{
  ℕ, ◌≤◌, ◌≡◌, ap, ◌∙◌, List, [], ◌∷◌, true, false, Option, some, length, get_elem?,
  get_elem?-length,
}
use ip_ndn_stack_cpp.Text.{Bytes}
use ip_ndn_stack_cpp.Word.{int_limit}
use ip_ndn_stack_cpp.Boost.{Boost}
use ip_ndn_stack_cpp.Tuple.{Memory}
use ip_ndn_stack_cpp.Naming.Injective.{flow_data_name}
use ip_ndn_stack_cpp.Table.Laws.{Distinct}
use ip_ndn_stack_cpp.Packet.Decode.{read_key}
use ip_ndn_stack_cpp.Ndn.State.{interest_lifetime, Ndn, Request, express_interest}
use ip_ndn_stack_cpp.Ndn.Handlers.{Sockets, forget_guess, on_interest}
use ip_ndn_stack_cpp.Ndn.Requests.{flow_pre_name}
use ip_ndn_stack_cpp.Ndn.Faults.{tcp_pre_past_int}
use ip_ndn_stack_cpp.Capture.{Host, Poll, deal}
use ip_ndn_stack_cpp.Capture.Numbering.{flow_of, next_number}
use ip_ndn_stack_cpp.Capture.Exchange.{flow-Announces}
use ip_ndn_stack_cpp.Network.{Forwarder, World}
use ip_ndn_stack_cpp.Network.Delivered.{IsFilterFor}
use ip_ndn_stack_cpp.Network.Frames.{IsFlowFrame, frame_tuple, decoded, handle_read-deal}
use ip_ndn_stack_cpp.Network.Wire.{reads, interest_passes}
use ip_ndn_stack_cpp.Network.Serving.{
  Arrival, regular, terminated, with_receiver, go_on, call_on_interest, handle, process_events,
}
use ip_ndn_stack_cpp.Network.Serving.Stray.{call_filter_lem}

-- The sender, once it has dealt with the frame.
abbrev pub after_frame : Memory → Poll → Bytes → ℕ → Host → Host
after_frame frame poll uuid now h =
    deal uuid (frame_tuple frame poll now h) (decoded frame poll now h)

-- The receiver when it has asked for a packet by its pre-request, and makes no guess.
abbrev pub asked_only : Bytes → Ndn → Ndn
asked_only name s = forget_guess name (express_interest name false true s)

module _ (forwarder : Forwarder) (boost : Boost) (sockets : Sockets) where
  call_on_interest_lem :
      (o : Option Request) (r : Request) (j : ℕ) (s : Ndn)
      → o ≡ some r
      → IsFilterFor forwarder r.name j s
      → call_on_interest forwarder boost sockets o (get_elem? s.filters j) s
        ≡ on_interest boost r.name true true s
  unfolding call_on_interest
  call_on_interest_lem o r j s e f =
      rw e
        (call_filter_lem forwarder boost sockets r.name _ f.filter s f.there f.pre f.tcp f.matched)

  -- Let the sender read a frame that holds a whole TCP or UDP packet over IPv4, and let its flow's
  -- numbers have reached 2^31, which an int does not hold. When the announcement that the sender
  -- makes of it reaches the receiver's filter for the pre-requests of flows, the process of the
  -- receiver is terminated, once it has asked for the packet: a long flow ends the other host's part.
  -- The sender's table has distinct keys.
  pub long_flow_terminates :
      (frame : Memory) (poll : Poll) (err : Bytes) (now : ℕ) (uuid : Bytes) (j : ℕ)
      (rest : List Arrival) (w : World)
      → IsFlowFrame poll frame
      → Distinct w.sender.sequence_table
      → int_limit ≤ next_number (frame_tuple frame poll now w.sender) w.sender
      → IsFilterFor forwarder
          (flow_pre_name
            (flow_of (frame_tuple frame poll now w.sender))
            (next_number (frame_tuple frame poll now w.sender) w.sender))
          j
          w.receiver
      → process_events forwarder boost sockets
          (regular (reads false poll err now uuid)
            ∷ regular (interest_passes (length w.sender.ndn.expressed) j)
            ∷ rest)
          w
        ≡ terminated (record {
          sender = after_frame frame poll uuid now w.sender;
          receiver =
              asked_only
                (flow_data_name
                  (flow_of (frame_tuple frame poll now w.sender))
                  (next_number (frame_tuple frame poll now w.sender) w.sender))
                w.receiver;
        })
  unfolding process_events handle read_key
  long_flow_terminates frame poll err now uuid j rest w f d ge filter =
      let t = frame_tuple frame poll now w.sender in
      let n = next_number t w.sender in
      let h = after_frame frame poll uuid now w.sender in
      let pre = flow_pre_name (flow_of t) n in
      let log = flow-Announces uuid t (decoded frame poll now w.sender) d f.ported in
      let asked =
        ap (λ l. get_elem? l (length w.sender.ndn.expressed)) log.announcement
        ∙ get_elem?-length w.sender.ndn.expressed [] _ in
      rw (handle_read-deal frame poll err now uuid w.sender f.has_packet f.whole f.long f.short) (
        ap
          (λ x.
            go_on (process_events forwarder boost sockets rest)
              (with_receiver (record w { sender = h }) x))
          (call_on_interest_lem (get_elem? h.ndn.expressed (length w.sender.ndn.expressed))
              (record { name = pre; is_pre = true; is_tcp = false; lifetime = interest_lifetime }) j
              w.receiver asked filter
            ∙ tcp_pre_past_int boost (flow_of t) n w.receiver ge))
