-- ===== src/Network/Serving/Examples.antt =====
-- The receiver of the sample packet, while it serves the sample events, and when strays reach it.
use mathlib.Core.List.{Memᴰ}
use ip_ndn_stack_cpp.Prelude.{◌≡◌, refl, List, ◌∷◌, map, true, false, arith}
use ip_ndn_stack_cpp.Text.{codes, to_string}
use ip_ndn_stack_cpp.Word.{int_limit, ntohs, ntohl, int_to_string}
use ip_ndn_stack_cpp.Boost.Reference.{reference}
use ip_ndn_stack_cpp.Text.Split.{split}
use ip_ndn_stack_cpp.Naming.{build_name, dotted, flow_uid}
use ip_ndn_stack_cpp.Naming.Examples.{sample_flow}
use ip_ndn_stack_cpp.Naming.Injective.{flow_data_name}
use ip_ndn_stack_cpp.Ndn.State.{express_interest}
use ip_ndn_stack_cpp.Ndn.Handlers.{start, forget_guess}
use ip_ndn_stack_cpp.Ndn.Requests.{flow_pre_name}
use ip_ndn_stack_cpp.Ndn.Faults.{number_pre_name, number_data_name}
use ip_ndn_stack_cpp.Ndn.Sockets.{reference_sockets}
use ip_ndn_stack_cpp.Capture.Examples.{idle_host}
use ip_ndn_stack_cpp.Prelude.{bytes_eq, ◌-◌, [], none, ℕ, false}
use ip_ndn_stack_cpp.Word.{inc_int}
use ip_ndn_stack_cpp.Tuple.{Tuple}
use ip_ndn_stack_cpp.Naming.{build_4_tuple_key}
use ip_ndn_stack_cpp.Naming.Injective.{Flow, flow_key}
use ip_ndn_stack_cpp.Table.{lookup}
use ip_ndn_stack_cpp.Packet.Fields.{
  offset, load16, load32, ether_type, ip_hl, ip_p, ip_src, ip_dst, l4_source, l4_dest,
}
use ip_ndn_stack_cpp.Packet.Decode.{read_key}
use ip_ndn_stack_cpp.Packet.Examples.{tcp_frame}
use ip_ndn_stack_cpp.Capture.Numbering.{flow_of, next_number}
use ip_ndn_stack_cpp.Network.{World}
use ip_ndn_stack_cpp.Network.Frames.{frame_tuple}
use ip_ndn_stack_cpp.Network.Frames.Examples.{frame_poll, near, sample_frame}
use ip_ndn_stack_cpp.Network.Wire.{reads, interest_passes}
use ip_ndn_stack_cpp.Network.Serving.Overflow.{after_frame, asked_only, long_flow_terminates}
use ip_ndn_stack_cpp.Network.Delivered.{IsFilterFor}
use ip_ndn_stack_cpp.Network.Examples.{component_prefix, forwarder, two_hosts}
use ip_ndn_stack_cpp.Network.Wire.{wire_run}
use ip_ndn_stack_cpp.Network.Wire.Examples.{served, answers, wire_events, wire-Legible}
use ip_ndn_stack_cpp.Network.Serving
use ip_ndn_stack_cpp.Network.Serving.{
  Arrival, regular, stray, terminated, undefined, process_events,
}
use ip_ndn_stack_cpp.Network.Serving.Faultless.{process_events-serves}
use ip_ndn_stack_cpp.Network.Serving.Stray.{stray_terminates, stray_undefined}

process_events-serves_example :
    process_events forwarder reference reference_sockets
      (map regular wire_events)
      (record { sender = idle_host; receiver = start (λ prefix. true) served })
    ≡ Serving.serving (
        wire_run forwarder reference reference_sockets wire_events
          (record { sender = idle_host; receiver = start (λ prefix. true) served }))
process_events-serves_example =
    process_events-serves forwarder reference reference_sockets (λ p. Memᴰ p answers)
      (λ prefix. true) wire_events idle_host served refl (refl, refl) (refl, refl, refl)
      wire-Legible (omega arith)

-- The events that would come after.
abbrev later : List Arrival
later = map regular wire_events

stray_filter : IsFilterFor forwarder (number_pre_name sample_flow int_limit) 2 two_hosts.receiver
unfolding component_prefix dotted to_string ntohs ntohl
stray_filter = record {
  filter = record { prefix = codes "/IP/TCP/pre/1.2.3.4"; pre = true; tcp = true };
  there = refl;
  pre = refl;
  tcp = refl;
  matched = refl;
}

stray_terminates_example :
    process_events forwarder reference reference_sockets
      (stray (number_pre_name sample_flow int_limit) 2 ∷ later)
      two_hosts
    ≡ terminated (record two_hosts {
      receiver =
          forget_guess (number_data_name sample_flow int_limit) (
            express_interest
              (number_data_name sample_flow int_limit)
              false
              true
              two_hosts.receiver);
    })
stray_terminates_example =
    stray_terminates forwarder reference reference_sockets sample_flow int_limit 2 later two_hosts
      (omega arith) stray_filter

short_filter : IsFilterFor forwarder (codes "/IP/TCP/pre/1.2.3.4") 2 two_hosts.receiver
unfolding component_prefix
short_filter = record {
  filter = record { prefix = codes "/IP/TCP/pre/1.2.3.4"; pre = true; tcp = true };
  there = refl;
  pre = refl;
  tcp = refl;
  matched = refl;
}

stray_undefined_example :
    process_events forwarder reference reference_sockets
      (stray (codes "/IP/TCP/pre/1.2.3.4") 2 ∷ later)
      two_hosts
    ≡ undefined two_hosts
unfolding split
stray_undefined_example =
    stray_undefined forwarder reference reference_sockets (codes "/IP/TCP/pre/1.2.3.4") 2 later
      two_hosts (omega arith) short_filter

-- The flow of the sample frame, at the greatest int.
abbrev frame_flow : Flow
frame_flow = record { src_ip = 0x0100_000a; dst_ip = 0x0200_000a; src_port = 4660; dst_port = 80 }

abbrev long_lived : World
long_lived = record near {
  sender = record idle_host { sequence_table = (flow_key frame_flow, int_limit - 1) ∷ [] };
}

abbrev next_tuple : Tuple
next_tuple = frame_tuple tcp_frame frame_poll 1000 long_lived.sender

empty_lookup : lookup {T = ℕ} (flow_key frame_flow) [] ≡ none
unfolding lookup
empty_lookup = refl

past_int : next_number next_tuple long_lived.sender ≡ int_limit
unfolding read_key offset load16 load32 ip_hl ip_p ip_src ip_dst l4_source l4_dest ntohs lookup
    bytes_eq inc_int build_4_tuple_key dotted to_string ntohl ether_type
past_int = refl

overflow_filter :
    IsFilterFor forwarder
      (flow_pre_name (flow_of next_tuple) (next_number next_tuple long_lived.sender))
      2
      long_lived.receiver
unfolding component_prefix build_name dotted flow_uid to_string ntohs ntohl int_to_string lookup
    read_key offset load16 load32 ip_hl ip_p ip_src ip_dst l4_source l4_dest bytes_eq inc_int
    build_4_tuple_key ether_type
overflow_filter = record {
  filter = record { prefix = codes "/IP/TCP/pre/10.0.0.2"; pre = true; tcp = true };
  there = refl;
  pre = refl;
  tcp = refl;
  matched = refl;
}

long_flow_terminates_example :
    process_events forwarder reference reference_sockets
      (regular (reads false frame_poll [] 1000 []) ∷ regular (interest_passes 0 2) ∷ later)
      long_lived
    ≡ terminated (record {
      sender = after_frame tcp_frame frame_poll [] 1000 long_lived.sender;
      receiver =
          asked_only
            (flow_data_name (flow_of next_tuple) (next_number next_tuple long_lived.sender))
            long_lived.receiver;
    })
long_flow_terminates_example =
    long_flow_terminates forwarder reference reference_sockets tcp_frame frame_poll [] 1000 [] 2
      later long_lived sample_frame (empty_lookup, tt) (omega (arith, past_int)) overflow_filter
