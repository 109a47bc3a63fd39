-- ===== src/Network/Frames/Examples.antt =====
-- The sample frame, from the wire of its source to the socket of its destination.
use ip_ndn_stack_cpp.Prelude.{◌≡◌, refl, [], ◌∷◌, ◌++◌, ◌-◌, true, false, some, arith}
use ip_ndn_stack_cpp.Text.{codes, to_string}
use ip_ndn_stack_cpp.Word.{ntohs, ntohl, int_to_string}
use ip_ndn_stack_cpp.Boost.Reference.{reference}
use ip_ndn_stack_cpp.Naming.{build_name, dotted, flow_uid}
use ip_ndn_stack_cpp.Table.{lookup}
use ip_ndn_stack_cpp.Ndn.Handlers.{filters_of}
use ip_ndn_stack_cpp.Ndn.Requests.{flow_pre_name}
use ip_ndn_stack_cpp.Ndn.Sockets.{reference_sockets}
use ip_ndn_stack_cpp.Packet.Fields.{
  offset, load16, load32, ether_type, ip_hl, ip_p, ip_src, ip_dst, l4_source, l4_dest,
}
use ip_ndn_stack_cpp.Prelude.{ℕ, List}
use ip_ndn_stack_cpp.Tuple.{Memory}
use ip_ndn_stack_cpp.Packet.Fields.{ip_v, tcp_doff}
use ip_ndn_stack_cpp.Packet.Stat.{valid}
use ip_ndn_stack_cpp.Packet.Checksum.{fold, fold_high, add_words, fold_all, in_chksum_ip}
use ip_ndn_stack_cpp.Packet.Decode.{link_level, ip_level, transport_level, frame_status}
use ip_ndn_stack_cpp.Packet.Examples.{byte_at}
use ip_ndn_stack_cpp.Network.Frames.Other.{
  IsOtherFrame, IsOtherFilter, uuid_pre_name, other_frame-delivered,
}
use ip_ndn_stack_cpp.Packet.Decode.{read_key}
use ip_ndn_stack_cpp.Packet.Accepts.{frame_status-valid}
use ip_ndn_stack_cpp.Packet.Examples.{tcp_frame, frame_bytes, bytes_below, valid_run}
use ip_ndn_stack_cpp.Capture.{Poll, handle_read}
use ip_ndn_stack_cpp.Capture.Reads.{ip_of}
use ip_ndn_stack_cpp.Capture.Numbering.{flow_of, next_number}
use ip_ndn_stack_cpp.Capture.Examples.{idle_host}
use ip_ndn_stack_cpp.Network.{World, asks, brings, bytes_of, run}
use ip_ndn_stack_cpp.Network.Delivered.{IsFilterFor}
use ip_ndn_stack_cpp.Network.Examples.{component_prefix, forwarder, serving}
use ip_ndn_stack_cpp.Network.Frames.{IsFlowFrame, frame_tuple, frame-delivered}

abbrev pub frame_poll : Poll
frame_poll = record { ret = 1; packet = some tcp_frame; caplen = 54; len = 54 }

-- The destination, with the filters that `start` sets for it.
abbrev pub near : World
near = record {
  sender = idle_host;
  receiver = record serving { filters = filters_of (codes "10.0.0.2") };
}

pub sample_frame : IsFlowFrame frame_poll tcp_frame
unfolding offset load16 ether_type ip_p ntohs
sample_frame = record {
  has_packet = record { positive = (omega arith, omega arith); there = refl };
  bytes = bytes_below frame_bytes (omega arith);
  whole = (frame_status-valid tcp_frame 54 (omega arith)).0 valid_run;
  ported = refl;
  long = omega arith;
  short = omega arith;
}

frame_number : next_number (frame_tuple tcp_frame frame_poll 1000 idle_host) idle_host ≡ 1
unfolding lookup
frame_number = refl

frame_filter :
    IsFilterFor forwarder
      (flow_pre_name
        (flow_of (frame_tuple tcp_frame frame_poll 1000 idle_host))
        (next_number (frame_tuple tcp_frame frame_poll 1000 idle_host) idle_host))
      2
      near.receiver
unfolding component_prefix build_name dotted flow_uid to_string ntohs ntohl int_to_string lookup
    read_key offset load16 load32 ether_type ip_hl ip_p ip_src ip_dst l4_source l4_dest
frame_filter = record {
  filter = record { prefix = codes "/IP/TCP/pre/10.0.0.2"; pre = true; tcp = true };
  there = refl;
  pre = refl;
  tcp = refl;
  matched = refl;
}

frame-delivered_example :
    (run forwarder reference reference_sockets (asks 0 2 ∷ brings 0 0 ∷ []) (record near {
      sender = (handle_read false frame_poll [] 1000 [] idle_host).0;
    })).receiver.sent
    ≡ []
      ++ record {
        buffer = bytes_of (ip_of tcp_frame) (54 - 14);
        address = ip_dst (ip_of tcp_frame);
      }
        ∷ []
frame-delivered_example =
    frame-delivered forwarder reference reference_sockets tcp_frame frame_poll [] 1000 [] 2 near
      sample_frame tt (omega (arith, frame_number)) frame_filter

-- The sample frame as one of ICMP, with its IP header's checksum right again.
abbrev icmp_bytes : List ℕ
icmp_bytes =
    0 ∷ 0 ∷ 0 ∷ 0 ∷ 0 ∷ 0 ∷ 0 ∷ 0 ∷ 0 ∷ 0 ∷ 0 ∷ 0 ∷ 0x08 ∷ 0x00 ∷ 0x45 ∷ 0x00 ∷ 0x00 ∷ 0x28 ∷ 0x00
    ∷ 0x00 ∷ 0x00 ∷ 0x00 ∷ 0x40 ∷ 0x01 ∷ 0x66 ∷ 0xd3 ∷ 10 ∷ 0 ∷ 0 ∷ 1 ∷ 10 ∷ 0 ∷ 0 ∷ 2 ∷ 8 ∷ []

abbrev icmp_frame : Memory
icmp_frame = byte_at icmp_bytes

abbrev icmp_poll : Poll
icmp_poll = record { ret = 1; packet = some icmp_frame; caplen = 54; len = 54 }

icmp_valid : (frame_status icmp_frame 54).1 ≡ valid
unfolding frame_status link_level ip_level transport_level offset load16 ether_type ip_hl ip_v ip_p
    tcp_doff in_chksum_ip fold fold_high add_words fold_all ntohs
icmp_valid = refl

icmp_sample : IsOtherFrame icmp_poll icmp_frame
unfolding offset load16 ether_type ip_p ntohs
icmp_sample = record {
  has_packet = record { positive = (omega arith, omega arith); there = refl };
  bytes = bytes_below icmp_bytes (omega arith);
  whole = (frame_status-valid icmp_frame 54 (omega arith)).0 icmp_valid;
  unported = refl;
  long = omega arith;
  short = omega arith;
}

icmp_filter :
    IsOtherFilter forwarder
      (uuid_pre_name (frame_tuple icmp_frame icmp_poll 1000 idle_host) (codes "ab-cd"))
      0
      near.receiver
unfolding component_prefix build_name dotted to_string ntohs ntohl read_key offset load16 load32
    ether_type ip_hl ip_p ip_src ip_dst
icmp_filter = record {
  filter = record { prefix = codes "/IP/pre/10.0.0.2"; pre = true; tcp = false };
  there = refl;
  pre = refl;
  tcp = refl;
  matched = refl;
}

other_frame-delivered_example :
    (run forwarder reference reference_sockets (asks 0 0 ∷ brings 0 0 ∷ []) (record near {
      sender = (handle_read false icmp_poll [] 1000 (codes "ab-cd") idle_host).0;
    })).receiver.sent
    ≡ []
      ++ record {
        buffer = bytes_of (ip_of icmp_frame) (54 - 14);
        address = ip_dst (ip_of icmp_frame);
      }
        ∷ []
other_frame-delivered_example =
    other_frame-delivered forwarder reference reference_sockets icmp_frame icmp_poll [] 1000
      (codes "ab-cd") 0 near icmp_sample (omega arith) icmp_filter
