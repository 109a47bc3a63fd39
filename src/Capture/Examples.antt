-- ===== src/Capture/Examples.antt =====
-- The theorems on the capturing side, at two packets of the sample flow and at a blank frame.
use ip_ndn_stack_cpp.Prelude.{◌≡◌, refl, List, [], ◌∷◌, ◌++◌, true, some, arith}
use ip_ndn_stack_cpp.Text.{Bytes}
use ip_ndn_stack_cpp.Boost.Reference.{reference}
use ip_ndn_stack_cpp.Tuple.{Tuple}
use ip_ndn_stack_cpp.Naming.Examples.{sample_flow-IsFlow}
use ip_ndn_stack_cpp.Table.{lookup}
use ip_ndn_stack_cpp.Ndn.State.{Request}
use ip_ndn_stack_cpp.Ndn.Handlers.{on_interest}
use ip_ndn_stack_cpp.Ndn.Rounds.{AllDiffer, tcp_request}
use ip_ndn_stack_cpp.Ndn.Examples.{idle_ndn}
use ip_ndn_stack_cpp.Packet.Examples.{byte_at, blank_tuple, fresh_globals}
use ip_ndn_stack_cpp.Capture.{Host, Poll, deal}
use ip_ndn_stack_cpp.Capture.Numbering.{next_number}
use ip_ndn_stack_cpp.Capture.Fresh.{deal_all, published_names, deal_all-AllDiffer}
use ip_ndn_stack_cpp.Capture.Exchange.{Announces, announced-asked}

abbrev pub idle_host : Host
idle_host = record { ndn = idle_ndn; sequence_table = []; globals = fresh_globals }

-- A packet of the sample flow.
abbrev pub sample_packet : Tuple
sample_packet = record blank_tuple {
  key = record {
    src_ip = 0x5348_a8c0;
    dst_ip = 0x0403_0201;
    src_port = 80;
    dst_port = 4660;
    proto = 6;
  };
  pkt = some (byte_at []);
  ip_size = 40;
}

abbrev history : List (Bytes × Tuple)
history = ([], sample_packet) ∷ ([], sample_packet) ∷ []

deal_all-AllDiffer_example : AllDiffer (published_names (deal_all history idle_host))
deal_all-AllDiffer_example =
    deal_all-AllDiffer history idle_host refl refl (omega arith)
      ((refl, sample_flow-IsFlow), ((refl, sample_flow-IsFlow), tt))

first_number : next_number sample_packet idle_host ≡ 1
unfolding lookup
first_number = refl

announced-asked_example :
    (data_name : Bytes) × (pre_name : Bytes) × (guesses : List Request) × Announces idle_host
      (deal [] sample_packet idle_host)
      data_name
      pre_name
      sample_packet
    × ((on_interest reference pre_name true true idle_ndn).1.expressed
        ≡ [] ++ (tcp_request data_name ∷ guesses))
announced-asked_example =
    announced-asked reference [] sample_packet idle_host idle_ndn tt refl sample_flow-IsFlow
      (omega (arith, first_number))

abbrev blank_poll : Poll
blank_poll = record { ret = 1; packet = some (byte_at []); caplen = 60; len = 60 }

abbrev short_poll : Poll
short_poll = record { ret = 1; packet = some (byte_at []); caplen = 9; len = 9 }
