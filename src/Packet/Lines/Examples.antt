-- ===== src/Packet/Lines/Examples.antt =====
-- A tuple that is printed and read back over another one.
use ip_ndn_stack_cpp.Prelude.{◌≡◌, arith}
use ip_ndn_stack_cpp.Capture.Examples.{sample_packet}
use ip_ndn_stack_cpp.Naming.Examples.{sample_flow-IsFlow}
use ip_ndn_stack_cpp.Packet.Examples.{blank_tuple}
use ip_ndn_stack_cpp.Packet.Lines.{print_tuple, read_tuple}
use ip_ndn_stack_cpp.Packet.Lines.RoundTrip.{read_tuple-print_tuple}

read_tuple-print_tuple_example :
    read_tuple (λ i. 7) (print_tuple sample_packet) blank_tuple
    ≡ record blank_tuple { key = sample_packet.key; size = sample_packet.size }
read_tuple-print_tuple_example =
    read_tuple-print_tuple (λ i. 7) sample_packet blank_tuple sample_flow-IsFlow (omega arith)
      (omega arith)
