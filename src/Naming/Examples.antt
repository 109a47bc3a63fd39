-- ===== src/Naming/Examples.antt =====
-- Runs of buildName, and the theorems on names at concrete flows.
use ip_ndn_stack_cpp.Prelude.{ℕ, ◌≡◌, refl, arith}
use ip_ndn_stack_cpp.Text.{codes, to_string}
use ip_ndn_stack_cpp.Word.{ntohs, ntohl, int_to_string}
use ip_ndn_stack_cpp.Naming.{build_name, build_4_tuple_key, dotted, flow_uid}
use ip_ndn_stack_cpp.Naming.Injective.{
  Flow, IsFlow, flow_key, flow_data_name, flow_data_name-injective,
}

-- 192.168.72.83 to 1.2.3.4, from port 80 to port 4660; ports as `decode` leaves them.
abbrev pub sample_flow : Flow
sample_flow = record { src_ip = 0x5348_a8c0; dst_ip = 0x0403_0201; src_port = 80; dst_port = 4660 }

pub sample_flow-IsFlow : IsFlow sample_flow
sample_flow-IsFlow = record {
  src_ip_fits = omega arith;
  dst_ip_fits = omega arith;
  src_port_fits = omega arith;
  dst_port_fits = omega arith;
}

data_name_run : flow_data_name sample_flow 7 ≡ codes "/IP/TCP/192.168.72.83/1.2.3.4/20480-13330-7"
unfolding build_name dotted flow_uid to_string ntohs ntohl int_to_string
data_name_run = refl

key_run : flow_key sample_flow ≡ codes "192.168.72.83/1.2.3.4/20480/13330"
unfolding build_4_tuple_key dotted to_string ntohs ntohl
key_run = refl

flow_data_name-injective_example : (sample_flow ≡ sample_flow) × (◌≡◌ {A = ℕ} 7 7)
flow_data_name-injective_example =
    flow_data_name-injective sample_flow sample_flow 7 7 sample_flow-IsFlow sample_flow-IsFlow
      (omega arith) (omega arith) refl
