-- ===== src/Device/Examples.antt =====
-- A libpcap that grants everything, one that refuses the snapshot length, and a read that times out.
use ip_ndn_stack_cpp.Prelude.{◌≡◌, refl, [], true, false, none, ◌+◌, arith}
use ip_ndn_stack_cpp.Text.{codes}
use ip_ndn_stack_cpp.Capture.{Poll}
use ip_ndn_stack_cpp.Device.{Libpcap, Config, close, construct, no_device, open_capture}
use ip_ndn_stack_cpp.Device.Balance.{IsBalanced, is_ok, open_capture-IsBalanced, construct-leaks}
use ip_ndn_stack_cpp.Device.Reads.{IsPoll}

abbrev pub granting : Libpcap
granting = record {
  creates = λ name. true;
  set_immediate_mode = 0;
  set_snaplen = λ n. 0;
  set_buffer_size = λ n. 0;
  activate = 0;
  set_datalink = λ n. 0;
  setdirection = 0;
  compile = λ text. 0;
  setfilter = λ text. 0;
  selectable_fd = 5;
  dup = λ fd. fd + 1;
  stats = 0;
  dropped = 0;
  errbuf = [];
  last_error = codes "none";
  statustostr = λ n. [];
}

-- pcap_set_snaplen returns -4.
abbrev refusing : Libpcap
refusing = record granting { set_snaplen = λ n. 4294967292 }

abbrev config : Config
config = record {
  pcap_if = codes "eth0";
  pcap_buf_size = 1000;
  pcap_snap_len = 9000;
  pcap_dstmac = codes "ip";
}

granted : is_ok (construct granting config no_device).0 ≡ true
unfolding construct
granted = refl

refused : is_ok (construct refusing config no_device).0 ≡ false
unfolding construct
refused = refl

open_capture-IsBalanced_example :
    ((open_capture granting config no_device).1.handle
      ≡ is_ok (open_capture granting config no_device).0)
    × IsBalanced (open_capture granting config no_device).1
    × ((close (close (open_capture granting config no_device).1)).closed
        ≡ (close (close (open_capture granting config no_device).1)).created)
open_capture-IsBalanced_example = open_capture-IsBalanced granting config granted

construct-leaks_example :
    (is_ok (open_capture refusing config no_device).0 ≡ false)
    × ((open_capture refusing config no_device).1.created ≡ 1)
    × ((open_capture refusing config no_device).1.closed ≡ 0)
construct-leaks_example = construct-leaks refusing config refl refused

abbrev timeout : Poll
timeout = record { ret = 0; packet = none; caplen = 0; len = 0 }

timeout-IsPoll : IsPoll timeout
timeout-IsPoll = record { captured = λ p q. absurd (omega arith); nothing = λ e. refl }
