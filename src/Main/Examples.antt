-- ===== src/Main/Examples.antt =====
-- A run of main on a granting libpcap and a list of addresses: two captured packets of a flow, and a
-- read that fails.
use ip_ndn_stack_cpp.Prelude.{
  ◌≡◌, refl, bytes_eq, [], ◌∷◌, ◌++◌, List, true, not, ◌&&◌, some, arith,
}
use ip_ndn_stack_cpp.Text.{codes}
use ip_ndn_stack_cpp.Device.{
  Device, Config, construct, no_device, attach, activate, set_packet_filter, get_fd,
}
use ip_ndn_stack_cpp.Device.Balance.{is_ok}
use ip_ndn_stack_cpp.Device.Examples.{granting}
use ip_ndn_stack_cpp.Settings.{
  done, pcap_settings, packet_filter, load, get, get_string, get_int, ◌>>=◌, or_throw,
}
use ip_ndn_stack_cpp.Settings.Examples.{
  item, reads, settings, listed, two_addresses, one_file, config_path, listed-addresses,
  listed-HasTexts,
}
use ip_ndn_stack_cpp.Ndn.Delivery.{all_accepted}
use ip_ndn_stack_cpp.Capture.Examples.{idle_host}
use ip_ndn_stack_cpp.Capture.Turns.Examples.{frame_read, failed_read}
use ip_ndn_stack_cpp.Capture.Fresh.{published_names, expected_names}
use ip_ndn_stack_cpp.Capture.Loop.{Completion, no_error, before_error, captured}
use ip_ndn_stack_cpp.Main.{open_lib_pcap, main}
use ip_ndn_stack_cpp.Main.Construct.{System, construct_ndn, open_raw_socket}
use ip_ndn_stack_cpp.Main.Outcome.{begin, IsSafe}
use ip_ndn_stack_cpp.Main.Safety.{main-IsSafe}
use ip_ndn_stack_cpp.Main.Runs.{returns_if, main-publishes}

abbrev all_reads : List Completion
all_reads = frame_read ∷ frame_read ∷ failed_read ∷ []

abbrev privileged : System
privileged = record {
  socket = 3;
  setsockopt = λ fd. 0;
  face_opens = true;
  key_chain_opens = true;
  face_returns = true;
  join_returns = true;
}

made : construct_ndn privileged ≡ done tt
unfolding construct_ndn open_raw_socket ◌>>=◌
made = refl

constructs : (c : Config) → is_ok (construct granting c no_device).0 ≡ true
unfolding construct
constructs c = refl

main-IsSafe_example : IsSafe (
    main granting privileged
      (reads (settings listed))
      one_file
      config_path
      (λ prefix. true)
      (frame_read ∷ [])
      (frame_read ∷ failed_read ∷ [])
      (begin idle_host))
main-IsSafe_example =
    main-IsSafe granting privileged (reads (settings listed)) one_file config_path (λ prefix. true)
      (frame_read ∷ []) (frame_read ∷ failed_read ∷ []) idle_host (λ c e. constructs c)

abbrev opened : Device
opened = record {
  handle = true;
  created = 1;
  closed = 0;
  compiled = 1;
  freed = 1;
  active = true;
  filter = some (codes "ip");
}

opens :
    open_lib_pcap granting privileged (reads (settings listed)) one_file config_path no_device
    ≡ (done 6, opened)
unfolding open_lib_pcap open_raw_socket pcap_settings packet_filter load get get_string get_int
    ◌>>=◌ or_throw construct attach activate set_packet_filter get_fd bytes_eq
opens = refl

main-publishes_example :
    ((main granting privileged
        (reads (settings listed))
        one_file
        config_path
        (λ prefix. true)
        (frame_read ∷ [])
        (frame_read ∷ failed_read ∷ [])
        (begin idle_host)).0
      ≡ returns_if
          (not (no_error all_reads) && (privileged.face_returns && privileged.join_returns)))
    × (published_names
          (main granting privileged
            (reads (settings listed))
            one_file
            config_path
            (λ prefix. true)
            (frame_read ∷ [])
            (frame_read ∷ failed_read ∷ [])
            (begin idle_host)).1.capturer.host
        ≡ expected_names [] (captured (before_error all_reads) idle_host.globals))
    × ((main granting privileged
          (reads (settings listed))
          one_file
          config_path
          (λ prefix. true)
          (frame_read ∷ [])
          (frame_read ∷ failed_read ∷ [])
          (begin idle_host)).1.capturer.host.ndn.filters
        ≡ idle_host.ndn.filters
          ++ all_accepted (λ prefix. true) (idle_host.ndn.register_ip ++ two_addresses))
main-publishes_example =
    main-publishes granting privileged (reads (settings listed)) one_file config_path
      (λ prefix. true) (frame_read ∷ []) (frame_read ∷ failed_read ∷ []) idle_host 6 opened
      (item listed) two_addresses made opens listed-addresses refl listed-HasTexts refl refl
      (omega arith)
