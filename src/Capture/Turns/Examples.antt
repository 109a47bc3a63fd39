-- ===== src/Capture/Turns/Examples.antt =====
-- Two captured packets of a flow and a read that fails, with a pre-request and data in between.
use ip_ndn_stack_cpp.Prelude.{◌≡◌, refl, [], ◌∷◌, List, true, false, some, arith}
use ip_ndn_stack_cpp.Text.{codes}
use ip_ndn_stack_cpp.Boost.Reference.{reference}
use ip_ndn_stack_cpp.Device.{no_device}
use ip_ndn_stack_cpp.Packet.Examples.{tcp_frame}
use ip_ndn_stack_cpp.Ndn.Sockets.{reference_sockets}
use ip_ndn_stack_cpp.Capture.Examples.{idle_host}
use ip_ndn_stack_cpp.Capture.Fresh.{published_names, expected_names}
use ip_ndn_stack_cpp.Capture.Loop.{Completion, Capturer, start, before_error, captured}
use ip_ndn_stack_cpp.Capture.Turns.{
  Turn, read_completes, interest_arrives, data_arrives, reads_of, take_turns, handler_turns,
}
use ip_ndn_stack_cpp.Capture.Turns.Capturing.{take_turns-publishes}
use ip_ndn_stack_cpp.Capture.Turns.Sending.{take_turns-sent}

abbrev pub frame_read : Completion
frame_read = record {
  error = false;
  poll = record { ret = 1; packet = some tcp_frame; caplen = 54; len = 54 };
  last_error = [];
  now = 1000;
  uuid = codes "ab";
}

abbrev pub failed_read : Completion
failed_read = record frame_read { error = true }

abbrev waiting_capturer : Capturer
waiting_capturer = record {
  host = idle_host;
  socket_open = true;
  waiting = true;
  device = no_device;
}

abbrev turns : List Turn
turns =
    read_completes frame_read
    ∷ interest_arrives (codes "/IP/TCP/pre/1.2.3.4/192.168.72.83/80-4660-1") true true
    ∷ read_completes frame_read
    ∷ data_arrives (codes "/IP/TCP/1.2.3.4/192.168.72.83/80-4660-1") (1 ∷ 2 ∷ 3 ∷ []) false true
    ∷ read_completes failed_read
    ∷ []

few_reads : reads_of turns ≡ frame_read ∷ frame_read ∷ failed_read ∷ []
unfolding reads_of
few_reads = refl

take_turns-publishes_example :
    ((take_turns reference_sockets reference turns waiting_capturer).host.ndn.published
      ≡ (start (reads_of turns) waiting_capturer).host.ndn.published)
    × (published_names (take_turns reference_sockets reference turns waiting_capturer).host
        ≡ expected_names [] (captured (before_error (reads_of turns)) idle_host.globals))
take_turns-publishes_example =
    take_turns-publishes reference_sockets reference turns waiting_capturer refl refl refl
      (rw few_reads omega arith)

take_turns-sent_example :
    (take_turns reference_sockets reference turns waiting_capturer).host.ndn.sent
    ≡ (handler_turns reference_sockets reference turns idle_host.ndn).sent
take_turns-sent_example =
    take_turns-sent reference_sockets reference turns waiting_capturer idle_host.ndn refl
