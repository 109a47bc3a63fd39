-- ===== src/Main/Safety.antt =====
-- What holds at the end of main (main.cpp), however it ends: the pointers that handlers ran with, and
-- the handles that are given back.
use ip_ndn_stack_cpp.Prelude.{
  ℕ, ◌≡◌, refl, sym, ap, ◌∙◌, List, [], Bool, true, false, Option, All, not,
}
use mathlib.Core.Path.{subst}
use ip_ndn_stack_cpp.Text.{Bytes}
use ip_ndn_stack_cpp.Device.{
  Libpcap, Device, Config, Result, ok, error, no_device, construct, attach, destroy_on_error,
  open_handle,
}
use ip_ndn_stack_cpp.Device
use ip_ndn_stack_cpp.Device.Balance.{IsBalanced, is_ok, close-IsBalanced}
use ip_ndn_stack_cpp.Settings.{JsonCpp, Startup, done, throws, exits, blocks, pcap_settings}
use ip_ndn_stack_cpp.Capture.{Host}
use ip_ndn_stack_cpp.Capture.Loop.{Capturer, Completion, complete, async_read}
use ip_ndn_stack_cpp.Capture.Loop
use ip_ndn_stack_cpp.Main.Construct.{System, construct_ndn}
use ip_ndn_stack_cpp.Main.Pointers.{
  bind_cache_helper, bind_pending_interest_map, bind_prefix_guest_table, bind_capture_cache_helper,
  bind_pending_interest_table, bind_sequence_table, bind_ndn_helper,
}
use ip_ndn_stack_cpp.Main.{
  Process, blocks_while, service_returns, continue, update, ◌>>◌, after_ndn, open_lib_pcap,
  make_lib_pcap, deal_ndn, assigned, init_addresses, bind_tables, run_both, close_capture, destroy,
  scope, try_block, end_of, main, with_device, join_thread, join_ndn,
}
use ip_ndn_stack_cpp.Main.Outcome.{
  begin, bound_ndn, bound_capture, IsBound, IsReleased, IsSafe, Ends, close-IsReleased,
  start-device, close-device,
}
use ip_ndn_stack_cpp.Main.Opening.{Opens, with_settings-Opens}

module _ (lib : Libpcap) (sys : System) (json : JsonCpp) (files : Bytes → Option Bytes)
    (path : Bytes) where
  run_both-device :
      (accepts : Bytes → Bool) (before after : List Completion) (p : Process)
      → (run_both lib sys json files path accepts before after p).capturer.device
        ≡ p.capturer.device
  unfolding deal_ndn
  run_both-device accepts before after p =
      start-device after (deal_ndn accepts (Loop.start before p.capturer))
      ∙ start-device before p.capturer

  -- The end of the scope, whether the service and the joins return or not.
  service-Ends :
      (waits serves stays : Bool) (p : Process)
      → IsReleased (Device.close (Loop.close p.capturer).device)
      → All IsBound p.events
      → Ends (
          destroy lib sys json files path (
            continue
              (λ _.
                blocks_while lib sys json files path serves
                >> (blocks_while lib sys json files path stays
                    >> update (close_capture lib sys json files path)))
              (blocks_while lib sys json files path waits p)))
  unfolding Ends
  service-Ends true serves stays p r bound = bound
  service-Ends false true stays p r bound = bound
  service-Ends false false true p r bound = bound
  service-Ends false false false p r bound = (r, bound)

  -- The statements after the tables are bound.
  after_init-Ends :
      (accepts : Bytes → Bool) (before after : List Completion) (x : Startup (Unit {0}) × Process)
      → IsBalanced x.1.capturer.device
      → x.1.ndn_pointers ≡ bound_ndn
      → x.1.capture_pointers ≡ bound_capture
      → x.1.events ≡ []
      → Ends (
          destroy lib sys json files path (
            continue
              (λ _.
                update (run_both lib sys json files path accepts before after)
                >> (service_returns lib sys json files path
                    >> (join_thread lib sys json files path
                        >> (join_ndn lib sys json files path
                            >> update (close_capture lib sys json files path)))))
              x))
  unfolding Ends IsBound
  after_init-Ends accepts before after (done u, p) b n c none_yet =
      let d = p.capturer.device in
      let ran = run_both lib sys json files path accepts before after p in
      let closed =
        close-device ran.capturer ∙ ap Device.close (run_both-device accepts before after p) in
      service-Ends ran.capturer.waiting (not sys.face_returns) (not sys.join_returns) ran
        (subst IsReleased (sym (ap Device.close closed))
          (close-IsReleased (Device.close d) (close-IsBalanced d b)))
        (rw (none_yet, n, c) (refl, ((refl, refl), tt)))
  after_init-Ends accepts before after (throws, p) b n c none_yet =
      (close-IsReleased p.capturer.device b, rw none_yet tt)
  after_init-Ends accepts before after (exits, p) b n c none_yet = rw none_yet tt
  after_init-Ends accepts before after (blocks, p) b n c none_yet = rw none_yet tt

  -- The scope of the capture, after its construction ended so.
  scope-Ends :
      (accepts : Bytes → Bool) (before after : List Completion) (h : Host) (x : Startup ℕ × Device)
      → Opens lib sys json files path x
      → Ends (
          continue
            (λ fd q.
              destroy lib sys json files path
                (scope lib sys json files path accepts before after q))
            (x.0, with_device x.1 (begin h)))
  unfolding Ends Opens bind_cache_helper bind_pending_interest_map bind_prefix_guest_table
      bind_capture_cache_helper bind_pending_interest_table bind_sequence_table bind_ndn_helper
      async_read
  scope-Ends accepts before after h (done fd, d) b =
      after_init-Ends accepts before after
        (init_addresses lib sys json files path (
          bind_tables lib sys json files path
            (assigned lib sys json files path (with_device d (begin h)))))
        b refl refl refl
  scope-Ends accepts before after h (throws, d) b = (b, tt)
  scope-Ends accepts before after h (exits, d) b = tt
  scope-Ends accepts before after h (blocks, d) b = tt

  after_ndn-Ends :
      (o : Startup (Unit {0})) (accepts : Bytes → Bool) (before after : List Completion) (h : Host)
      → ((c : Config)
          → pcap_settings json files path ≡ done c
          → is_ok (construct lib c no_device).0 ≡ true)
      → Ends (after_ndn lib sys json files path o accepts before after (begin h))
  unfolding Ends make_lib_pcap open_lib_pcap
  after_ndn-Ends (done u) accepts before after h constructs =
      scope-Ends accepts before after h (open_lib_pcap lib sys json files path no_device)
        (with_settings-Opens lib sys json files path (pcap_settings json files path) constructs)
  after_ndn-Ends throws accepts before after h constructs =
      (record { handle = refl; handles = refl; programs = refl }, tt)
  after_ndn-Ends exits accepts before after h constructs = tt
  after_ndn-Ends blocks accepts before after h constructs = tt

  end-IsSafe :
      (x : Startup (Unit {0}) × Process) → Ends x → IsSafe (end_of lib sys json files path x.0, x.1)
  unfolding Ends IsSafe end_of
  end-IsSafe (done u, p) h = h
  end-IsSafe (throws, p) h = h
  end-IsSafe (exits, p) h = h
  end-IsSafe (blocks, p) h = h

  -- If PcapHelper's constructor does not throw where the settings are read, then whatever else libpcap,
  -- the system, the settings, the face and the reads give, main starts the thread and the capture only
  -- with every pointer of the two helpers set to the table that is meant; and where it returns, after
  -- another exception too, no handle is held and every handle and compiled filter was given back.
  pub main-IsSafe :
      (accepts : Bytes → Bool) (before after : List Completion) (h : Host)
      → ((c : Config)
          → pcap_settings json files path ≡ done c
          → is_ok (construct lib c no_device).0 ≡ true)
      → IsSafe (main lib sys json files path accepts before after (begin h))
  unfolding main try_block
  main-IsSafe accepts before after h constructs =
      end-IsSafe (try_block lib sys json files path accepts before after (begin h))
        (after_ndn-Ends (construct_ndn sys) accepts before after h constructs)
