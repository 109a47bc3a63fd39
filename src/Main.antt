-- ===== src/Main.antt =====
-- The program's main (main.cpp): the construction of the helpers, the tables that they are bound to,
-- the thread of the NDN side beside the capture, and the end. argv[1] is given.
pub mod Pointers
pub mod Construct
pub mod Outcome
pub mod Opening
pub mod Safety
pub mod Runs
pub mod Examples
use ip_ndn_stack_cpp.Prelude.{ℕ, List, [], ◌∷◌, ◌++◌, Bool, true, false, not, Option}
use ip_ndn_stack_cpp.Text.{Bytes}
use ip_ndn_stack_cpp.Ndn.State.{Ndn}
use ip_ndn_stack_cpp.Ndn.Handlers
use ip_ndn_stack_cpp.Device.{
  Libpcap, Device, Config, Result, ok, error, construct, attach, destroy_on_error,
}
use ip_ndn_stack_cpp.Device
use ip_ndn_stack_cpp.Settings.{
  JsonCpp, Startup, done, throws, exits, blocks, pcap_settings, packet_filter, init_ndn,
}
use ip_ndn_stack_cpp.Capture.Loop.{Capturer, Completion, async_read}
use ip_ndn_stack_cpp.Capture.Loop
use ip_ndn_stack_cpp.Main.Construct.{System, open_raw_socket, construct_ndn}
use ip_ndn_stack_cpp.Main.Pointers.{
  NdnPointers, CapturePointers, bind_cache_helper, bind_pending_interest_map,
  bind_prefix_guest_table, bind_capture_cache_helper, bind_pending_interest_table,
  bind_sequence_table, bind_ndn_helper, ndn_helper_local, cache_helper_local,
  pending_interest_map_local, sequence_table_local, prefix_request_table_local,
}

-- What starts to run handlers, and what the pointers are by then.
pub data Event : Type 0 where
  thread_starts : NdnPointers → Event
  service_runs : NdnPointers → CapturePointers → Event

pub record Process : Type 0 where
  pub ndn_pointers : NdnPointers
  pub capture_pointers : CapturePointers
  pub capturer : Capturer
  pub events : List Event

-- How main ends: it returns 0, after an exception too, or some constructor calls exit; or it is still
-- waiting for reads or in a join.
pub data End : Type 0 where
  returned : End
  exited : End
  running : End

abbrev pub M : Type 0 → Type 0
M A = Process → Startup A × Process

abbrev pub continue : {A B : Type 0} → (A → M B) → Startup A × Process → Startup B × Process
continue f (done a, p) = f a p
continue f (throws, p) = (throws, p)
continue f (exits, p) = (exits, p)
continue f (blocks, p) = (blocks, p)

infixl 5 ◌>>=◌ ◌>>◌
abbrev pub ◌>>=◌ : {A B : Type 0} → M A → (A → M B) → M B
◌>>=◌ m f p = continue f (m p)

abbrev pub ◌>>◌ : {B : Type 0} → M (Unit {0}) → M B → M B
m >> k = m >>= λ _. k

abbrev pub update : (Process → Process) → M (Unit {0})
update f p = (done tt, f p)

abbrev pub with_device : Device → Process → Process
with_device d p = record p { capturer = record p.capturer { device = d } }

abbrev pub with_ndn : Ndn → Process → Process
with_ndn s p = record p {
  capturer = record p.capturer { host = record p.capturer.host { ndn = s } };
}

-- dealNDN, up to the event loop of the face.
unfoldable pub deal_ndn : (Bytes → Bool) → Capturer → Capturer
deal_ndn accepts c = record c { host = record c.host { ndn = Handlers.start accepts c.host.ndn } }

abbrev pub startup_of : {A : Type 0} → Result A × Device → Startup A × Device
startup_of (ok a, d) = (done a, d)
startup_of (error e, d) = (throws, d)

module _ (lib : Libpcap) (sys : System) (json : JsonCpp) (files : Bytes → Option Bytes)
    (path : Bytes) where
  -- The body of LibPcapHelper's constructor, after `mPcap` is there: an exception destroys that.
  abbrev pub with_filter : Config → Startup Bytes → Device → Startup ℕ × Device
  with_filter c (done filter) d =
      startup_of (destroy_on_error lib (attach lib (record c { pcap_dstmac = filter }) d))
  with_filter c throws d = (throws, Device.close d)
  with_filter c exits d = (exits, d)
  with_filter c blocks d = (blocks, d)

  abbrev pub after_raw_socket : Config → Startup ℕ → Device → Startup ℕ × Device
  after_raw_socket c (done sockfd) d = with_filter c (packet_filter json files path) d
  after_raw_socket c throws d = (throws, Device.close d)
  after_raw_socket c exits d = (exits, d)
  after_raw_socket c blocks d = (blocks, d)

  abbrev pub after_construct : Config → Result (Unit {0}) × Device → Startup ℕ × Device
  after_construct c (ok u, d) = after_raw_socket c (open_raw_socket sys) d
  after_construct c (error e, d) = (throws, d)

  abbrev pub with_settings : Startup Config → Device → Startup ℕ × Device
  with_settings (done c) d = after_construct c (construct lib c d)
  with_settings throws d = (throws, d)
  with_settings exits d = (exits, d)
  with_settings blocks d = (blocks, d)

  -- The constructor of LibPcapHelper, with the settings read.
  unfoldable pub open_lib_pcap : Device → Startup ℕ × Device
  open_lib_pcap d = with_settings (pcap_settings json files path) d

  unfoldable pub make_lib_pcap : M ℕ
  make_lib_pcap p = let (fd, d) = open_lib_pcap p.capturer.device in (fd, with_device d p)

  -- The socket is assigned the descriptor, and a read waited for.
  abbrev pub assigned : Process → Process
  assigned p = record p { capturer = async_read (record p.capturer { socket_open = true }) }

  abbrev pub init_addresses : M (Unit {0})
  init_addresses p = let (r, s) = init_ndn json files path p.capturer.host.ndn in (r, with_ndn s p)

  -- The statements that bind the helpers to the tables.
  abbrev pub bind_tables : Process → Process
  bind_tables p =
      let n1 = bind_cache_helper cache_helper_local p.ndn_pointers in
      let n2 = bind_pending_interest_map pending_interest_map_local n1 in
      let n3 = bind_prefix_guest_table prefix_request_table_local n2 in
      let c1 = bind_capture_cache_helper cache_helper_local p.capture_pointers in
      let c2 = bind_pending_interest_table pending_interest_map_local c1 in
      let c3 = bind_sequence_table sequence_table_local c2 in
      let c4 = bind_ndn_helper ndn_helper_local c3 in
      record p { ndn_pointers = n3; capture_pointers = c4 }

  -- The thread of the NDN side sets its filters after the reads `before`; the capture goes on with
  -- the reads `after`. No interest and no data comes meanwhile: the turns that handlers take beside
  -- the reads are those of Capture/Turns.
  abbrev pub run_both : (Bytes → Bool) → List Completion → List Completion → Process → Process
  run_both accepts before after p = record p {
    events =
        p.events
        ++ thread_starts p.ndn_pointers ∷ service_runs p.ndn_pointers p.capture_pointers ∷ [];
    capturer = Loop.start after (deal_ndn accepts (Loop.start before p.capturer));
  }

  -- service.run returns once nothing is waited for.
  abbrev pub blocks_while : Bool → M (Unit {0})
  blocks_while true p = (blocks, p)
  blocks_while false p = (done tt, p)

  abbrev pub service_returns : M (Unit {0})
  service_returns p = blocks_while p.capturer.waiting p

  -- t.join(): the thread of the NDN side returns when the event loop of the face does.
  abbrev pub join_thread : M (Unit {0})
  join_thread p = blocks_while (not sys.face_returns) p

  -- NDNHelper::join.
  abbrev pub join_ndn : M (Unit {0})
  join_ndn p = blocks_while (not sys.join_returns) p

  abbrev pub close_capture : Process → Process
  close_capture p = record p { capturer = Loop.close p.capturer }

  -- The end of the scope of `libPcapHelper`, by an exception too.
  abbrev pub destroy : Startup (Unit {0}) × Process → Startup (Unit {0}) × Process
  destroy (done u, p) = (done u, with_device (Device.close p.capturer.device) p)
  destroy (throws, p) = (throws, with_device (Device.close p.capturer.device) p)
  destroy (exits, p) = (exits, p)
  destroy (blocks, p) = (blocks, p)

  -- The scope of `libPcapHelper`, from its construction on.
  abbrev pub scope : (Bytes → Bool) → List Completion → List Completion → M (Unit {0})
  scope accepts before after = do
    update assigned
    update bind_tables
    init_addresses
    update (run_both accepts before after)
    service_returns
    join_thread
    join_ndn
    update close_capture

  abbrev pub after_ndn :
      Startup (Unit {0}) → (Bytes → Bool) → List Completion → List Completion → M (Unit {0})
  after_ndn (done u) accepts before after p =
      continue (λ fd q. destroy (scope accepts before after q)) (make_lib_pcap p)
  after_ndn throws accepts before after p = (throws, p)
  after_ndn exits accepts before after p = (exits, p)
  after_ndn blocks accepts before after p = (blocks, p)

  unfoldable pub try_block : (Bytes → Bool) → List Completion → List Completion → M (Unit {0})
  try_block accepts before after = after_ndn (construct_ndn sys) accepts before after

  unfoldable pub end_of : Startup (Unit {0}) → End
  end_of (done u) = returned
  end_of throws = returned
  end_of exits = exited
  end_of blocks = running

  unfoldable pub main : (Bytes → Bool) → List Completion → List Completion → Process → End × Process
  main accepts before after p = let (r, p') = try_block accepts before after p in (end_of r, p')
