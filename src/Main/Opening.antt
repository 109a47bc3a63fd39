-- ===== src/Main/Opening.antt =====
-- How the construction of LibPcapHelper (helper/LibPcapHelper.cpp) in main ends.
use ip_ndn_stack_cpp.Prelude.{ℕ, ◌≡◌, refl, sym, true, Option}
use mathlib.Core.Path.{subst}
use ip_ndn_stack_cpp.Text.{Bytes}
use ip_ndn_stack_cpp.Device.{
  Libpcap, Device, Config, Result, ok, error, no_device, construct, attach, destroy_on_error,
}
use ip_ndn_stack_cpp.Device.Balance.{IsBalanced, is_ok, attach-Keeps, construct-opens}
use ip_ndn_stack_cpp.Settings.{JsonCpp, Startup, done, throws, exits, blocks, packet_filter}
use ip_ndn_stack_cpp.Main.Construct.{System, open_raw_socket}
use ip_ndn_stack_cpp.Main.{
  startup_of, with_filter, after_raw_socket, after_construct, with_settings,
}
use ip_ndn_stack_cpp.Main.Outcome.{IsReleased, close-IsReleased}

module _ (lib : Libpcap) (sys : System) (json : JsonCpp) (files : Bytes → Option Bytes)
    (path : Bytes) where
  -- How the constructor of LibPcapHelper ends.
  unfoldable pub Opens : Startup ℕ × Device → Type 0
  Opens (done fd, d) = IsBalanced d
  Opens (throws, d) = IsReleased d
  Opens (exits, d) = Unit
  Opens (blocks, d) = Unit

  attached-Opens :
      (x : Result ℕ × Device) → IsBalanced x.1 → Opens (startup_of (destroy_on_error lib x))
  unfolding Opens
  attached-Opens (ok fd, d) b = b
  attached-Opens (error e, d) b = close-IsReleased d b

  with_filter-Opens :
      (c : Config) (o : Startup Bytes) (d : Device)
      → IsBalanced d
      → Opens (with_filter lib sys json files path c o d)
  unfolding Opens
  with_filter-Opens c (done filter) d b =
      let c' = record c { pcap_dstmac = filter } in
      attached-Opens (attach lib c' d) ((attach-Keeps lib c' d).balance b)
  with_filter-Opens c throws d b = close-IsReleased d b
  with_filter-Opens c exits d b = tt
  with_filter-Opens c blocks d b = tt

  after_raw_socket-Opens :
      (c : Config) (o : Startup ℕ) (d : Device)
      → IsBalanced d
      → Opens (after_raw_socket lib sys json files path c o d)
  unfolding Opens
  after_raw_socket-Opens c (done sockfd) d b =
      with_filter-Opens c (packet_filter json files path) d b
  after_raw_socket-Opens c throws d b = close-IsReleased d b
  after_raw_socket-Opens c exits d b = tt
  after_raw_socket-Opens c blocks d b = tt

  after_construct-Opens :
      (c : Config) (x : Result (Unit {0}) × Device)
      → is_ok x.0 ≡ true
      → IsBalanced x.1
      → Opens (after_construct lib sys json files path c x)
  after_construct-Opens c (ok u, d) h b = after_raw_socket-Opens c (open_raw_socket sys) d b
  after_construct-Opens c (error e, d) h b = cc

  pub with_settings-Opens :
      (o : Startup Config)
      → ((c : Config) → o ≡ done c → is_ok (construct lib c no_device).0 ≡ true)
      → Opens (with_settings lib sys json files path o no_device)
  unfolding Opens
  with_settings-Opens (done c) h =
      let constructed = h c refl in
      after_construct-Opens c (construct lib c no_device) constructed (
        subst IsBalanced (sym (construct-opens lib c constructed))
          (record { handles = refl; programs = refl }))
  with_settings-Opens throws h = record { handle = refl; handles = refl; programs = refl }
  with_settings-Opens exits h = tt
  with_settings-Opens blocks h = tt
