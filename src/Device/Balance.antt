-- ===== src/Device/Balance.antt =====
-- Handles and compiled filters are given back as often as they were made, but for the handle of a
-- constructor that throws.
use ip_ndn_stack_cpp.Prelude.{ℕ, ◌+◌, ◌≡◌, refl, ap, ◌∙◌, Bool, true, false, arith, if◌then◌else◌}
use ip_ndn_stack_cpp.Text.{Bytes}
use ip_ndn_stack_cpp.Device.{
  Libpcap, Device, Config, Result, ok, error, M, continue, no_device, open_handle, destroy_on_error,
  close, construct, activate, set_packet_filter, get_fd, attach, open_capture,
}

-- The open handles are the one that the object holds, and no compiled filter is left.
pub record IsBalanced (d : Device) : Type 0 where
  pub handles : d.created ≡ d.closed + (if d.handle then 1 else 0)
  pub programs : d.compiled ≡ d.freed

pub close-IsBalanced : (d : Device) → IsBalanced d → IsBalanced (close d)
unfolding close
close-IsBalanced d b = ground arith

abbrev pub is_ok : {A : Type 0} → Result A → Bool
is_ok (ok a) = true
is_ok (error e) = false

-- What a device is like after calls that make no handle and give none back.
pub record Keeps (d d' : Device) : Type 0 where
  pub same_handle : d'.handle ≡ d.handle
  pub balance : IsBalanced d → IsBalanced d'

continue_ok :
    {A B : Type 0} (f : A → M B) (P : Result B × Device → Type 0) (x : Result A × Device)
    → is_ok x.0 ≡ true
    → ((a : A) → P (f a x.1))
    → P (continue f x)
continue_ok f P (ok a, d) h p = p a
continue_ok f P (error e, d) h p = cc

continue_error :
    {A B : Type 0} (f : A → M B) (x : Result A × Device)
    → is_ok x.0 ≡ false
    → (is_ok (continue f x).0 ≡ false) × ((continue f x).1 ≡ x.1)
continue_error f (ok a, d) h = cc
continue_error f (error e, d) h = (refl, refl)

closed_twice : (d : Device) → IsBalanced d → (close (close d)).closed ≡ (close (close d)).created
unfolding close
closed_twice d b = ground arith

module _ (lib : Libpcap) where
  set_packet_filter-IsBalanced :
      (filter : Bytes) (d : Device) → IsBalanced d → IsBalanced (set_packet_filter lib filter d).1
  unfolding set_packet_filter
  set_packet_filter-IsBalanced filter d b = ground arith

  activate-IsBalanced : (dlt : ℕ) (d : Device) → IsBalanced d → IsBalanced (activate lib dlt d).1
  unfolding activate
  activate-IsBalanced dlt d b = ground arith

  pub attach-Keeps : (c : Config) (d : Device) → Keeps d (attach lib c d).1
  unfolding attach activate set_packet_filter get_fd
  attach-Keeps c d = record { same_handle = ground arith; balance = λ b. ground arith }

  pub construct-opens :
      (c : Config)
      → is_ok (construct lib c no_device).0 ≡ true
      → (construct lib c no_device).1 ≡ open_handle no_device
  unfolding construct
  construct-opens c h = ground arith

  attach_result :
      (r : Result ℕ × Device)
      → IsBalanced r.1
      → r.1.handle ≡ true
      → IsBalanced (destroy_on_error lib r).1
        × ((destroy_on_error lib r).1.handle ≡ is_ok (destroy_on_error lib r).0)
  unfolding close
  attach_result (ok n, d) b h = (b, h)
  attach_result (error e, d) b h = (close-IsBalanced d b, ground arith)

  construct-made :
      (c : Config)
      → lib.creates c.pcap_if ≡ true
      → (construct lib c no_device).1 ≡ open_handle no_device
  unfolding construct
  construct-made c made = ground arith

  -- Once the constructor of PcapHelper has returned, whatever libpcap answers, LibPcapHelper holds an
  -- open handle exactly where its own constructor returns; every handle but that one and every
  -- compiled filter is given back; and closing the capture twice, as main and the destructor do,
  -- leaves as many handles closed as were made.
  pub open_capture-IsBalanced :
      (c : Config)
      → is_ok (construct lib c no_device).0 ≡ true
      → ((open_capture lib c no_device).1.handle ≡ is_ok (open_capture lib c no_device).0)
        × IsBalanced (open_capture lib c no_device).1
        × ((close (close (open_capture lib c no_device).1)).closed
            ≡ (close (close (open_capture lib c no_device).1)).created)
  unfolding open_capture
  open_capture-IsBalanced c h =
      continue_ok (λ u d. destroy_on_error lib (attach lib c d))
        (λ x.
          (x.1.handle ≡ is_ok x.0)
          × IsBalanced x.1
          × ((close (close x.1)).closed ≡ (close (close x.1)).created))
        (construct lib c no_device) h
        (λ u.
          let d = (construct lib c no_device).1 in
          let opened = construct-opens c h in
          let kept = attach-Keeps c d in
          let (b, held) =
            attach_result (attach lib c d)
              (kept.balance (rw opened (record { handles = refl; programs = refl })))
              (kept.same_handle ∙ ap (λ (x : Device). x.handle) opened) in
          (held, b, closed_twice (destroy_on_error lib (attach lib c d)).1 b))

  -- Where pcap_create gives a handle and the constructor of PcapHelper throws for a setting that
  -- libpcap refuses, so does LibPcapHelper's, and the handle is never closed.
  pub construct-leaks :
      (c : Config)
      → lib.creates c.pcap_if ≡ true
      → is_ok (construct lib c no_device).0 ≡ false
      → (is_ok (open_capture lib c no_device).0 ≡ false)
        × ((open_capture lib c no_device).1.created ≡ 1)
        × ((open_capture lib c no_device).1.closed ≡ 0)
  unfolding open_capture
  construct-leaks c made h =
      let (failed, same) =
        continue_error (λ u d. destroy_on_error lib (attach lib c d)) (construct lib c no_device)
          h in
      let left = same ∙ construct-made c made in
      (failed, ap (λ (x : Device). x.created) left, ap (λ (x : Device). x.closed) left)
