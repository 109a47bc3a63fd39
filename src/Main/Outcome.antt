-- ===== src/Main/Outcome.antt =====
-- How main (main.cpp) begins, and what it means that it ends well.
use ip_ndn_stack_cpp.Prelude.{
  ◌≡◌, refl, ◌∙◌, List, [], ◌∷◌, Bool, true, false, none, some, All, arith, if◌then◌else◌,
}
use ip_ndn_stack_cpp.Device.{
  Libpcap, Device, Config, Result, ok, error, no_device, construct, attach, destroy_on_error,
  open_handle,
}
use ip_ndn_stack_cpp.Device
use ip_ndn_stack_cpp.Device.Balance.{IsBalanced}
use ip_ndn_stack_cpp.Settings.{Startup, done, throws, exits, blocks}
use ip_ndn_stack_cpp.Capture.{Host}
use ip_ndn_stack_cpp.Capture.Loop.{Capturer, Completion, complete, async_read}
use ip_ndn_stack_cpp.Capture.Loop
use ip_ndn_stack_cpp.Main.Pointers.{
  NdnPointers, CapturePointers, ndn_helper_local, cache_helper_local, pending_interest_map_local,
  sequence_table_local, prefix_request_table_local,
}
use ip_ndn_stack_cpp.Main.{
  Event, thread_starts, service_runs, Process, End, returned, exited, running,
}

-- The process when main begins, on a host in the state `h`.
abbrev pub begin : Host → Process
begin h = record {
  ndn_pointers = record {
    cache_helper = none;
    pending_interest_map = none;
    prefix_guest_table = none;
  };
  capture_pointers = record {
    ndn_helper = none;
    cache_helper = none;
    pending_interest_table = none;
    sequence_table = none;
  };
  capturer = record { host = h; socket_open = false; waiting = false; device = no_device };
  events = [];
}

abbrev pub bound_ndn : NdnPointers
bound_ndn = record {
  cache_helper = some cache_helper_local;
  pending_interest_map = some pending_interest_map_local;
  prefix_guest_table = some prefix_request_table_local;
}

abbrev pub bound_capture : CapturePointers
bound_capture = record {
  ndn_helper = some ndn_helper_local;
  cache_helper = some cache_helper_local;
  pending_interest_table = some pending_interest_map_local;
  sequence_table = some sequence_table_local;
}

-- Every pointer is to the object that is meant.
unfoldable pub IsBound : Event → Type 0
IsBound (thread_starts n) = n ≡ bound_ndn
IsBound (service_runs n c) = (n ≡ bound_ndn) × (c ≡ bound_capture)

-- No handle is held, and every handle and compiled filter was given back.
pub record IsReleased (d : Device) : Type 0 where
  pub handle : d.handle ≡ false
  pub handles : d.created ≡ d.closed
  pub programs : d.compiled ≡ d.freed

-- The handlers ran with bound pointers; and where main returns, everything is given back.
unfoldable pub IsSafe : End × Process → Type 0
IsSafe (returned, p) = IsReleased p.capturer.device × All IsBound p.events
IsSafe (exited, p) = All IsBound p.events
IsSafe (running, p) = All IsBound p.events

pub close-IsReleased : (d : Device) → IsBalanced d → IsReleased (Device.close d)
unfolding Device.close
close-IsReleased d b = record {
  handle = ground arith;
  handles = ground arith;
  programs = ground arith;
}

if-device :
    (b : Bool) (x y : Capturer) (d : Device)
    → x.device ≡ d
    → y.device ≡ d
    → (if b then x else y).device ≡ d
if-device true x y d hx hy = hx
if-device false x y d hx hy = hy

complete-device : (e : Completion) (c : Capturer) → (complete e c).device ≡ c.device
unfolding complete async_read
complete-device e c = if-device _ _ _ c.device refl refl

pub start-device : (es : List Completion) (c : Capturer) → (Loop.start es c).device ≡ c.device
unfolding Loop.start
start-device [] c = refl
start-device (e ∷ es) c =
    if-device c.waiting _ c c.device (start-device es (complete e c) ∙ complete-device e c) refl

pub close-device : (c : Capturer) → (Loop.close c).device ≡ Device.close c.device
unfolding Loop.close
close-device c = refl

-- How the statements of the try block end, before they leave the scope of the capture.
unfoldable pub Ends : Startup (Unit {0}) × Process → Type 0
Ends (done u, p) = IsReleased p.capturer.device × All IsBound p.events
Ends (throws, p) = IsReleased p.capturer.device × All IsBound p.events
Ends (exits, p) = All IsBound p.events
Ends (blocks, p) = All IsBound p.events

IsReleased-IsBalanced : (d : Device) → IsReleased d → IsBalanced d
IsReleased-IsBalanced d r = record { handles = ground arith; programs = r.programs }
