-- ===== src/Network/Wire/Examples.antt =====
-- The sample frame, a blank one and a timeout, on a wire between the sample hosts.
use mathlib.Core.List.{Memᴰ}
use mathlib.Core.Path.{subst}
use ip_ndn_stack_cpp.Prelude.{◌≡◌, refl, List, [], ◌∷◌, true, false, Option, none, some, All, arith}
use ip_ndn_stack_cpp.Boost.Reference.{reference}
use ip_ndn_stack_cpp.Tuple.{Memory}
use ip_ndn_stack_cpp.Packet.Fields.{IsMemory}
use ip_ndn_stack_cpp.Packet.Examples.{tcp_frame, byte_at, frame_bytes, bytes_below}
use ip_ndn_stack_cpp.Text.{codes}
use ip_ndn_stack_cpp.Ndn.State.{Ndn}
use ip_ndn_stack_cpp.Ndn.Handlers.{start}
use ip_ndn_stack_cpp.Ndn.Sockets.{reference_sockets}
use ip_ndn_stack_cpp.Capture.{Poll}
use ip_ndn_stack_cpp.Capture.Examples.{idle_host}
use ip_ndn_stack_cpp.Network.Examples.{forwarder, serving}
use ip_ndn_stack_cpp.Network.Wire.{
  WireEvent, reads, interest_passes, data_passes, Legible, wire_run, IsWired, wire_run-IsWired,
}

abbrev pub good_poll : Poll
good_poll = record { ret = 1; packet = some tcp_frame; caplen = 54; len = 54 }

abbrev pub bad_poll : Poll
bad_poll = record { ret = 1; packet = some (byte_at []); caplen = 60; len = 60 }

abbrev pub late_poll : Poll
late_poll = record { ret = 0; packet = none; caplen = 0; len = 0 }

-- The destination of the sample frame.
abbrev pub served : Ndn
served = record serving { register_ip = codes "10.0.0.2" ∷ [] }

abbrev pub answers : List Poll
answers = good_poll ∷ bad_poll ∷ late_poll ∷ []

abbrev pub wire_events : List WireEvent
wire_events =
    reads false late_poll [] 999 []
    ∷ reads false good_poll [] 1000 []
    ∷ interest_passes 0 2
    ∷ reads false bad_poll [] 1001 []
    ∷ data_passes 0 0
    ∷ []

same_frame : (a b : Memory) → IsMemory a → ◌≡◌ {A = Option Memory} (some a) (some b) → IsMemory b
same_frame a b h e = subst IsMemory (cc) h

no_frame : (b : Memory) → ◌≡◌ {A = Option Memory} none (some b) → IsMemory b
no_frame b e = cc

pub wire-Legible : All (Legible (λ p. Memᴰ p answers)) wire_events
wire-Legible = (
  (Memᴰ.tail (Memᴰ.tail (Memᴰ.head refl)), no_frame, omega arith, tt),
  (
    (
      Memᴰ.head refl,
      λ f e. same_frame tcp_frame f (bytes_below frame_bytes (omega arith)) e,
      omega arith,
      tt,
    ),
    (
      tt,
      (
        (
          Memᴰ.tail (Memᴰ.head refl),
          λ f e. same_frame (byte_at []) f (bytes_below [] tt) e,
          omega arith,
          tt,
        ),
        (tt, tt),
      ),
    ),
  ),
)

wire_run-IsWired_example :
    All
      (IsWired (λ p. Memᴰ p answers))
      (wire_run forwarder reference reference_sockets wire_events
        (record { sender = idle_host; receiver = start (λ prefix. true) served })).receiver.sent
wire_run-IsWired_example =
    wire_run-IsWired (λ p. Memᴰ p answers) forwarder reference reference_sockets (λ prefix. true)
      wire_events idle_host served refl (refl, refl) (refl, refl, refl) wire-Legible
