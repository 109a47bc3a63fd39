-- ===== src/Network/Serving/Faultless.antt =====
-- What two hosts that run this program do to each other: no handler throws or reads past the end of a
-- vector.
use ip_ndn_stack_cpp.Prelude.{
  ℕ, suc, ◌+◌, ◌<◌, ◌≡◌, refl, ap, ◌∙◌, List, [], ◌∷◌, ◌++◌, map, Bool, true, false, Option, none,
  some, All, Bool-cases, inl, inr, arith, get_elem?,
}
use ip_ndn_stack_cpp.Text.{Bytes}
use ip_ndn_stack_cpp.Word.{int_limit}
use ip_ndn_stack_cpp.Boost.{Boost}
use ip_ndn_stack_cpp.Tuple.{Memory}
use ip_ndn_stack_cpp.Ndn.State.{Ndn, Request, Publication, Filter, Outcome, returns, pure}
use ip_ndn_stack_cpp.Ndn.Handlers.{Sockets, deal_on_interest, on_interest, on_data, start}
use ip_ndn_stack_cpp.Ndn.Requests.{tcp_pre_runs, on_other_pre-asks}
use ip_ndn_stack_cpp.Capture.{Host}
use ip_ndn_stack_cpp.Network.{Forwarder, World, bytes_of, hear, receive, receive_content, step}
use ip_ndn_stack_cpp.Capture.{Poll}
use ip_ndn_stack_cpp.Network.Wire.{
  WireEvent, reads, interest_passes, data_passes, Legible, FromWire, wire_step, wire_run,
  wire_step-IsSound,
}
use ip_ndn_stack_cpp.Network.Sender.{IsAnnouncement, announces_flow, announces_other, Origin}
use ip_ndn_stack_cpp.Network.Receiver.{IsAsked, IsFitting, is_of_flow, fitting-tcp}
use ip_ndn_stack_cpp.Network.Runs.{IsSound, Of, found, on_data-sends, start-IsSound}
use ip_ndn_stack_cpp.Network.Serving.{
  regular, serving, with_receiver, go_on, call_filter, call_on_interest, call_with_content,
  call_on_data, handle, process_events,
}
use ip_ndn_stack_cpp.Network.Serving.Timely.{
  IsBelow, IsTimely, Timely, start-Timely, handle_read-Timely,
}

-- The number of reads that complete.
abbrev pub read_count : List WireEvent → ℕ
read_count [] = 0
read_count (reads error poll err now uuid ∷ es) = suc (read_count es)
read_count (interest_passes k j ∷ es) = read_count es
read_count (data_passes k j ∷ es) = read_count es

completed : (x : Outcome (Unit {0}) × Ndn) → x.0 ≡ returns tt → x ≡ (returns tt, x.1)
completed (o, s) e = ap (λ (y : Outcome (Unit {0})). (y, s)) e

module _ (forwarder : Forwarder) (boost : Boost) (sockets : Sockets) where
  by_kind :
      (r : Request) (a : IsAnnouncement r) (s : Ndn)
      → IsBelow a
      → (on_interest boost r.name true (is_of_flow a) s).0 ≡ returns tt
  unfolding on_interest deal_on_interest
  by_kind r (announces_flow f n e) s lt =
      rw e (ap (λ (x : Outcome (Unit {0}) × Ndn). x.0) (tcp_pre_runs boost f n s lt))
  by_kind r (announces_other f n uid l e) s lt =
      rw e (ap (λ (x : Outcome (Unit {0}) × Ndn). x.0) (on_other_pre-asks boost f n uid s l))

  on_interest_returns :
      (r : Request) (f : Filter) (rest : Bytes) (s : Ndn)
      → IsTimely r
      → IsFitting f
      → r.name ≡ f.prefix ++ rest
      → (on_interest boost r.name f.pre f.tcp s).0 ≡ returns tt
  unfolding on_interest deal_on_interest pure
  on_interest_returns r f rest s a fit e = wants f.pre refl
    where
      wants : (pre : Bool) → f.pre ≡ pre → (on_interest boost r.name pre f.tcp s).0 ≡ returns tt
      wants true p =
          rw (fitting-tcp r f rest a.announcement fit e p) (by_kind r a.announcement s a.below)
      wants false p = refl

  call_on_interest-hear :
      (r : Option Request) (f : Option Filter) (s : Ndn)
      → Of IsTimely r
      → Of IsFitting f
      → call_on_interest forwarder boost sockets r f s
        ≡ (returns tt, hear forwarder boost sockets r f s)
  unfolding call_on_interest call_filter hear Of pure
  call_on_interest-hear none f s a fit = refl
  call_on_interest-hear (some r) none s a fit = refl
  call_on_interest-hear (some r) (some f) s a fit =
      elim (Bool-cases (forwarder.matches f.prefix r.name)) [
        | inr other ↦ rw other refl
        | inl same ↦
            let (rest, e) = forwarder.matches-extends f.prefix r.name same in
            rw same (
              completed (on_interest boost r.name f.pre f.tcp s)
                (on_interest_returns r f rest s a fit e))
      ]

  module _ (Seen : Poll → Type 0) where
    call_with_content-receive :
        (r : Request) (p : Publication) (m : Option Memory) (s : Ndn)
        → IsAsked r
        → Origin (FromWire Seen) p
        → call_with_content forwarder boost sockets r p m s
          ≡ (returns tt, receive_content forwarder boost sockets r p m s)
    unfolding call_with_content receive_content pure
    call_with_content-receive r p none s k o = refl
    call_with_content-receive r p (some m) s k o =
        elim (Bool-cases (forwarder.matches r.name p.name)) [
          | inr other ↦ rw other refl
          | inl same ↦
              let (rest, e) = forwarder.matches-extends r.name p.name same in
              rw same (
                completed (on_data sockets boost p.name (bytes_of m p.size) r.is_pre r.is_tcp s) (
                  ap (λ (x : Outcome (Unit {0}) × Ndn). x.0)
                    (on_data-sends forwarder boost sockets (FromWire Seen) r p rest
                      (bytes_of m p.size) s k o e)))
        ]

    call_on_data-receive :
        (r : Option Request) (p : Option Publication) (s : Ndn)
        → Of IsAsked r
        → Of (Origin (FromWire Seen)) p
        → call_on_data forwarder boost sockets r p s
          ≡ (returns tt, receive forwarder boost sockets r p s)
    unfolding call_on_data receive Of pure
    call_on_data-receive none p s k o = refl
    call_on_data-receive (some r) none s k o = refl
    call_on_data-receive (some r) (some p) s k o = call_with_content-receive r p p.pkt s k o

    handle-step :
        (e : WireEvent) (k : ℕ) (w : World)
        → IsSound (FromWire Seen) w
        → Timely k w.sender
        → handle forwarder boost sockets w (regular e)
          ≡ (returns tt, wire_step forwarder boost sockets w e)
    unfolding handle wire_step step
    handle-step (reads error poll err now uuid) k w h s = refl
    handle-step (interest_passes i j) k w h s = ap (with_receiver w) (
        call_on_interest-hear (get_elem? w.sender.ndn.expressed i) (get_elem? w.receiver.filters j)
          w.receiver (found IsTimely w.sender.ndn.expressed i s.announced)
          (found IsFitting w.receiver.filters j h.receiver.fitting))
    handle-step (data_passes i j) k w h s = ap (with_receiver w) (
        call_on_data-receive (get_elem? w.receiver.expressed i) (get_elem? w.sender.ndn.published j)
          w.receiver (found IsAsked w.receiver.expressed i h.receiver.asked)
          (found (Origin (FromWire Seen)) w.sender.ndn.published j h.sender.published))

    -- One event, and then the rest.
    process_events-next :
        (e : WireEvent) (es : List WireEvent) (k : ℕ) (w : World)
        → IsSound (FromWire Seen) w
        → Timely k w.sender
        → process_events forwarder boost sockets (map regular (e ∷ es)) w
          ≡ process_events forwarder boost sockets
              (map regular es)
              (wire_step forwarder boost sockets w e)
    unfolding process_events
    process_events-next e es k w h s =
        ap (go_on (process_events forwarder boost sockets (map regular es))) (handle-step e k w h s)

    process_events-run :
        (es : List WireEvent) (k : ℕ) (w : World)
        → All (Legible Seen) es
        → k + read_count es < int_limit
        → IsSound (FromWire Seen) w
        → Timely k w.sender
        → process_events forwarder boost sockets (map regular es) w
          ≡ serving (wire_run forwarder boost sockets es w)
    unfolding process_events wire_run wire_step step
    process_events-run [] k w a lt h s = refl
    process_events-run (reads error poll err now uuid ∷ es) k w (ae, a) lt h s =
        let (seen, bytes, fits, lacks) = ae in
        process_events-next (reads error poll err now uuid) es k w h s
        ∙ process_events-run es (suc k)
            (wire_step forwarder boost sockets w (reads error poll err now uuid)) a (omega arith)
            (wire_step-IsSound Seen forwarder boost sockets (reads error poll err now uuid) w ae h)
            (handle_read-Timely k error poll err now uuid w.sender (omega arith) bytes lacks s)
    process_events-run (interest_passes i j ∷ es) k w (ae, a) lt h s =
        process_events-next (interest_passes i j) es k w h s
        ∙ process_events-run es k (wire_step forwarder boost sockets w (interest_passes i j)) a lt
            (wire_step-IsSound Seen forwarder boost sockets (interest_passes i j) w ae h) s
    process_events-run (data_passes i j ∷ es) k w (ae, a) lt h s =
        process_events-next (data_passes i j) es k w h s
        ∙ process_events-run es k (wire_step forwarder boost sockets w (data_passes i j)) a lt
            (wire_step-IsSound Seen forwarder boost sockets (data_passes i j) w ae h) s

    -- Let the sender start with an empty sequence table and empty logs, and the receiver with empty
    -- logs and the filters that `start` sets, whichever the face accepts. In every run in which fewer
    -- than 2^31 reads of the sender complete, whatever frames it reads, each handler that the
    -- receiver's face calls returns, and the receiver is still serving at the end, in the world that
    -- the run leads to: no announcement and no data of the sender, late, repeated, out of order or
    -- matched by a prefix, makes it throw or read past the end of a vector. `Seen` holds of the
    -- answers of libpcap, their frames are of bytes, captured lengths are below 2^31, and the uuids
    -- hold no slash.
    pub process_events-serves :
        (accepts : Bytes → Bool) (es : List WireEvent) (h : Host) (s : Ndn)
        → h.sequence_table ≡ []
        → (h.ndn.published ≡ []) × (h.ndn.expressed ≡ [])
        → (s.expressed ≡ []) × (s.filters ≡ []) × (s.sent ≡ [])
        → All (Legible Seen) es
        → read_count es < int_limit
        → process_events forwarder boost sockets
            (map regular es)
            (record { sender = h; receiver = start accepts s })
          ≡ serving (
              wire_run forwarder boost sockets es
                (record { sender = h; receiver = start accepts s }))
    process_events-serves accepts es h s table (published, announced) idle a lt =
        process_events-run es 0 (record { sender = h; receiver = start accepts s }) a (omega arith)
          (start-IsSound forwarder boost sockets (FromWire Seen) accepts h s table
            (published, announced) idle)
          (start-Timely h table announced)
