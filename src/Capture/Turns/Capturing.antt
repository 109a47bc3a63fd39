-- ===== src/Capture/Turns/Capturing.antt =====
-- What the capture of a host (helper/LibPcapHelper.cpp) publishes while the handlers of NDNHelper
-- (helper/NDNHelper.cpp) take turns with it.
use ip_ndn_stack_cpp.Prelude.{
  ◌<◌, length, map, ◌≡◌, refl, sym, ap, ◌∙◌, List, [], ◌∷◌, Bool, true, false, Option, none, some,
  Bool-cases, inl, inr, if◌then◌else◌, get_elem?,
}
use mathlib.Core.Path.{subst}
use ip_ndn_stack_cpp.Text.{Bytes, slash}
use ip_ndn_stack_cpp.Word.{int_limit}
use ip_ndn_stack_cpp.Boost.{Boost}
use ip_ndn_stack_cpp.Ndn.State.{Ndn, Publication, ◌>>=◌, update, pure, from_field}
use ip_ndn_stack_cpp.Ndn.Handlers.{Sockets, on_interest, on_data, deal_on_data, send_packet_to}
use ip_ndn_stack_cpp.Ndn.Logs.{on_interest-Asks}
use ip_ndn_stack_cpp.Packet.Stat.{Globals}
use ip_ndn_stack_cpp.Capture.{read_next_packet_after_decode, deal_read}
use ip_ndn_stack_cpp.Capture.Fresh.{published_names, expected_names}
use ip_ndn_stack_cpp.Capture.Loop.{Completion, Capturer, complete, start, before_error, captured}
use ip_ndn_stack_cpp.Capture.Loop.Deals.{
  start-stopped, start-next, complete-read, complete-error, read_done, start-publishes,
}
use ip_ndn_stack_cpp.Capture.Loop.Alike.{IsAlike, deal_read-IsAlike}
use ip_ndn_stack_cpp.Capture.Turns.{
  Turn, read_completes, interest_arrives, data_arrives, reads_of, read_turn, with_ndn, handler_turn,
  take_turn, take_turns,
}

-- The capture cannot tell the two services apart.
record SameCapture (c d : Capturer) : Type 0 where
  hosts : IsAlike c.host d.host
  globals : c.host.globals ≡ d.host.globals
  waiting : c.waiting ≡ d.waiting

read_turn-stopped : (e : Completion) (c : Capturer) → c.waiting ≡ false → read_turn e c ≡ c
unfolding read_turn
read_turn-stopped e c stopped = ap (λ b. if b then complete e c else c) stopped

start-read_turn :
    (e : Completion) (es : List Completion) (c : Capturer)
    → start (e ∷ es) c ≡ start es (read_turn e c)
start-read_turn e es c = elim (Bool-cases c.waiting) [
  | inl waits ↦
      start-next e es c waits
      ∙ ap (λ b. start es (if b then complete e c else c)) (sym waits)
      ∙ unfold read_turn in refl
  | inr stopped ↦
      start-stopped (e ∷ es) c stopped
      ∙ sym (start-stopped es c stopped)
      ∙ ap (start es) (sym (read_turn-stopped e c stopped))
]

read_done-SameCapture :
    (e : Completion) (c d : Capturer)
    → SameCapture c d
    → SameCapture (read_done e c) (read_done e d)
unfolding read_done
read_done-SameCapture e c d a =
    let read = λ (g : Globals). read_next_packet_after_decode e.poll e.last_error e.now g in
    let b = deal_read-IsAlike e.uuid (read c.host.globals).0.0 c.host d.host a.hosts in
    record {
      hosts = record {
        table = b.table ∙ ap (λ g. (deal_read e.uuid (read g).0.0 d.host).sequence_table) a.globals;
        published =
            b.published ∙ ap (λ g. (deal_read e.uuid (read g).0.0 d.host).ndn.published) a.globals;
      };
      globals = ap (λ g. (read g).1) a.globals;
      waiting = refl;
    }

complete-SameCapture :
    (e : Completion) (c d : Capturer) → SameCapture c d → SameCapture (complete e c) (complete e d)
complete-SameCapture e c d a = elim (Bool-cases e.error) [
  | inl bad ↦
      rw (complete-error e c bad, complete-error e d bad)
        (record { hosts = a.hosts; globals = a.globals; waiting = refl })
  | inr good ↦ rw (complete-read e c good, complete-read e d good) (read_done-SameCapture e c d a)
]

if-SameCapture :
    (b : Bool) (x y x' y' : Capturer)
    → SameCapture x x'
    → SameCapture y y'
    → SameCapture (if b then x else y) (if b then x' else y')
if-SameCapture true x y x' y' hx hy = hx
if-SameCapture false x y x' y' hx hy = hy

read_turn-SameCapture :
    (e : Completion) (c d : Capturer)
    → SameCapture c d
    → SameCapture (read_turn e c) (read_turn e d)
unfolding read_turn
read_turn-SameCapture e c d a =
    subst (λ b. SameCapture (read_turn e c) (if b then complete e d else d)) a.waiting
      (if-SameCapture c.waiting _ _ _ _ (complete-SameCapture e c d a) a)

SameCapture-refl : (c : Capturer) → SameCapture c c
SameCapture-refl c = record {
  hosts = record { table = refl; published = refl };
  globals = refl;
  waiting = refl;
}

-- A handler leaves what was published.
handler-SameCapture :
    (s : Ndn) (c d : Capturer)
    → s.published ≡ c.host.ndn.published
    → SameCapture c d
    → SameCapture (with_ndn s c) d
handler-SameCapture s c d e a = record {
  hosts = record { table = a.hosts.table; published = e ∙ a.hosts.published };
  globals = a.globals;
  waiting = a.waiting;
}

module _ (sockets : Sockets) (boost : Boost) where
  sends-published :
      (o : Option Bytes) (content : Bytes) (s : Ndn)
      → ((from_field o >>= λ ip. update (send_packet_to sockets content ip)) s).1.published
        ≡ s.published
  unfolding ◌>>=◌ from_field update send_packet_to
  sends-published none content s = refl
  sends-published (some ip) content s = refl

  on_data-published :
      (name content : Bytes) (pre tcp : Bool) (s : Ndn)
      → (on_data sockets boost name content pre tcp s).1.published ≡ s.published
  unfolding on_data deal_on_data
  on_data-published name content true tcp s = unfold pure in refl
  on_data-published name content false tcp s =
      sends-published (get_elem? (boost.split name slash) (if tcp then 4 else 3)) content s

  take_turns-SameCapture :
      (ts : List Turn) (c d : Capturer)
      → SameCapture c d
      → SameCapture (take_turns sockets boost ts c) (start (reads_of ts) d)
  unfolding take_turns take_turn handler_turn reads_of
  take_turns-SameCapture [] c d a = unfold start in a
  take_turns-SameCapture (read_completes e ∷ ts) c d a =
      subst (SameCapture (take_turns sockets boost ts (read_turn e c)))
        (sym (start-read_turn e (reads_of ts) d))
        (take_turns-SameCapture ts (read_turn e c) (read_turn e d) (read_turn-SameCapture e c d a))
  take_turns-SameCapture (interest_arrives name pre tcp ∷ ts) c d a =
      let s = (on_interest boost name pre tcp c.host.ndn).1 in
      take_turns-SameCapture ts (with_ndn s c) d
        (handler-SameCapture s c d (on_interest-Asks boost name pre tcp c.host.ndn).published a)
  take_turns-SameCapture (data_arrives name content pre tcp ∷ ts) c d a =
      let s = (on_data sockets boost name content pre tcp c.host.ndn).1 in
      take_turns-SameCapture ts (with_ndn s c) d
        (handler-SameCapture s c d (on_data-published name content pre tcp c.host.ndn) a)

  -- Let the thread of the capture and the handlers of interests and data take turns in any order, on a
  -- host that has numbered and published nothing, with a read waited for and fewer than 2^31 reads.
  -- What is published is the same as if no handler ran; its names are, in order, those that counting
  -- the packets of each flow gives for the tuples of the frames before the first failed read, those of
  -- 8600 bytes or more left out.
  pub take_turns-publishes :
      (ts : List Turn) (c : Capturer)
      → c.waiting ≡ true
      → c.host.sequence_table ≡ []
      → c.host.ndn.published ≡ []
      → length (reads_of ts) < int_limit
      → ((take_turns sockets boost ts c).host.ndn.published
          ≡ (start (reads_of ts) c).host.ndn.published)
        × (published_names (take_turns sockets boost ts c).host
            ≡ expected_names [] (captured (before_error (reads_of ts)) c.host.globals))
  take_turns-publishes ts c waits table none_yet lt =
      let same = (take_turns-SameCapture ts c c (SameCapture-refl c)).hosts.published in
      (
        same,
        ap (map (λ (p : Publication). p.name)) same
            ∙ start-publishes (reads_of ts) c waits table none_yet lt,
      )
