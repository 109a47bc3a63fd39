-- ===== src/Capture/Loop/Deals.antt =====
-- What the event loop of LibPcapHelper (helper/LibPcapHelper.cpp) does with the packets of the reads.
use ip_ndn_stack_cpp.Prelude.{
  suc, ◌≤◌, ◌<◌, length, map, ◌≡◌, refl, sym, ap, ◌∙◌, List, [], ◌∷◌, ◌++◌, Bool, true, false,
  Option, none, some, ltb, arith, Bool-cases, inl, inr, if◌then◌else◌,
}
use ip_ndn_stack_cpp.Text.{Bytes}
use ip_ndn_stack_cpp.Word.{int_limit}
use ip_ndn_stack_cpp.Tuple.{Tuple}
use ip_ndn_stack_cpp.Ndn.State.{Publication}
use ip_ndn_stack_cpp.Packet.Stat.{Globals}
use ip_ndn_stack_cpp.Capture.{read_next_packet_after_decode, deal_read, handle_read}
use ip_ndn_stack_cpp.Capture.Fresh.{
  deal_all, published_names, expected_names, deal_all-names, empty-Counts,
}
use ip_ndn_stack_cpp.Capture.Loop.{
  Completion, Capturer, complete, start, before_error, no_error, kept_packet, captured,
  globals_after,
}
use ip_ndn_stack_cpp.Capture.Loop.Decoder.{
  with_globals, deal_all-globals, deal_read-globals, deal_read-kept,
}

pub start-stopped : (es : List Completion) (c : Capturer) → c.waiting ≡ false → start es c ≡ c
unfolding start
start-stopped [] c h = refl
start-stopped (e ∷ es) c h = rw h refl

-- One completed wait, without an error.
unfoldable pub read_done : Completion → Capturer → Capturer
read_done e c =
    let (res, g) = read_next_packet_after_decode e.poll e.last_error e.now c.host.globals in
    record c { host = with_globals g (deal_read e.uuid res.0 c.host); waiting = true }

pub complete-read : (e : Completion) (c : Capturer) → e.error ≡ false → complete e c ≡ read_done e c
unfolding complete handle_read read_done
complete-read e c h =
    let (res, g) = read_next_packet_after_decode e.poll e.last_error e.now c.host.globals in
    rw h (ap (λ x. record c { host = x; waiting = true }) (deal_read-globals e.uuid res.0 c.host g))

pub complete-error :
    (e : Completion) (c : Capturer) → e.error ≡ true → complete e c ≡ record c { waiting = false }
unfolding complete handle_read
complete-error e c h = rw h refl

pub start-next :
    (e : Completion) (es : List Completion) (c : Capturer)
    → c.waiting ≡ true
    → start (e ∷ es) c ≡ start es (complete e c)
unfolding start
start-next e es c h = ap (λ b. if b then start es (complete e c) else c) h

-- The service after the frames `fs`, waiting or not.
abbrev pub dealt : List Completion → Bool → Capturer → Capturer
dealt fs waits c = record c {
  host = record (deal_all (captured fs c.host.globals) c.host) {
    globals = globals_after fs c.host.globals;
  };
  waiting = waits;
}

dealt-next :
    (e : Completion) (fs : List Completion) (waits : Bool) (c : Capturer)
    → dealt fs waits (read_done e c) ≡ dealt (e ∷ fs) waits c
unfolding read_done captured globals_after
dealt-next e fs waits c =
    let (res, g) = read_next_packet_after_decode e.poll e.last_error e.now c.host.globals in
    let dealing = deal_read e.uuid res.0 c.host in
    ap (λ x. record c { host = with_globals (globals_after fs g) x; waiting = waits })
      (deal_all-globals (captured fs g) dealing g
        ∙ ap (with_globals g) (sym (deal_read-kept e.uuid res.0 c.host (captured fs g))))

-- The service deals, in order, with the tuples that the frames before the first error give, and what
-- it leaves differs from that in the globals of the decoder alone; it stops at the error, and waits on
-- if there was none.
pub start-deals :
    (es : List Completion) (c : Capturer)
    → c.waiting ≡ true
    → start es c ≡ dealt (before_error es) (no_error es) c
unfolding start before_error captured globals_after deal_all
start-deals [] c h = ap (λ b. record c { waiting = b }) h
start-deals (e ∷ es) c h = elim (Bool-cases e.error) [
  | inl bad ↦
      start-next e es c h
      ∙ ap (start es) (complete-error e c bad)
      ∙ start-stopped es (record c { waiting = false }) refl
      ∙ ap (λ b. dealt (if b then [] else e ∷ before_error es) (if b then false else no_error es) c)
          (sym bad)
  | inr good ↦
      start-next e es c h
      ∙ ap (start es) (complete-read e c good)
      ∙ start-deals es (read_done e c) (unfold read_done in refl)
      ∙ dealt-next e (before_error es) (no_error es) c
      ∙ ap (λ b. dealt (if b then [] else e ∷ before_error es) (if b then false else no_error es) c)
          (sym good)
]

kept_packet-le :
    (uuid : Bytes) (o : Option Tuple) (rest : List (Bytes × Tuple))
    → length (kept_packet uuid o rest) ≤ suc (length rest)
unfolding kept_packet
kept_packet-le uuid none rest = omega arith
kept_packet-le uuid (some t) rest = elim (Bool-cases (ltb t.ip_size 8600)) [
  | inl small ↦ rw small omega arith
  | inr large ↦ rw large omega arith
]

captured_le_if :
    (b : Bool) (e : Completion) (es : List Completion) (g : Globals)
    → length
        (captured (before_error es) (read_next_packet_after_decode e.poll e.last_error e.now g).1)
      ≤ length es
    → length (captured (if b then [] else e ∷ before_error es) g) ≤ suc (length es)
unfolding captured
captured_le_if true e es g le = omega arith
captured_le_if false e es g le =
    let (res, g') = read_next_packet_after_decode e.poll e.last_error e.now g in
    omega (arith, kept_packet-le e.uuid res.0 (captured (before_error es) g'), le)

captured-le :
    (es : List Completion) (g : Globals) → length (captured (before_error es) g) ≤ length es
unfolding captured before_error
captured-le [] g = omega arith
captured-le (e ∷ es) g =
    captured_le_if e.error e es g
      (captured-le es (read_next_packet_after_decode e.poll e.last_error e.now g).1)

-- Let the service start on an empty sequence table, with nothing published and a read waited for, and
-- let fewer than 2^31 reads complete. Then what is published, in order, are the names that counting
-- the packets of each flow gives for the tuples of the frames before the first failed read, those of
-- 8600 bytes or more left out.
pub start-publishes :
    (es : List Completion) (c : Capturer)
    → c.waiting ≡ true
    → c.host.sequence_table ≡ []
    → c.host.ndn.published ≡ []
    → length es < int_limit
    → published_names (start es c).host
      ≡ expected_names [] (captured (before_error es) c.host.globals)
start-publishes es c w table none_yet lt =
    let ts = captured (before_error es) c.host.globals in
    ap (λ (x : Capturer). published_names x.host) (start-deals es c w)
    ∙ deal_all-names [] ts c.host (empty-Counts c.host table)
        (omega (arith, captured-le es c.host.globals))
    ∙ ap (λ l. map (λ (p : Publication). p.name) l ++ expected_names [] ts) none_yet
