-- ===== src/Capture/Turns/Sending.antt =====
-- What the handlers of NDNHelper (helper/NDNHelper.cpp) send while the capture of the host
-- (helper/LibPcapHelper.cpp) takes turns with them.
use ip_ndn_stack_cpp.Prelude.{
  ◌≡◌, refl, sym, ap, ◌∙◌, List, [], ◌∷◌, ◌++◌, Bool, true, false, Option, none, some, Bool-cases,
  inl, inr, if◌then◌else◌, get_elem?,
}
use ip_ndn_stack_cpp.Text.{Bytes, slash}
use ip_ndn_stack_cpp.Boost.{Boost}
use ip_ndn_stack_cpp.Ndn.State.{Ndn, Datagram, ◌>>=◌, update, pure, from_field}
use ip_ndn_stack_cpp.Ndn.Handlers.{Sockets, on_interest, on_data, deal_on_data, send_packet_to}
use ip_ndn_stack_cpp.Ndn.Logs.{on_interest-Asks}
use ip_ndn_stack_cpp.Capture.{read_next_packet_after_decode}
use ip_ndn_stack_cpp.Capture.Loop.{Completion, Capturer, complete}
use ip_ndn_stack_cpp.Capture.Loop.Deals.{complete-read, complete-error, read_done}
use ip_ndn_stack_cpp.Capture.Loop.Alike.{deal_read-sent}
use ip_ndn_stack_cpp.Capture.Turns.{
  Turn, read_completes, interest_arrives, data_arrives, read_turn, with_ndn, handler_turn,
  take_turn, take_turns, handler_turns,
}

if-sent :
    (b : Bool) (x y : Capturer) (l : List Datagram)
    → x.host.ndn.sent ≡ l
    → y.host.ndn.sent ≡ l
    → (if b then x else y).host.ndn.sent ≡ l
if-sent true x y l hx hy = hx
if-sent false x y l hx hy = hy

read_done-sent : (e : Completion) (c : Capturer) → (read_done e c).host.ndn.sent ≡ c.host.ndn.sent
unfolding read_done
read_done-sent e c =
    deal_read-sent e.uuid
      (read_next_packet_after_decode e.poll e.last_error e.now c.host.globals).0.0 c.host

complete-sent : (e : Completion) (c : Capturer) → (complete e c).host.ndn.sent ≡ c.host.ndn.sent
complete-sent e c = elim (Bool-cases e.error) [
  | inl bad ↦ ap (λ (x : Capturer). x.host.ndn.sent) (complete-error e c bad)
  | inr good ↦ ap (λ (x : Capturer). x.host.ndn.sent) (complete-read e c good) ∙ read_done-sent e c
]

read_turn-sent : (e : Completion) (c : Capturer) → (read_turn e c).host.ndn.sent ≡ c.host.ndn.sent
unfolding read_turn
read_turn-sent e c = if-sent c.waiting _ c c.host.ndn.sent (complete-sent e c) refl

module _ (sockets : Sockets) (boost : Boost) where
  field-sent :
      (o : Option Bytes) (content : Bytes) (s s' : Ndn)
      → s.sent ≡ s'.sent
      → ((from_field o >>= λ ip. update (send_packet_to sockets content ip)) s).1.sent
        ≡ ((from_field o >>= λ ip. update (send_packet_to sockets content ip)) s').1.sent
  unfolding ◌>>=◌ from_field update send_packet_to
  field-sent none content s s' e = e
  field-sent (some ip) content s s' e =
      ap (λ l. l ++ record { buffer = content; address = sockets.inet_addr ip } ∷ []) e

  on_data-sent :
      (name content : Bytes) (pre tcp : Bool) (s s' : Ndn)
      → s.sent ≡ s'.sent
      → (on_data sockets boost name content pre tcp s).1.sent
        ≡ (on_data sockets boost name content pre tcp s').1.sent
  unfolding on_data deal_on_data
  on_data-sent name content true tcp s s' e = unfold pure in e
  on_data-sent name content false tcp s s' e =
      field-sent (get_elem? (boost.split name slash) (if tcp then 4 else 3)) content s s' e

  -- Whatever the thread of the capture and the handlers of interests and data do, in whatever order
  -- they take turns: what is sent to the raw socket is what the handlers alone would send, from a
  -- state with the same datagrams sent before.
  pub take_turns-sent :
      (ts : List Turn) (c : Capturer) (s : Ndn)
      → c.host.ndn.sent ≡ s.sent
      → (take_turns sockets boost ts c).host.ndn.sent ≡ (handler_turns sockets boost ts s).sent
  unfolding take_turns take_turn handler_turn handler_turns
  take_turns-sent [] c s e = e
  take_turns-sent (read_completes x ∷ ts) c s e =
      take_turns-sent ts (read_turn x c) s (read_turn-sent x c ∙ e)
  take_turns-sent (interest_arrives name pre tcp ∷ ts) c s e =
      let c' = (on_interest boost name pre tcp c.host.ndn).1 in
      let s' = (on_interest boost name pre tcp s).1 in
      take_turns-sent ts (with_ndn c' c) s' (
        (on_interest-Asks boost name pre tcp c.host.ndn).sent
        ∙ e
        ∙ sym (on_interest-Asks boost name pre tcp s).sent)
  take_turns-sent (data_arrives name content pre tcp ∷ ts) c s e =
      let c' = (on_data sockets boost name content pre tcp c.host.ndn).1 in
      let s' = (on_data sockets boost name content pre tcp s).1 in
      take_turns-sent ts (with_ndn c' c) s' (on_data-sent name content pre tcp c.host.ndn s e)
