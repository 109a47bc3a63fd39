-- ===== src/Network/Delivered.antt =====
-- The way of one packet, event by event, from its capture to the raw socket of the other host.
use ip_ndn_stack_cpp.Prelude.{
  ℕ, ◌+◌, ◌<◌, ◌≡◌, refl, ap, ◌∙◌, [], ◌∷◌, ◌++◌, true, false, Option, some, get_elem?,
  get_elem?-length, length,
}
use ip_ndn_stack_cpp.Text.{Bytes}
use ip_ndn_stack_cpp.Word.{int_limit}
use ip_ndn_stack_cpp.Boost.{Boost}
use ip_ndn_stack_cpp.Tuple.{Memory, Tuple}
use ip_ndn_stack_cpp.Naming.Injective.{Flow, IsFlow, flow_data_name}
use ip_ndn_stack_cpp.Table.Laws.{Distinct}
use ip_ndn_stack_cpp.Ndn.State.{interest_lifetime, Ndn, Request, Publication, Filter}
use ip_ndn_stack_cpp.Ndn.Handlers.{Sockets, num_of_guest, on_interest}
use ip_ndn_stack_cpp.Ndn.Rounds.{tcp_request}
use ip_ndn_stack_cpp.Ndn.Requests.{flow_pre_name, on_tcp_pre-expressed}
use ip_ndn_stack_cpp.Ndn.Logs.{on_interest-Asks}
use ip_ndn_stack_cpp.Ndn.Delivery.{on_tcp_data-sends}
use ip_ndn_stack_cpp.Capture.Numbering.{flow_of, is_flow, next_number}
use ip_ndn_stack_cpp.Capture.Exchange.{flow-Announces}
use ip_ndn_stack_cpp.Network.{
  Forwarder, World, captures, asks, brings, bytes_of, hear, receive, receive_content, step, run,
}

-- The filter that `start` sets for the pre-requests of flows, at place `j`, and a name that it matches.
pub record IsFilterFor (forwarder : Forwarder) (name : Bytes) (j : ℕ) (s : Ndn) : Type 0 where
  pub filter : Filter
  pub there : get_elem? s.filters j ≡ some filter
  pub pre : filter.pre ≡ true
  pub tcp : filter.tcp ≡ true
  pub matched : forwarder.matches filter.prefix name ≡ true

module _ (forwarder : Forwarder) (boost : Boost) (sockets : Sockets) where
  pub hear_lem :
      (o : Option Request) (r : Request) (j : ℕ) (s : Ndn)
      → o ≡ some r
      → IsFilterFor forwarder r.name j s
      → hear forwarder boost sockets o (get_elem? s.filters j) s
        ≡ (on_interest boost r.name true true s).1
  unfolding hear
  hear_lem o r j s e f = rw (e, f.there) (rw (f.matched, f.pre, f.tcp) refl)

  pub receive_lem :
      (o : Option Request) (po : Option Publication) (g : Flow) (n : ℕ) (m : Memory)
      (p : Publication) (s : Ndn)
      → IsFlow g
      → o ≡ some (tcp_request (flow_data_name g n))
      → po ≡ some p
      → p.name ≡ flow_data_name g n
      → p.pkt ≡ some m
      → (receive forwarder boost sockets o po s).sent
        ≡ s.sent ++ record { buffer = bytes_of m p.size; address = g.dst_ip } ∷ []
  unfolding receive receive_content
  receive_lem o po g n m p s hg e e' name pkt =
      rw (e, e')
        (rw (pkt, name, forwarder.matches_self (flow_data_name g n))
          (ap (λ x. x.1.sent) (on_tcp_data-sends sockets boost g n (bytes_of m p.size) s hg)))

  -- Let the sender capture a packet of a flow, let its announcement reach the receiver's filter for
  -- the flow's pre-requests, and let the publication come back for the interest that the receiver
  -- answers with. Then the receiver sends the packet's bytes, as one more datagram, to the packet's
  -- destination, whatever the two hosts did before. The sender's table has distinct keys, the
  -- packet's fields hold what their C types hold, and its number is at least 60 below 2^31.
  pub run-delivers :
      (uuid : Bytes) (t : Tuple) (m : Memory) (j : ℕ) (w : World)
      → Distinct w.sender.sequence_table
      → is_flow t ≡ true
      → IsFlow (flow_of t)
      → t.pkt ≡ some m
      → next_number t w.sender + num_of_guest < int_limit
      → IsFilterFor forwarder (flow_pre_name (flow_of t) (next_number t w.sender)) j w.receiver
      → (run forwarder boost sockets
          (captures uuid t
            ∷ asks (length w.sender.ndn.expressed) j
            ∷ brings (length w.receiver.expressed) (length w.sender.ndn.published)
            ∷ [])
          w).receiver.sent
        ≡ w.receiver.sent ++ record { buffer = bytes_of m t.ip_size; address = t.key.dst_ip } ∷ []
  unfolding run step
  run-delivers uuid t m j w d e hf pkt lt filter =
      let n = next_number t w.sender in
      let log = flow-Announces uuid t w.sender d e in
      let name = flow_data_name (flow_of t) n in
      let pre = flow_pre_name (flow_of t) n in
      let answered = (on_interest boost pre true true w.receiver).1 in
      let asked =
        ap (λ l. get_elem? l (length w.sender.ndn.expressed)) log.announcement
        ∙ get_elem?-length w.sender.ndn.expressed [] _ in
      let there =
        ap (λ l. get_elem? l (length w.sender.ndn.published)) log.publication
        ∙ get_elem?-length w.sender.ndn.published [] _ in
      rw
        (hear_lem _
          (record { name = pre; is_pre = true; is_tcp = false; lifetime = interest_lifetime }) j
          w.receiver asked filter)
        (receive_lem _ _ (flow_of t) n m (record { name = name; pkt = t.pkt; size = t.ip_size })
            answered hf
            (ap (λ l. get_elem? l (length w.receiver.expressed))
                (on_tcp_pre-expressed boost (flow_of t) n w.receiver hf lt)
              ∙ get_elem?-length w.receiver.expressed _ _)
            there refl pkt
          ∙ ap (λ l. l ++ record { buffer = bytes_of m t.ip_size; address = t.key.dst_ip } ∷ [])
              (on_interest-Asks boost pre true true w.receiver).sent)
