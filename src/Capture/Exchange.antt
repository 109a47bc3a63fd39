-- ===== src/Capture/Exchange.antt =====
-- Both sides together: what one host publishes is what the other asks for, and what comes back goes
-- out towards the destination of the packet.
use ip_ndn_stack_cpp.Prelude.{◌+◌, ◌<◌, ◌≡◌, ap, List, [], ◌∷◌, ◌++◌, map, true, false}
use ip_ndn_stack_cpp.Text.{Bytes}
use ip_ndn_stack_cpp.Word.{int_limit}
use ip_ndn_stack_cpp.Boost.{Boost}
use ip_ndn_stack_cpp.Tuple.{Tuple}
use ip_ndn_stack_cpp.Naming.Injective.{IsFlow, flow_data_name}
use ip_ndn_stack_cpp.Table.Laws.{Distinct}
use ip_ndn_stack_cpp.Ndn.State.{
  interest_lifetime, Ndn, Request, express_interest, put_data_to_cache,
}
use ip_ndn_stack_cpp.Ndn.Handlers.{num_of_guest, on_interest}
use ip_ndn_stack_cpp.Ndn.Rounds.{names, missing, tcp_request}
use ip_ndn_stack_cpp.Ndn.Requests.{flow_pre_name, on_tcp_pre-expressed}
use ip_ndn_stack_cpp.Capture.{Host, publish, deal}
use ip_ndn_stack_cpp.Capture.Numbering.{flow_of, is_flow, next_number, deal-flow}

-- What dealing with a packet adds to the logs: the publication, and the announcement.
pub record Announces (h h' : Host) (data_name pre_name : Bytes) (t : Tuple) : Type 0 where
  pub publication :
      h'.ndn.published
      ≡ h.ndn.published ++ record { name = data_name; pkt = t.pkt; size = t.ip_size } ∷ []
  pub announcement :
      h'.ndn.expressed
      ≡ h.ndn.expressed
        ++ record { name = pre_name; is_pre = true; is_tcp = false; lifetime = interest_lifetime }
          ∷ []

pub flow-Announces :
    (uuid : Bytes) (t : Tuple) (h : Host)
    → Distinct h.sequence_table
    → is_flow t ≡ true
    → Announces h
        (deal uuid t h)
        (flow_data_name (flow_of t) (next_number t h))
        (flow_pre_name (flow_of t) (next_number t h))
        t
unfolding publish express_interest put_data_to_cache
flow-Announces uuid t h d e = record {
  publication = ap (λ (x : Host). x.ndn.published) (deal-flow uuid t h d e);
  announcement = ap (λ (x : Host). x.ndn.expressed) (deal-flow uuid t h d e);
}

module _ (boost : Boost) where
  -- When a host deals with a packet of a flow, it adds one publication, of the packet's memory and
  -- IP length, and one announcement; and any host that is handed the announced name answers first of
  -- all with an interest for the name of that publication. The sender's table has distinct keys, the
  -- flow's fields hold what their C types hold, and the number given out is at least 60 below 2^31.
  pub announced-asked :
      (uuid : Bytes) (t : Tuple) (h : Host) (receiver : Ndn)
      → Distinct h.sequence_table
      → is_flow t ≡ true
      → IsFlow (flow_of t)
      → next_number t h + num_of_guest < int_limit
      → (data_name : Bytes) × (pre_name : Bytes) × (guesses : List Request) × Announces h
          (deal uuid t h)
          data_name
          pre_name
          t
        × ((on_interest boost pre_name true true receiver).1.expressed
            ≡ receiver.expressed ++ (tcp_request data_name ∷ guesses))
  announced-asked uuid t h receiver d e hf lt =
      let n = next_number t h in
      (
        flow_data_name (flow_of t) n,
        flow_pre_name (flow_of t) n,
        map tcp_request
            (missing receiver.guess_table (names (flow_data_name (flow_of t)) num_of_guest n)),
        flow-Announces uuid t h d e,
        on_tcp_pre-expressed boost (flow_of t) n receiver hf lt,
      )
