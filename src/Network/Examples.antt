-- ===== src/Network/Examples.antt =====
-- A packet of the sample flow on its way between two hosts, over a forwarder that matches names by
-- whole components.
use ip_ndn_stack_cpp.Prelude.{
  ◌≡◌, refl, ap, bytes_eq, ◌∙◌, [], ◌∷◌, ◌++◌, Bool, true, false, ◌&&◌, ◌==◌, arith, ◌+◌, get_elem?,
  length, some, ℕ,
}
use ip_ndn_stack_cpp.GuessSet.{find}
use ip_ndn_stack_cpp.Ndn.Rounds.{tcp_request}
use ip_ndn_stack_cpp.Text.{Bytes, codes, slash, to_string}
use ip_ndn_stack_cpp.Word.{ntohs, ntohl, int_to_string, inc_int}
use ip_ndn_stack_cpp.Boost.Reference.{reference}
use ip_ndn_stack_cpp.Naming.{build_name, dotted, flow_uid, build_4_tuple_key}
use ip_ndn_stack_cpp.Naming.Examples.{sample_flow, sample_flow-IsFlow}
use ip_ndn_stack_cpp.Table.{lookup, get, save, remove, erase, get_and_increase_sequence}
use ip_ndn_stack_cpp.Ndn.State.{
  interest_lifetime, Ndn, Request, Publication, express_interest, put_data_to_cache,
}
use ip_ndn_stack_cpp.Naming.Injective.{flow_data_name}
use ip_ndn_stack_cpp.Capture.{deal, deal_first, deal_next, publish}
use ip_ndn_stack_cpp.Ndn.Handlers.{filters_of}
use ip_ndn_stack_cpp.Ndn.Requests.{flow_pre_name}
use ip_ndn_stack_cpp.Ndn.Examples.{idle_ndn}
use ip_ndn_stack_cpp.Ndn.Sockets.{reference_sockets}
use ip_ndn_stack_cpp.Packet.Examples.{byte_at}
use ip_ndn_stack_cpp.Capture.Numbering.{next_number}
use ip_ndn_stack_cpp.Capture.Examples.{sample_packet, idle_host}
use ip_ndn_stack_cpp.Network.{Forwarder, World, captures, asks, brings, bytes_of, step, run}
use ip_ndn_stack_cpp.Network.Guessed.{run-delivers_guessed}
use ip_ndn_stack_cpp.Network.Delivered.{IsFilterFor}

unfoldable pub component_prefix : Bytes → Bytes → Bool
component_prefix [] [] = true
component_prefix [] (c ∷ n) = c == slash
component_prefix (c ∷ p) [] = false
component_prefix (c ∷ p) (d ∷ n) = (c == d) && component_prefix p n

pub component_prefix-extends :
    (p n : Bytes) → component_prefix p n ≡ true → (rest : Bytes) × (n ≡ p ++ rest)
unfolding component_prefix
component_prefix-extends [] n h = (n, refl)
component_prefix-extends (c ∷ p) [] h = cc
component_prefix-extends (c ∷ p) (d ∷ n) h =
    let (rest, e) = component_prefix-extends p n (ground arith) in
    let same : d ≡ c = ground arith in (rest, ap (λ x. x ∷ n) same ∙ ap (λ l. c ∷ l) e)

pub component_prefix_self : (n : Bytes) → component_prefix n n ≡ true
unfolding component_prefix
component_prefix_self [] = refl
component_prefix_self (c ∷ n) = ground (arith, component_prefix_self n)

abbrev pub forwarder : Forwarder
forwarder = record {
  matches = component_prefix;
  matches-extends = component_prefix-extends;
  matches_self = component_prefix_self;
}

-- The receiver serves the destination of the packet.
abbrev pub serving : Ndn
serving = record idle_ndn { register_ip = codes "1.2.3.4" ∷ []; guess_table = [] }

abbrev pub two_hosts : World
two_hosts = record {
  sender = idle_host;
  receiver = record serving { filters = filters_of (codes "1.2.3.4") };
}

pub announcement_filter :
    IsFilterFor forwarder
      (flow_pre_name sample_flow (next_number sample_packet idle_host))
      2
      two_hosts.receiver
unfolding component_prefix build_name dotted flow_uid to_string ntohs ntohl int_to_string lookup
announcement_filter = record {
  filter = record { prefix = codes "/IP/TCP/pre/1.2.3.4"; pre = true; tcp = true };
  there = refl;
  pre = refl;
  tcp = refl;
  matched = refl;
}

first_number : next_number sample_packet idle_host ≡ 1
unfolding lookup
first_number = refl

-- Two packets of the flow; only the announcement of the first gets through.
abbrev second_packet : Publication
second_packet = record {
  name = flow_data_name sample_flow 2;
  pkt = sample_packet.pkt;
  size = sample_packet.ip_size;
}

abbrev first_announcement : Request
first_announcement = record {
  name = flow_pre_name sample_flow 1;
  is_pre = true;
  is_tcp = false;
  lifetime = interest_lifetime;
}

abbrev after_first : World
after_first = run forwarder reference reference_sockets (captures [] sample_packet ∷ []) two_hosts

abbrev after_second : World
after_second =
    run forwarder reference reference_sockets (asks 0 2 ∷ captures [] sample_packet ∷ [])
      after_first

not_guessed : find (flow_data_name sample_flow 2) after_first.receiver.guess_table ≡ false
unfolding run step find
not_guessed = refl

run-delivers_guessed_example :
    (i : ℕ) × (get_elem?
        (step forwarder reference reference_sockets after_first (asks 0 2)).receiver.expressed
        (i + length after_first.receiver.expressed)
      ≡ some (tcp_request (flow_data_name sample_flow 2)))
    × ((step forwarder reference reference_sockets after_second
          (brings (i + length after_first.receiver.expressed) 1)).receiver.sent
        ≡ after_second.receiver.sent
          ++ record { buffer = bytes_of (byte_at []) 40; address = 0x0403_0201 } ∷ [])
unfolding run step deal deal_first deal_next publish express_interest put_data_to_cache lookup get
    save remove erase get_and_increase_sequence build_4_tuple_key build_name dotted flow_uid
    to_string ntohs ntohl int_to_string bytes_eq inc_int
run-delivers_guessed_example =
    run-delivers_guessed forwarder reference reference_sockets (captures [] sample_packet ∷ [])
      sample_flow 1 2 0 2 1 first_announcement second_packet (byte_at []) after_first
      sample_flow-IsFlow (omega arith) (omega arith) (omega arith) not_guessed refl refl
      announcement_filter refl refl refl
