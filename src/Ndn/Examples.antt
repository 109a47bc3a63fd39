-- ===== src/Ndn/Examples.antt =====
-- The theorems on NDNHelper at a concrete flow, with the reference functions for Boost and inet_addr.
use mathlib.Core.Path.{subst}
use ip_ndn_stack_cpp.Prelude.{
  Bool, refl, bytes_eq_sound, ◌≡◌, [], ◌∷◌, ◌++◌, true, false, map, ◌||◌, ◌&&◌, not, bytes_eq,
  arith,
}
use ip_ndn_stack_cpp.Text.{Bytes, codes}
use ip_ndn_stack_cpp.Boost.Reference.{reference}
use ip_ndn_stack_cpp.Naming.{flow_uid}
use ip_ndn_stack_cpp.Naming.Injective.{flow_data_name}
use ip_ndn_stack_cpp.Naming.Examples.{sample_flow, sample_flow-IsFlow}
use ip_ndn_stack_cpp.GuessSet.{find}
use ip_ndn_stack_cpp.Ndn.State.{Ndn, returns, express_interest}
use ip_ndn_stack_cpp.Ndn.Handlers.{num_of_guest, on_interest, on_data}
use ip_ndn_stack_cpp.Ndn.Rounds.{names, missing, tcp_request}
use ip_ndn_stack_cpp.Ndn.Requests.{flow_pre_name, on_tcp_pre-expressed, on_tcp_pre-guess_table}
use ip_ndn_stack_cpp.Ndn.Logs.{Asks, on_interest-Asks}
use ip_ndn_stack_cpp.Ndn.Guesses.{IsAskedFor, GuessesAsked, on_interest-GuessesAsked}
use ip_ndn_stack_cpp.Ndn.Misrouted.{crafted_pre, address_name, crafted_pre-misroutes}
use ip_ndn_stack_cpp.Ndn.Sockets.{reference_sockets}

-- A host that serves one address and has guessed the sample flow's packet 9.
abbrev pub idle_ndn : Ndn
idle_ndn = record {
  register_ip = codes "192.168.72.83" ∷ [];
  filters = [];
  expressed = [];
  published = [];
  sent = [];
  guess_table = flow_data_name sample_flow 9 ∷ [];
  interest_packet_num = 0;
}

on_tcp_pre-expressed_example :
    (on_interest reference (flow_pre_name sample_flow 7) true true idle_ndn).1.expressed
    ≡ []
      ++ (tcp_request (flow_data_name sample_flow 7)
          ∷ map tcp_request
              (missing idle_ndn.guess_table (names (flow_data_name sample_flow) num_of_guest 7)))
on_tcp_pre-expressed_example =
    on_tcp_pre-expressed reference sample_flow 7 idle_ndn sample_flow-IsFlow (omega arith)

on_tcp_pre-guess_table_example :
    find
      (codes "x")
      (on_interest reference (flow_pre_name sample_flow 7) true true idle_ndn).1.guess_table
    ≡ (find (codes "x") (names (flow_data_name sample_flow) num_of_guest 7)
        || (not (bytes_eq (flow_data_name sample_flow 7) (codes "x"))
            && find (codes "x") idle_ndn.guess_table))
on_tcp_pre-guess_table_example =
    on_tcp_pre-guess_table reference sample_flow 7 idle_ndn (codes "x") (omega arith)

on_interest-Asks_example : Asks idle_ndn (on_interest reference (codes "/IP") true true idle_ndn).1
on_interest-Asks_example = on_interest-Asks reference (codes "/IP") true true idle_ndn

-- The sample host, once it has asked for what it has guessed.
abbrev asked_ndn : Ndn
asked_ndn = express_interest (flow_data_name sample_flow 9) false true idle_ndn

asked_guess : GuessesAsked asked_ndn
unfolding find express_interest
asked_guess = record { guess = λ u h. same_guess u h }
  where
    left_or : (b : Bool) → (b || false) ≡ true → b ≡ true
    left_or true h = refl
    left_or false h = h

    same_guess :
        (u : Bytes)
        → find u (flow_data_name sample_flow 9 ∷ []) ≡ true
        → IsAskedFor u (tcp_request (flow_data_name sample_flow 9) ∷ [])
    same_guess u h =
        subst (λ v. IsAskedFor v (tcp_request (flow_data_name sample_flow 9) ∷ []))
          (bytes_eq_sound (flow_data_name sample_flow 9) u (left_or _ h))
          (record { place = 0; there = refl })

on_interest-GuessesAsked_example :
    GuessesAsked (on_interest reference (flow_pre_name sample_flow 7) true true asked_ndn).1
on_interest-GuessesAsked_example =
    on_interest-GuessesAsked reference (flow_pre_name sample_flow 7) true true asked_ndn asked_guess

crafted_pre-misroutes_example :
    (on_interest reference (crafted_pre sample_flow) true false idle_ndn
      ≡ (returns tt, express_interest (address_name sample_flow) false false idle_ndn))
    × (flow_data_name sample_flow 7
        ≡ address_name sample_flow
          ++ (codes "/" ++ flow_uid sample_flow.src_port sample_flow.dst_port 7))
    × (on_data reference_sockets reference
          (flow_data_name sample_flow 7)
          (9 ∷ [])
          false
          false
          idle_ndn
        ≡ (
          returns tt,
          record idle_ndn {
            sent = [] ++ record { buffer = 9 ∷ []; address = sample_flow.src_ip } ∷ [];
          },
        ))
crafted_pre-misroutes_example =
    crafted_pre-misroutes reference reference_sockets sample_flow 7 (9 ∷ []) idle_ndn idle_ndn
      sample_flow-IsFlow
