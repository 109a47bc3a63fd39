-- ===== src/Ndn/Delivery.antt =====
-- Data that comes back goes out as an IP packet towards the address that the name carries; and the
-- filters that `start` sets for the registered addresses.
use ip_ndn_stack_cpp.Prelude.{
  ℕ, ◌≡◌, refl, List, [], ◌∷◌, ◌++◌, append-nil, append_assoc, Bool, true, false, if◌then◌else◌,
  Bool-cases, inl, inr,
}
use ip_ndn_stack_cpp.Text.{Bytes, slash, Lacks}
use ip_ndn_stack_cpp.Boost.{Boost}
use ip_ndn_stack_cpp.Naming.{build_name, flow_uid}
use ip_ndn_stack_cpp.Naming.Parts.{
  tcp_data_parts, data_parts, tcp_data_parts-Lacks, data_parts-Lacks, build_name-tcp_data,
  build_name-data, flow_uid-Lacks,
}
use ip_ndn_stack_cpp.Naming.Injective.{Flow, IsFlow, flow_data_name}
use ip_ndn_stack_cpp.Ndn.State.{Ndn, Filter, returns, ◌>>=◌, update, from_field}
use ip_ndn_stack_cpp.Ndn.Handlers.{
  Sockets, deal_on_data, on_data, filters_of, set_filters, register_all, start,
}

module _ (sockets : Sockets) (boost : Boost) where
  -- The content of a flow's data packet is sent as it came, as one datagram to the destination
  -- address of the flow, and nothing else changes; the flow's addresses and ports fit their fields.
  pub on_tcp_data-sends :
      (f : Flow) (seq : ℕ) (content : Bytes) (s : Ndn)
      → IsFlow f
      → on_data sockets boost (flow_data_name f seq) content false true s ≡ (
        returns tt,
        record s { sent = s.sent ++ record { buffer = content; address = f.dst_ip } ∷ [] },
      )
  unfolding on_data deal_on_data ◌>>=◌ update from_field
  on_tcp_data-sends f seq content s hf =
      let u = flow_uid f.src_port f.dst_port seq in
      rw
        (
          build_name-tcp_data f.src_ip f.dst_ip f.src_port f.dst_port seq [],
          boost.split-join slash [] (tcp_data_parts f.src_ip f.dst_ip u)
              (tcp_data_parts-Lacks f.src_ip f.dst_ip u (flow_uid-Lacks f.src_port f.dst_port seq)),
        )
        (rw (sockets.inet_addr-dotted f.dst_ip hf.dst_ip_fits) refl)

  -- The content of another packet's data is sent as it came, as one datagram to the destination
  -- address in its name, and nothing else changes; its uid holds no slash, and its addresses and ports
  -- fit their fields.
  pub on_other_data-sends :
      (f : Flow) (seq : ℕ) (uid content : Bytes) (s : Ndn)
      → IsFlow f
      → Lacks slash uid
      → on_data sockets boost
          (build_name f.src_ip f.dst_ip f.src_port f.dst_port 2 seq uid).0
          content
          false
          false
          s
        ≡ (
          returns tt,
          record s { sent = s.sent ++ record { buffer = content; address = f.dst_ip } ∷ [] },
        )
  unfolding on_data deal_on_data ◌>>=◌ update from_field
  on_other_data-sends f seq uid content s hf h =
      rw
        (
          build_name-data f.src_ip f.dst_ip f.src_port f.dst_port seq uid,
          boost.split-join slash [] (data_parts f.src_ip f.dst_ip uid)
              (data_parts-Lacks f.src_ip f.dst_ip uid h),
        )
        (rw (sockets.inet_addr-dotted f.dst_ip hf.dst_ip_fits) refl)

-- The filters before the first one whose prefix the face does not accept.
unfoldable pub accepted : (Bytes → Bool) → List Filter → List Filter
accepted accepts [] = []
accepted accepts (f ∷ fs) = if accepts f.prefix then f ∷ accepted accepts fs else []

unfoldable pub all_accepted : (Bytes → Bool) → List Bytes → List Filter
all_accepted accepts [] = []
all_accepted accepts (ip ∷ ips) = accepted accepts (filters_of ip) ++ all_accepted accepts ips

set_filters_lem :
    (accepts : Bytes → Bool) (fs : List Filter) (s : Ndn)
    → set_filters accepts fs s ≡ record s { filters = s.filters ++ accepted accepts fs }
unfolding set_filters accepted
set_filters_lem accepts [] s = rw append-nil
set_filters_lem accepts (f ∷ fs) s = elim (Bool-cases (accepts f.prefix)) [
  | inl good ↦ rw (
    good,
    set_filters_lem accepts fs (record s { filters = s.filters ++ f ∷ [] }),
    append_assoc s.filters (f ∷ []) (accepted accepts fs),
  )
  | inr bad ↦ rw (bad, append-nil)
]

register_all_lem :
    (accepts : Bytes → Bool) (ips : List Bytes) (s : Ndn)
    → register_all accepts ips s ≡ record s { filters = s.filters ++ all_accepted accepts ips }
unfolding register_all all_accepted
register_all_lem accepts [] s = rw append-nil
register_all_lem accepts (ip ∷ ips) s = rw (
  set_filters_lem accepts (filters_of ip) s,
  register_all_lem accepts ips
      (record s { filters = s.filters ++ accepted accepts (filters_of ip) }),
  append_assoc s.filters (accepted accepts (filters_of ip)) (all_accepted accepts ips),
)

-- `start` sets, for each registered address in order, its four filters up to the first one at which
-- the face throws, and goes on with the next address then; it changes nothing else.
pub start-filters :
    (accepts : Bytes → Bool) (s : Ndn)
    → start accepts s ≡ record s { filters = s.filters ++ all_accepted accepts s.register_ip }
unfolding start
start-filters accepts s = register_all_lem accepts s.register_ip s
