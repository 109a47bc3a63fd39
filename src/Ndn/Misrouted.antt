-- ===== src/Ndn/Misrouted.antt =====
-- A pre-request that no sender of this program builds, and where the packets go that it fetches.
-- `start` lets interests be prefixes, so that an interest is satisfied by data whose name goes on.
use ip_ndn_stack_cpp.Prelude.{
  ℕ, ◌≡◌, refl, List, [], ◌∷◌, ◌++◌, append_assoc, true, false, arith, All,
}
use ip_ndn_stack_cpp.Text.{Bytes, codes, slash, join, Lacks}
use ip_ndn_stack_cpp.Word.{ntohl}
use ip_ndn_stack_cpp.Boost.{Boost}
use ip_ndn_stack_cpp.Naming.{dotted, flow_uid, build_name}
use ip_ndn_stack_cpp.Naming.Parts.{
  tcp_data_parts, tcp_data_parts-Lacks, build_name-tcp_data, flow_uid-Lacks, slashless,
}
use ip_ndn_stack_cpp.Naming.Injective.{Flow, IsFlow, flow_data_name}
use ip_ndn_stack_cpp.Ndn.State.{Ndn, returns, ◌>>=◌, update, from_field, express_interest}
use ip_ndn_stack_cpp.Ndn.Handlers.{
  Sockets, deal_on_data, on_data, deal_on_other_pre, deal_on_interest, on_interest,
}

-- A pre-request with "TCP" in the place of an address.
abbrev crafted_parts : Flow → List Bytes
crafted_parts f =
    codes "IP" ∷ codes "pre" ∷ dotted (ntohl f.src_ip) ∷ codes "TCP" ∷ dotted (ntohl f.dst_ip) ∷ []

abbrev pub crafted_pre : Flow → Bytes
crafted_pre f = join slash [] (crafted_parts f)

-- The name of all packets between the two addresses of a flow, without their last part.
abbrev pub address_name : Flow → Bytes
address_name f = codes "/IP/TCP/" ++ dotted (ntohl f.src_ip) ++ codes "/" ++ dotted (ntohl f.dst_ip)

crafted-Lacks : (f : Flow) → All (Lacks slash) ([] ∷ crafted_parts f)
crafted-Lacks f = (
  tt,
  (omega arith, (omega arith, (slashless f.src_ip, (omega arith, (slashless f.dst_ip, tt))))),
)

module _ (boost : Boost) where
  crafted_asks :
      (f : Flow) (s : Ndn)
      → on_interest boost (crafted_pre f) true false s
        ≡ (returns tt, express_interest (address_name f) false false s)
  unfolding on_interest deal_on_interest deal_on_other_pre ◌>>=◌ update from_field
  crafted_asks f s = rw (boost.split-join slash [] (crafted_parts f) (crafted-Lacks f)) refl

  address_name-extends :
      (f : Flow) (n : ℕ)
      → flow_data_name f n ≡ address_name f ++ (codes "/" ++ flow_uid f.src_port f.dst_port n)
  unfolding build_name
  address_name-extends f n = simp append_assoc

  module _ (sockets : Sockets) where
    returned_to_source :
        (f : Flow) (n : ℕ) (content : Bytes) (s : Ndn)
        → IsFlow f
        → on_data sockets boost (flow_data_name f n) content false false s ≡ (
          returns tt,
          record s { sent = s.sent ++ record { buffer = content; address = f.src_ip } ∷ [] },
        )
    unfolding on_data deal_on_data ◌>>=◌ update from_field
    returned_to_source f n content s hf =
        let u = flow_uid f.src_port f.dst_port n in
        rw
          (
            build_name-tcp_data f.src_ip f.dst_ip f.src_port f.dst_port n [],
            boost.split-join slash [] (tcp_data_parts f.src_ip f.dst_ip u)
                (tcp_data_parts-Lacks f.src_ip f.dst_ip u (flow_uid-Lacks f.src_port f.dst_port n)),
          )
          (rw (sockets.inet_addr-dotted f.src_ip hf.src_ip_fits) refl)

    -- The pre-request /IP/pre/<source>/TCP/<destination> of a flow makes the handler ask for
    -- /IP/TCP/<source>/<destination>, as if for a packet that is of no flow. The name of every packet
    -- of the flow goes on from that one; and such a packet, when it comes back for that interest, is
    -- sent to its source address instead of its destination. The flow's addresses and ports fit their
    -- fields.
    pub crafted_pre-misroutes :
        (f : Flow) (n : ℕ) (content : Bytes) (s r : Ndn)
        → IsFlow f
        → (on_interest boost (crafted_pre f) true false s
            ≡ (returns tt, express_interest (address_name f) false false s))
          × (flow_data_name f n ≡ address_name f ++ (codes "/" ++ flow_uid f.src_port f.dst_port n))
          × (on_data sockets boost (flow_data_name f n) content false false r ≡ (
            returns tt,
            record r { sent = r.sent ++ record { buffer = content; address = f.src_ip } ∷ [] },
          ))
    crafted_pre-misroutes f n content s r hf =
        (crafted_asks f s, address_name-extends f n, returned_to_source f n content r hf)
