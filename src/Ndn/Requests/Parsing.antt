-- ===== src/Ndn/Requests/Parsing.antt =====
-- How the handler of pre-requests takes their names apart, and what it does with the parts.
use ip_ndn_stack_cpp.Prelude.{ℕ, ◌<◌, ◌≡◌, refl, [], ◌∷◌, ◌++◌, append_assoc, true, false, arith}
use ip_ndn_stack_cpp.Text.{Bytes, codes, slash, dash, Lacks, to_string}
use ip_ndn_stack_cpp.Word.{ntohs, ntohl, int_to_string, int_limit}
use ip_ndn_stack_cpp.Boost.{Boost}
use ip_ndn_stack_cpp.Naming.{build_name, flow_uid, dotted}
use ip_ndn_stack_cpp.Naming.Parts.{
  tcp_pre_parts, pre_parts, tcp_pre_parts-Lacks, pre_parts-Lacks, build_name-tcp_pre,
  build_name-pre, flow_uid-join, flow_uid-Lacks,
}
use ip_ndn_stack_cpp.Naming.Injective.{Flow, flow_data_name, uid_parts-Lacks}
use ip_ndn_stack_cpp.Ndn.State.{
  Ndn, returns, ◌>>=◌, update, from_field, cast_result, express_interest,
}
use ip_ndn_stack_cpp.Ndn.Handlers.{
  guess_rounds, forget_guess, num_of_guest, deal_on_tcp_pre, deal_on_other_pre, deal_on_interest,
  on_interest,
}

-- The name of a flow's pre-request.
abbrev pub flow_pre_name : Flow → ℕ → Bytes
flow_pre_name f seq = (build_name f.src_ip f.dst_ip f.src_port f.dst_port 3 seq []).0

-- What the name of a guess starts with.
unfoldable pub guess_base : Flow → Bytes
guess_base f =
    codes "/IP/TCP"
    ++ codes "/"
    ++ dotted (ntohl f.src_ip)
    ++ codes "/"
    ++ dotted (ntohl f.dst_ip)
    ++ codes "/"
    ++ to_string (ntohs f.src_port)
    ++ codes "-"
    ++ to_string (ntohs f.dst_port)
    ++ codes "-"

pub guess_base-name : (f : Flow) (n : ℕ) → guess_base f ++ int_to_string n ≡ flow_data_name f n
unfolding guess_base build_name flow_uid
guess_base-name f n = simp append_assoc

module _ (boost : Boost) where
  pub split-tcp_pre :
      (f : Flow) (seq : ℕ)
      → boost.split (flow_pre_name f seq) slash
        ≡ [] ∷ tcp_pre_parts f.src_ip f.dst_ip (flow_uid f.src_port f.dst_port seq)
  split-tcp_pre f seq =
      let u = flow_uid f.src_port f.dst_port seq in
      rw (build_name-tcp_pre f.src_ip f.dst_ip f.src_port f.dst_port seq []) (
        boost.split-join slash [] (tcp_pre_parts f.src_ip f.dst_ip u)
          (tcp_pre_parts-Lacks f.src_ip f.dst_ip u (flow_uid-Lacks f.src_port f.dst_port seq)))

  split-uid :
      (f : Flow) (seq : ℕ)
      → seq < int_limit
      → boost.split (flow_uid f.src_port f.dst_port seq) dash
        ≡ to_string (ntohs f.src_port) ∷ to_string (ntohs f.dst_port) ∷ int_to_string seq ∷ []
  split-uid f seq h = rw (flow_uid-join f.src_port f.dst_port seq) (
      boost.split-join dash (to_string (ntohs f.src_port))
        (to_string (ntohs f.dst_port) ∷ int_to_string seq ∷ [])
        (uid_parts-Lacks f.src_port f.dst_port seq h))

  -- The state after the pre-request, by the steps of the handler.
  pub tcp_pre_runs :
      (f : Flow) (seq : ℕ) (s : Ndn)
      → seq < int_limit
      → deal_on_tcp_pre boost (flow_pre_name f seq) s ≡ (
        returns tt,
        guess_rounds (guess_base f) num_of_guest seq (
            forget_guess
              (flow_data_name f seq)
              (express_interest (flow_data_name f seq) false true s)),
      )
  unfolding deal_on_tcp_pre guess_base build_name ◌>>=◌ update from_field cast_result
  tcp_pre_runs f seq s h =
      rw (split-tcp_pre f seq)
        (rw (split-uid f seq h, boost.lexical_cast-int_to_string seq (omega arith)) refl)

  -- The pre-request for another packet is answered by one interest, for the name that this packet is
  -- published under, and changes nothing else; the packet's uid holds no slash.
  pub on_other_pre-asks :
      (f : Flow) (seq : ℕ) (uid : Bytes) (s : Ndn)
      → Lacks slash uid
      → on_interest boost
          (build_name f.src_ip f.dst_ip f.src_port f.dst_port 1 seq uid).0
          true
          false
          s
        ≡ (
          returns tt,
          express_interest
              (build_name f.src_ip f.dst_ip f.src_port f.dst_port 2 seq uid).0
              false
              false
              s,
        )
  unfolding on_interest deal_on_interest deal_on_other_pre ◌>>=◌ update from_field
  on_other_pre-asks f seq uid s h =
      rw
        (
          build_name-pre f.src_ip f.dst_ip f.src_port f.dst_port seq uid,
          boost.split-join slash [] (pre_parts f.src_ip f.dst_ip uid)
              (pre_parts-Lacks f.src_ip f.dst_ip uid h),
        )
        (unfold build_name in refl)
