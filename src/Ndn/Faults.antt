-- ===== src/Ndn/Faults.antt =====
-- What the handlers do with names that no sender of this program builds, and with the numbers that
-- an int does not hold.
use ip_ndn_stack_cpp.Prelude.{
  ℕ, zero, suc, ◌-◌, ◌≤◌, ◌≡◌, refl, List, [], ◌∷◌, true, false, none, arith, length, get_elem?,
  ◌∙◌, ap, ◌++◌, ◌<◌, All,
}
use ip_ndn_stack_cpp.Text.{Bytes, Lacks, codes, slash, dash, to_string, join}
use ip_ndn_stack_cpp.Text.Decimal.{to_string-Lacks}
use ip_ndn_stack_cpp.Word.{ntohs, ntohl, u32_mod, int_limit, int_to_string}
use ip_ndn_stack_cpp.Boost.{Boost}
use ip_ndn_stack_cpp.Naming.{build_name, flow_uid, dotted}
use ip_ndn_stack_cpp.Naming.Parts.{flow_uid-join, tcp_pre_parts, tcp_pre_parts-Lacks, join-Lacks}
use ip_ndn_stack_cpp.Naming.Injective.{Flow, flow_data_name}
use ip_ndn_stack_cpp.Ndn.State.{
  Ndn, throws, out_of_range, bad_lexical_cast, express_interest, ◌>>=◌, update, from_field,
  cast_result,
}
use ip_ndn_stack_cpp.Ndn.Handlers.{forget_guess, deal_on_tcp_pre, deal_on_interest, on_interest}
use ip_ndn_stack_cpp.Ndn.Requests.{flow_pre_name, split-tcp_pre}

past_end : (xs : List Bytes) (i : ℕ) → length xs ≤ i → get_elem? xs i ≡ none
past_end [] i h = refl
past_end (x ∷ xs) zero h = absurd (omega arith)
past_end (x ∷ xs) (suc i) h = past_end xs i (omega arith)

int_to_string-negative : (w : ℕ) → int_limit ≤ w → int_to_string w ≡ dash ∷ to_string (u32_mod - w)
unfolding int_to_string
int_to_string-negative w h = ground arith

-- The part of a name that a sender puts together from the ports and any number in decimal.
abbrev pub number_uid : Flow → ℕ → Bytes
number_uid f n =
    join dash (to_string (ntohs f.src_port)) (to_string (ntohs f.dst_port) ∷ to_string n ∷ [])

-- The name of a pre-request of the flow with any number in decimal, however large.
abbrev pub number_pre_name : Flow → ℕ → Bytes
number_pre_name f n = join slash [] (tcp_pre_parts f.src_ip f.dst_ip (number_uid f n))

-- The name of the data with that number.
abbrev pub number_data_name : Flow → ℕ → Bytes
number_data_name f n =
    codes "/IP/TCP"
    ++ codes "/"
    ++ dotted (ntohl f.src_ip)
    ++ codes "/"
    ++ dotted (ntohl f.dst_ip)
    ++ codes "/"
    ++ number_uid f n

number_parts-Lacks :
    (b : ℕ) (f : Flow) (n : ℕ)
    → b < b'0'
    → All (Lacks b) (to_string (ntohs f.src_port) ∷ to_string (ntohs f.dst_port) ∷ to_string n ∷ [])
number_parts-Lacks b f n h = (
  to_string-Lacks b (ntohs f.src_port) h,
  (to_string-Lacks b (ntohs f.dst_port) h, (to_string-Lacks b n h, tt)),
)

number_uid-Lacks : (f : Flow) (n : ℕ) → Lacks slash (number_uid f n)
number_uid-Lacks f n =
    join-Lacks slash dash (to_string (ntohs f.src_port))
      (to_string (ntohs f.dst_port) ∷ to_string n ∷ []) (omega arith, tt)
      (number_parts-Lacks slash f n (omega arith))

module _ (boost : Boost) where
  -- A pre-request of a flow with a decimal number that no int holds makes the handler throw
  -- bad_lexical_cast; the interest for the data of that number has gone out then, its name is no guess
  -- any more, and no guess is made.
  pub number_pre_past_int :
      (f : Flow) (n : ℕ) (s : Ndn)
      → int_limit ≤ n
      → on_interest boost (number_pre_name f n) true true s ≡ (
        throws bad_lexical_cast,
        forget_guess (number_data_name f n) (express_interest (number_data_name f n) false true s),
      )
  unfolding on_interest deal_on_interest deal_on_tcp_pre ◌>>=◌ update from_field cast_result
  number_pre_past_int f n s h =
      let u = number_uid f n in
      rw
        (boost.split-join slash [] (tcp_pre_parts f.src_ip f.dst_ip u)
          (tcp_pre_parts-Lacks f.src_ip f.dst_ip u (number_uid-Lacks f n)))
        (rw
          (
            boost.split-join dash (to_string (ntohs f.src_port))
                (to_string (ntohs f.dst_port) ∷ to_string n ∷ [])
                (number_parts-Lacks dash f n (omega arith)),
            boost.lexical_cast-past_int n h,
          )
          refl)

  -- A TCP pre-request whose name has six or fewer parts makes the handler read past the end of the
  -- parts before it has done anything.
  pub short_tcp_pre :
      (name : Bytes) (s : Ndn)
      → length (boost.split name slash) ≤ 6
      → on_interest boost name true true s ≡ (out_of_range, s)
  unfolding on_interest deal_on_interest deal_on_tcp_pre ◌>>=◌ from_field
  short_tcp_pre name s h = ground (arith, past_end (boost.split name slash) 6 h)

  uid_negative :
      (f : Flow) (seq : ℕ)
      → int_limit ≤ seq
      → boost.split (flow_uid f.src_port f.dst_port seq) dash
        ≡ to_string (ntohs f.src_port)
          ∷ to_string (ntohs f.dst_port)
          ∷ []
          ∷ to_string (u32_mod - seq)
          ∷ []
  uid_negative f seq h =
      ap (λ u. boost.split u dash) joined
      ∙ boost.split-join dash (to_string (ntohs f.src_port)) (rest) (
        to_string-Lacks dash (ntohs f.src_port) (omega arith),
        (
          to_string-Lacks dash (ntohs f.dst_port) (omega arith),
          (tt, (to_string-Lacks dash (u32_mod - seq) (omega arith), tt)),
        ),
      )
    where
      rest : List Bytes
      rest = to_string (ntohs f.dst_port) ∷ [] ∷ to_string (u32_mod - seq) ∷ []

      joined : flow_uid f.src_port f.dst_port seq ≡ join dash (to_string (ntohs f.src_port)) rest
      joined = flow_uid-join f.src_port f.dst_port seq ∙ rw (int_to_string-negative seq h) refl

  -- The pre-request for a packet whose number does not fit an int, which prints with a minus sign,
  -- makes the handler throw bad_lexical_cast; the interest for the packet itself has gone out then,
  -- its name is no guess any more, and no guess is made.
  pub tcp_pre_past_int :
      (f : Flow) (seq : ℕ) (s : Ndn)
      → int_limit ≤ seq
      → on_interest boost (flow_pre_name f seq) true true s ≡ (
        throws bad_lexical_cast,
        forget_guess (flow_data_name f seq) (express_interest (flow_data_name f seq) false true s),
      )
  unfolding on_interest deal_on_interest deal_on_tcp_pre build_name ◌>>=◌ update from_field
      cast_result
  tcp_pre_past_int f seq s h =
      rw (split-tcp_pre boost f seq) (rw (uid_negative f seq h, boost.lexical_cast-nil) refl)
