-- ===== src/Ndn/Handlers.antt =====
-- NDNHelper's handlers of incoming interests and data, over the Boost functions and inet_addr.
use ip_ndn_stack_cpp.Prelude.{
  ℕ, zero, suc, ◌/◌, ◌<◌, ◌≡◌, List, [], ◌∷◌, ◌++◌, Bool, true, false, if◌then◌else◌,
}
use ip_ndn_stack_cpp.Text.{Bytes, codes, slash, dash}
use ip_ndn_stack_cpp.Word.{u32_mod, ntohl, inc_int, int_to_string}
use ip_ndn_stack_cpp.Boost.{Boost}
use ip_ndn_stack_cpp.Naming.{
  dotted, prefix_pre_request, prefix_request_data, prefix_tcp_pre_request, prefix_tcp_request_data,
}
use ip_ndn_stack_cpp.GuessSet
use ip_ndn_stack_cpp.Ndn.State.{
  Ndn, Filter, M, ◌>>=◌, ◌>>◌, pure, update, at, cast_result, express_interest,
}

abbrev pub num_of_guest : ℕ
num_of_guest = 60

-- One round of the guessing loop, for the name guessed in it.
unfoldable pub guess_one : Bytes → Ndn → Ndn
guess_one name s =
    let (table, fresh) = GuessSet.save_concurrence name s.guess_table in
    let s' = record s { guess_table = table } in
    if fresh then express_interest name false true s' else s'

-- The rounds left, and `num_of_sequence`.
unfoldable pub guess_rounds : Bytes → ℕ → ℕ → Ndn → Ndn
guess_rounds guess_name zero num s = s
guess_rounds guess_name (suc rounds) num s =
    guess_rounds guess_name rounds (inc_int num)
      (guess_one (guess_name ++ int_to_string (inc_int num)) s)

-- What is asked for at last is no longer a guess.
unfoldable pub forget_guess : Bytes → Ndn → Ndn
forget_guess name s =
    if GuessSet.find name s.guess_table
    then record s { guess_table = (GuessSet.erase name s.guess_table).0 }
    else s

module _ (boost : Boost) where
  -- The branch of dealOnInterest for pre-requests of TCP and UDP flows.
  unfoldable pub deal_on_tcp_pre : Bytes → M (Unit {0})
  deal_on_tcp_pre interest_name = do
    let fields = boost.split interest_name slash
    sip ← at fields 4
    dip ← at fields 5
    uid ← at fields 6
    let guess_name = codes "/IP/TCP" ++ codes "/" ++ dip ++ codes "/" ++ sip
    let next_name = guess_name ++ codes "/" ++ uid
    update (express_interest next_name false true)
    update (forget_guess next_name)
    let uuid_fields = boost.split uid dash
    text ← at uuid_fields 2
    num_of_sequence ← cast_result (boost.lexical_cast text)
    first ← at uuid_fields 0
    second ← at uuid_fields 1
    update (
        guess_rounds (guess_name ++ codes "/" ++ first ++ codes "-" ++ second ++ codes "-")
          num_of_guest num_of_sequence)

  -- The branch for pre-requests of other packets.
  unfoldable pub deal_on_other_pre : Bytes → M (Unit {0})
  deal_on_other_pre interest_name = do
    let fields = boost.split interest_name slash
    sip ← at fields 3
    dip ← at fields 4
    uid ← at fields 5
    let next_name = codes "/IP" ++ codes "/" ++ dip ++ codes "/" ++ sip ++ codes "/" ++ uid
    update (express_interest next_name false false)

  unfoldable pub deal_on_interest : Bytes → Bool → Bool → M (Unit {0})
  deal_on_interest interest_name is_pre is_tcp =
      if is_pre
      then if is_tcp then deal_on_tcp_pre interest_name else deal_on_other_pre interest_name
      else pure tt

  -- NDNHelper::onInterest.
  unfoldable pub on_interest : Bytes → Bool → Bool → M (Unit {0})
  on_interest interest_name is_pre is_tcp = deal_on_interest interest_name is_pre is_tcp

-- inet_addr of the C library: an address in network order from its dotted text.
pub record Sockets : Type 0 where
  pub inet_addr : Bytes → ℕ
  pub inet_addr-dotted : (ip : ℕ) → ip < u32_mod → inet_addr (dotted (ntohl ip)) ≡ ip

module _ (sockets : Sockets) where
  -- RawSocketHelper::sendPacketTo.
  unfoldable pub send_packet_to : Bytes → Bytes → Ndn → Ndn
  send_packet_to buffer ip s = record s {
    sent = s.sent ++ record { buffer = buffer; address = sockets.inet_addr ip } ∷ [];
  }

  module _ (boost : Boost) where
    -- NDNHelper::dealOnData: the content goes out as an IP packet.
    unfoldable pub deal_on_data : Bytes → Bytes → Bool → Bool → M (Unit {0})
    unfolding send_packet_to
    deal_on_data name content is_pre is_tcp = if is_pre then pure tt else (do
      let fields = boost.split name slash
      ip ← at fields (if is_tcp then 4 else 3)
      update (send_packet_to content ip))

    -- NDNHelper::onData.
    unfoldable pub on_data : Bytes → Bytes → Bool → Bool → M (Unit {0})
    on_data name content is_pre is_tcp = deal_on_data name content is_pre is_tcp

-- NDNHelper::getCurTime: the milliseconds of a system clock that counts nanoseconds.
unfoldable pub get_cur_time : ℕ → ℕ
get_cur_time nanoseconds = nanoseconds / 1000000

-- NDNHelper::onNack and NDNHelper::onTimeout do nothing.
pub on_nack : Ndn → Ndn
on_nack s = s

pub on_timeout : Bytes → Bool → Ndn → Ndn
on_timeout name is_pre s = s

-- NDNHelper::onRegisterFailed prints, and no more.
pub on_register_failed : Bytes → Ndn → Ndn
on_register_failed prefix s = s

-- The four filters of one address.
abbrev pub filters_of : Bytes → List Filter
filters_of ip =
    record { prefix = prefix_pre_request ++ codes "/" ++ ip; pre = true; tcp = false }
    ∷ record { prefix = prefix_request_data ++ codes "/" ++ ip; pre = false; tcp = false }
    ∷ record { prefix = prefix_tcp_pre_request ++ codes "/" ++ ip; pre = true; tcp = true }
    ∷ record { prefix = prefix_tcp_request_data ++ codes "/" ++ ip; pre = false; tcp = true }
    ∷ []

-- Set the filters in order, until the face throws; `accepts` says for which prefixes it does not. The
-- addresses are such that ndn-cxx makes names of the prefixes, which it does before the try block.
unfoldable pub set_filters : (Bytes → Bool) → List Filter → Ndn → Ndn
set_filters accepts [] s = s
set_filters accepts (f ∷ fs) s =
    let rest = set_filters accepts fs (record s { filters = s.filters ++ f ∷ [] }) in
    if accepts f.prefix then rest else s

-- NDNHelper::start, up to the event loop of the face.
unfoldable pub register_all : (Bytes → Bool) → List Bytes → Ndn → Ndn
register_all accepts [] s = s
register_all accepts (ip ∷ ips) s = register_all accepts ips (set_filters accepts (filters_of ip) s)

unfoldable pub start : (Bytes → Bool) → Ndn → Ndn
unfolding register_all set_filters
start accepts s = register_all accepts s.register_ip s
