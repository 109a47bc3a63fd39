-- ===== src/Capture.antt =====
-- The capturing side: PcapHelper::readNextPacketAfterDecode (helper/PcapHelper.cpp) and
-- LibPcapHelper (helper/LibPcapHelper.cpp), which publishes every captured packet and announces it.
pub mod Numbering
pub mod Fresh
pub mod Exchange
pub mod Rejected
pub mod Reads
pub mod Loop
pub mod Turns
pub mod Examples
use ip_ndn_stack_cpp.Prelude.{
  ℕ, ◌+◌, ◌-◌, ◌^◌, [], ◌∷◌, List, Bool, true, false, Option, none, some, ◌||◌, not, ltb, leb, ◌==◌,
  if◌then◌else◌,
}
use ip_ndn_stack_cpp.Text.{Bytes, codes}
use ip_ndn_stack_cpp.Word.{int_limit, u32_mod}
use ip_ndn_stack_cpp.Tuple.{Memory, FlowKey, Tuple}
use ip_ndn_stack_cpp.Naming.{build_name, build_4_tuple_key}
use ip_ndn_stack_cpp.Table
use ip_ndn_stack_cpp.Table.{Table}
use ip_ndn_stack_cpp.Ndn.State.{Ndn, express_interest, put_data_to_cache}
use ip_ndn_stack_cpp.Packet.Stat.{Globals}
use ip_ndn_stack_cpp.Packet.Decode.{decode, ipproto_tcp, ipproto_udp}

-- The process: NDNHelper, the sequence table, and the globals of the decoder.
pub record Host : Type 0 where
  pub ndn : Ndn
  pub sequence_table : Table ℕ
  pub globals : Globals

-- What `new tuple_t()` gives.
abbrev pub new_tuple : Tuple
new_tuple = record {
  key = record { src_ip = 0; dst_ip = 0; src_port = 0; dst_port = 0; proto = 0 };
  index = 0;
  pkt = none;
  flag = 0;
  pkt_ts = 0;
  seq = 0;
  size = 0;
  ip_size = 0;
}

-- The name of a tuple, of the given type.
abbrev pub tuple_name : Tuple → ℕ → ℕ → Bytes → Bytes
tuple_name t type seq uid =
    (build_name t.key.src_ip t.key.dst_ip t.key.src_port t.key.dst_port type seq uid).0

-- Publish a tuple under a name, and announce it by another.
unfoldable pub publish : Bytes → Bytes → Tuple → Ndn → Ndn
publish data_name pre_name t s =
    express_interest pre_name true false (put_data_to_cache data_name t s)

-- The first packet of a flow: it gets the number 1, if the table takes it.
unfoldable pub deal_first : Bytes → Tuple → Host → Host
unfolding publish
deal_first key tuple h =
    let t = record tuple { index = 1 } in
    let (table, saved) = Table.save key t.index h.sequence_table in
    if saved
    then record h {
      ndn = publish (tuple_name t 4 t.index []) (tuple_name t 3 1 []) t h.ndn;
      sequence_table = table;
    }
    else record h { sequence_table = table }

announce_next : Tuple → Table ℕ → Option ℕ → Bool → Host → Host
unfolding publish
announce_next tuple table none success h = record h { sequence_table = table }
announce_next tuple table (some index) success h =
    let t = record tuple { index = index } in
    if success
    then record h {
      ndn = publish (tuple_name t 4 t.index []) (tuple_name t 3 t.index []) t h.ndn;
      sequence_table = table;
    }
    else record h { sequence_table = table }

-- A later packet of a flow: it gets the next number.
unfoldable pub deal_next : Bytes → Tuple → Host → Host
unfolding announce_next
deal_next key tuple h =
    let (table, index, success) = Table.get_and_increase_sequence key h.sequence_table in
    announce_next tuple table index success h

-- A packet of another protocol: it gets a uuid.
unfoldable pub deal_other : Bytes → Tuple → Host → Host
unfolding publish
deal_other uuid t h = record h {
  ndn = publish (tuple_name t 2 (u32_mod - 1) uuid) (tuple_name t 1 (u32_mod - 1) uuid) t h.ndn;
}

-- LibPcapHelper::deal; `uuid` is what generateUUID gives if it is called.
unfoldable pub deal : Bytes → Tuple → Host → Host
deal uuid t h =
    if t.key.proto == ipproto_tcp || t.key.proto == ipproto_udp
    then (let key = build_4_tuple_key t.key.src_ip t.key.dst_ip t.key.src_port t.key.dst_port in
        if (Table.get 0 key h.sequence_table).1 then deal_next key t h else deal_first key t h)
    else deal_other uuid t h

-- What pcap_next_ex gives: its result, an int by its pattern, and what it set.
pub record Poll : Type 0 where
  pub ret : ℕ
  pub packet : Option Memory
  pub caplen : ℕ
  pub len : ℕ

abbrev pub is_negative : ℕ → Bool
is_negative n = leb int_limit n

read_packet : Poll → Option Memory → Bytes → ℕ → Globals → (Option Tuple × ℕ × Bytes) × Globals
read_packet poll none last_error now g = ((none, 0, last_error), g)
read_packet poll (some packet) last_error now g =
    let (status, tuple, g') = decode packet poll.caplen poll.len now new_tuple g in
    if is_negative poll.ret
    then ((none, 0, last_error), g)
    else if poll.ret == 0
    then ((none, 0, codes "timed out"), g)
    else ((some tuple, poll.caplen, []), g')

-- PcapHelper::readNextPacketAfterDecode; `last_error` is the text that pcap_geterr gives.
unfoldable pub read_next_packet_after_decode :
    Poll → Bytes → ℕ → Globals → (Option Tuple × ℕ × Bytes) × Globals
unfolding read_packet
read_next_packet_after_decode poll last_error now g = read_packet poll poll.packet last_error now g

unfoldable pub deal_read : Bytes → Option Tuple → Host → Host
deal_read uuid none h = h
deal_read uuid (some t) h = if ltb t.ip_size 8600 then deal uuid t h else h

-- LibPcapHelper::handleRead: the host, and whether another read is waited for.
unfoldable pub handle_read : Bool → Poll → Bytes → ℕ → Bytes → Host → Host × Bool
unfolding deal_read
handle_read error poll last_error now uuid h =
    let (res, g) = read_next_packet_after_decode poll last_error now h.globals in
    if error then (h, false) else (deal_read uuid res.0 (record h { globals = g }), true)
