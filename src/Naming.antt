-- ===== src/Naming.antt =====
-- The names by which packets are asked for and published: NDNHelper::buildName and
-- NDNHelper::build4TupleKey (helper/NDNHelper.cpp), and the four prefixes.
pub mod Parts
pub mod Injective
pub mod Examples
use ip_ndn_stack_cpp.Prelude.{ℕ, [], ◌∷◌, ◌++◌, Bool, ◌==◌, if◌then◌else◌}
use ip_ndn_stack_cpp.Text.{Bytes, codes, to_string}
use ip_ndn_stack_cpp.Word.{ntohs, ntohl, shr, low_byte, int_to_string}

abbrev pub prefix_pre_request : Bytes
prefix_pre_request = codes "/IP/pre"

abbrev pub prefix_request_data : Bytes
prefix_request_data = codes "/IP"

abbrev pub prefix_tcp_pre_request : Bytes
prefix_tcp_pre_request = codes "/IP/TCP/pre"

abbrev pub prefix_tcp_request_data : Bytes
prefix_tcp_request_data = codes "/IP/TCP"

-- The dotted text of an address in host order.
unfoldable pub dotted : ℕ → Bytes
dotted ip =
    to_string (low_byte (shr ip 24))
    ++ codes "."
    ++ to_string (low_byte (shr ip 16))
    ++ codes "."
    ++ to_string (low_byte (shr ip 8))
    ++ codes "."
    ++ to_string (low_byte (shr ip 0))

-- The last part of a name for a flow's packet: both ports and its number.
unfoldable pub flow_uid : ℕ → ℕ → ℕ → Bytes
flow_uid sport dport seq =
    to_string (ntohs sport)
    ++ codes "-"
    ++ to_string (ntohs dport)
    ++ codes "-"
    ++ int_to_string seq

-- A name, and the uid in it. `seq` is an int, by its pattern.
unfoldable pub build_name : ℕ → ℕ → ℕ → ℕ → ℕ → ℕ → Bytes → Bytes × Bytes
build_name sip dip sport dport type seq uid =
    let source_ip = dotted (ntohl sip) in
    let dst_ip = dotted (ntohl dip) in
    let flow = flow_uid sport dport seq in
    if type == 1
    then (
      prefix_pre_request ++ codes "/" ++ dst_ip ++ codes "/" ++ source_ip ++ codes "/" ++ uid,
      uid,
    )
    else if type == 2
    then (
      prefix_request_data ++ codes "/" ++ source_ip ++ codes "/" ++ dst_ip ++ codes "/" ++ uid,
      uid,
    )
    else if type == 3
    then (
      prefix_tcp_pre_request ++ codes "/" ++ dst_ip ++ codes "/" ++ source_ip ++ codes "/" ++ flow,
      flow,
    )
    else if type == 4
    then (
      prefix_tcp_request_data ++ codes "/" ++ source_ip ++ codes "/" ++ dst_ip ++ codes "/" ++ flow,
      flow,
    )
    else ([], [])

-- The key of a flow in the sequence table.
unfoldable pub build_4_tuple_key : ℕ → ℕ → ℕ → ℕ → Bytes
build_4_tuple_key sip dip sport dport =
    dotted (ntohl sip)
    ++ codes "/"
    ++ dotted (ntohl dip)
    ++ codes "/"
    ++ to_string (ntohs sport)
    ++ codes "/"
    ++ to_string (ntohs dport)
