-- ===== src/Tuple.antt =====
-- The record of a captured packet (libpcapcapture/tuple.h).
use ip_ndn_stack_cpp.Prelude.{ℕ, Option}

-- The memory at a pointer: the byte at each offset.
abbrev pub Memory : Type 0
Memory = ℕ → ℕ

-- Addresses are as they stand in the packet, read as little-endian words.
pub record FlowKey : Type 0 where
  pub src_ip : ℕ
  pub dst_ip : ℕ
  pub src_port : ℕ
  pub dst_port : ℕ
  pub proto : ℕ

-- `pkt` is the null pointer or the memory that it points to; the time stamp, a double that holds a
-- whole number of milliseconds, is that number. The member `next` is never used.
pub record Tuple : Type 0 where
  pub key : FlowKey
  pub index : ℕ
  pub pkt : Option Memory
  pub flag : ℕ
  pub pkt_ts : ℕ
  pub seq : ℕ
  pub size : ℕ
  pub ip_size : ℕ
