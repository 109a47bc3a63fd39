-- ===== src/Main/Construct.antt =====
-- The constructors of RawSocketHelper (helper/RawSocketHelper.cpp) and NDNHelper
-- (helper/NDNHelper.cpp), over what the system and ndn-cxx give.
use ip_ndn_stack_cpp.Prelude.{ℕ, Bool, true, false, if◌then◌else◌}
use ip_ndn_stack_cpp.Device.{negative}
use ip_ndn_stack_cpp.Settings.{Startup, done, throws, exits, ◌>>=◌}

-- `socket` and `setsockopt` return ints, by their pattern; Face and KeyChain may throw. Whether the
-- event loop of the face comes back, on the thread that main starts and joins, is up to ndn-cxx; and
-- pthread_join is for the thread that NDNHelper::join names, a member that nothing sets.
pub record System : Type 0 where
  pub socket : ℕ
  pub setsockopt : ℕ → ℕ
  pub face_opens : Bool
  pub key_chain_opens : Bool
  pub face_returns : Bool
  pub join_returns : Bool

-- RawSocketHelper's constructor: the socket.
unfoldable pub open_raw_socket : System → Startup ℕ
open_raw_socket sys = if negative (sys.setsockopt sys.socket) then exits else done sys.socket

abbrev pub opens_or_throws : Bool → Startup (Unit {0})
opens_or_throws true = done tt
opens_or_throws false = throws

-- NDNHelper's constructor, its members in their order.
unfoldable pub construct_ndn : System → Startup (Unit {0})
construct_ndn sys = do
  u ← opens_or_throws sys.face_opens
  sockfd ← open_raw_socket sys
  opens_or_throws sys.key_chain_opens
