-- ===== src/Ndn.antt =====
-- NDNHelper (helper/NDNHelper.cpp, helper/NDNHelper.h): the side of the program that talks to the
-- NDN forwarder. The face of ndn-cxx and the raw socket are logs of the calls made on them.
pub mod State
pub mod Handlers
pub mod Keeps
pub mod Logs
pub mod Rounds
pub mod Guesses
pub mod Requests
pub mod Faults
pub mod Delivery
pub mod Sockets
pub mod Misrouted
pub mod Examples
pub use State.*
pub use Handlers.*
