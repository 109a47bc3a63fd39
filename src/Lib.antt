-- ===== src/Lib.antt =====
-- The verification of ip_ndn_stack_cpp, a gateway that carries IP packets over an NDN network.
--
-- One process captures IP packets (helper/LibPcapHelper, helper/PcapHelper), decodes them
-- (libpcapcapture/packet.cpp), publishes each under a name of NDN and announces it by a pre-request, an
-- interest under another name. The process on the other side answers pre-requests (helper/NDNHelper) by
-- expressing the interest for the packet, and for the packets of the flow that it guesses will follow,
-- and sends the data that comes back to the raw socket (helper/RawSocketHelper). Two tables are
-- shared: the sequence table (helper/MapCacheHelper.h), which numbers the packets of a flow, and the
-- guess table (helper/SetHelper.h), of the names that were asked for ahead.
--
-- Where the parts are:
--   Prelude     shared types, operators and lemmas on lists and numbers
--   Text        byte strings: decimal digits, splitting at "/" and joining; Text/Scan is sscanf, for the
--               directives that the program's formats have
--   Word        32-bit and 16-bit patterns, their byte order, what a C int is; Word/Bits is the or of
--               numbers without a common bit
--   Boost       boost::split and boost::lexical_cast<int>, as parameters with their documented laws;
--               Boost/Reference has functions that satisfy these
--   Tuple       libpcapcapture/tuple.h: FlowKey, Tuple
--   Compare     libpcapcapture/util.cpp: cmp, cmp_ll and cmp_lf
--   Console     the macros of libpcapcapture/util.h that print
--   Times       libpcapcapture/ttime.cpp, dbl2time of packet.cpp, the stopwatch of util.h
--   Naming      helper/NDNHelper.cpp: buildName, build4TupleKey, the four prefixes
--   Table       helper/MapCacheHelper.h: save, get, erase, getAndIncreaseSequence. Table/Threads is the
--               last as the steps of concurrent threads, Table/Owned the erase that deletes
--   GuessSet    helper/SetHelper.h: saveConcurrence, save, find, erase
--   Packet      libpcapcapture/packet.cpp, packet.h: in_chksum_ip, decode, the statistics. Packet/Decode
--               is decode itself, in the three levels of headers that it checks; Packet/Stat is
--               packet_stat, Packet/Report the text of its report; Packet/Fields reads the fields of headers, Packet/Layout is what
--               that gives byte by byte; Packet/Print is
--               ip2a; Packet/Lines is print_tuple and read_tuple
--   Ndn         helper/NDNHelper.cpp, RawSocketHelper.cpp: Ndn/State is what the handlers change,
--               Ndn/Handlers are start, onInterest, onData, onNack, onTimeout and what they call; Ndn/Keeps
--               is what every branch of them keeps, Ndn/Guesses the guess table against the interests
--   Capture     helper/LibPcapHelper.cpp: handleRead and deal; readNextPacketAfterDecode. Capture/Reads is
--               one read, whatever libpcap answers. Capture/Loop is
--               the event loop around them: asyncRead, start, close, handleError. Capture/Turns is the
--               capture and the handlers of one host, which take turns in any order
--   Network     both hosts together, over runs of events in any order; the forwarder between them is a
--               parameter. Its sender is the side of main.cpp that captures, its receiver the one that
--               asks and sends. Network/Frames and Network/Wire begin at the frames on the sender's wire;
--               Network/Serving is the face's event loop on the receiver, which an exception leaves
--   Device      helper/PcapHelper.cpp, and the constructor of LibPcapHelper on top of it
--   ThreadPool  helper/ThreadPool.h, as a step relation of workers, callers and the destructor, which
--               sleep on the condition variable, wake by themselves, and notify
--   Settings    helper/JSONCPPHelper.cpp, and what is read through it: initNDN, and the settings of the
--               capture. JsonCpp is a parameter
--   Main        main.cpp: Main/Construct is the constructors of NDNHelper and RawSocketHelper,
--               Main/Pointers the bind functions; main is run beside the thread that it starts, whose
--               filters are set after any number of reads
--
-- Conventions. A string is a list of bytes. A C int, like a uint32_t, is its pattern, a number below
-- 2^32: the negative ones are those from 2^31 on, and the operations that can wrap around take the
-- remainder. The host is little-endian, as the byte reversal in ntohl and ntohs says. A handler takes
-- a state to a state; one that can throw gives a result that tells the exceptions of the source apart
-- and keeps the state at the throw. The face and the raw socket are logs, in order, of what was
-- expressed, published and sent. The maps and sets of std are association lists without repeated keys.
--
-- Bounds. Numbers of packets in names are below 2^31, as boost::lexical_cast<int> requires; where a
-- statement needs that, it says so. A pre-request asks for 60 packets ahead (NUM_OF_GUEST). Two loops
-- run on fuel, which the development shows to be enough: the carries of the checksum, which take no
-- more rounds than the value of the sum, and the digits of a number, at most one more than the number.
-- The loop of guesses recurses on its count.
--
-- Parameters. Boost's split and lexical_cast, inet_addr, the answers of libpcap, the values of
-- JsonCpp, the files, what socket and setsockopt return, whether Face and KeyChain can be
-- constructed, whether the event loop of the face and pthread_join come back, the calendar of the C
-- library, the order and the arithmetic of doubles, the uuid of a packet and the time of its capture
-- are arguments. What is assumed of them is documented behaviour, stated as
-- hypotheses by name, and each such hypothesis has an instance.
--
-- Runs. The service of the capture is given the reads that complete, in order, each with what libpcap
-- answers, and goes on for as long as a read is waited for. Calls that threads make at once are lists of
-- actions, in which a thread that finds a mutex taken waits; a handler of the gateway is one step. What
-- a handler throws is followed in Network/Serving; the other runs of many handlers go on with the state
-- that it leaves.
--
-- Not modelled: ndn-cxx beyond the text of names and the calls of the callbacks that it is given
-- (signing, when the lifetime of an interest runs out, and its event loop in Main, which comes back or
-- not by a parameter); JsonCpp; the quotients of doubles in the report of the statistics, whose texts are a parameter; generateUUID, one
-- call of Boost; print_tuple_screen, whose body is commented out; and the interests
-- and the data that arrive while main runs: Capture/Turns and Network have these.
pub mod Prelude
pub mod Text
pub mod Word
pub mod Boost
pub mod Naming
pub mod Table
pub mod GuessSet
pub mod Tuple
pub mod Compare
pub mod Console
pub mod Packet
pub mod Capture
pub mod ThreadPool
pub mod Device
pub mod Ndn
pub mod Network
pub mod Times
pub mod Settings
pub mod Main
