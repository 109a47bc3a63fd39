-- ===== src/Device.antt =====
-- PcapHelper (helper/PcapHelper.cpp), the owner of a libpcap handle, and the construction and
-- closing of LibPcapHelper (helper/LibPcapHelper.cpp) on top of it. What libpcap answers is a
-- parameter; of the device the model keeps how often a handle or a compiled filter was made and
-- given back.
pub mod Balance
pub mod Reads
pub mod Examples
use ip_ndn_stack_cpp.Prelude.{
  ℕ, ◌+◌, ◌-◌, ◌/◌, ◌^◌, ◌≡◌, [], ◌∷◌, ◌++◌, List, Bool, true, false, Option, none, some, not, ◌&&◌,
  leb, ◌==◌, if◌then◌else◌,
}
use ip_ndn_stack_cpp.Text.{Bytes, codes}
use ip_ndn_stack_cpp.Word.{int_limit, u32_mod}
use ip_ndn_stack_cpp.Tuple.{Memory}
use ip_ndn_stack_cpp.Capture.{Poll}

-- What the calls of libpcap give back: an int by its pattern, or whether there is a handle.
pub record Libpcap : Type 0 where
  pub creates : Bytes → Bool
  pub set_immediate_mode : ℕ
  pub set_snaplen : ℕ → ℕ
  pub set_buffer_size : ℕ → ℕ
  pub activate : ℕ
  pub set_datalink : ℕ → ℕ
  pub setdirection : ℕ
  pub compile : Bytes → ℕ
  pub setfilter : Bytes → ℕ
  pub selectable_fd : ℕ
  pub dup : ℕ → ℕ
  pub stats : ℕ
  pub dropped : ℕ
  pub errbuf : Bytes
  pub last_error : Bytes
  pub statustostr : ℕ → Bytes

-- The handle is `m_pcap`; the counts are of pcap_create with a handle, pcap_close, pcap_compile with
-- a program, and pcap_freecode.
pub record Device : Type 0 where
  pub handle : Bool
  pub created : ℕ
  pub closed : ℕ
  pub compiled : ℕ
  pub freed : ℕ
  pub active : Bool
  pub filter : Option Bytes

-- The settings that the constructors read from the configuration file.
pub record Config : Type 0 where
  pub pcap_if : Bytes
  pub pcap_buf_size : ℕ
  pub pcap_snap_len : ℕ
  pub pcap_dstmac : Bytes

-- A call returns or throws PcapHelper::Error with a text.
pub data Result (A : Type 0) : Type 0 where
  ok : A → Result A
  error : Bytes → Result A

abbrev pub M : Type 0 → Type 0
M A = Device → Result A × Device

abbrev pub continue : {A B : Type 0} → (A → M B) → Result A × Device → Result B × Device
continue f (ok a, d) = f a d
continue f (error e, d) = (error e, d)

infixl 5 ◌>>=◌ ◌>>◌
abbrev pub ◌>>=◌ : {A B : Type 0} → M A → (A → M B) → M B
◌>>=◌ m f d = continue f (m d)

abbrev pub ◌>>◌ : {B : Type 0} → M (Unit {0}) → M B → M B
m >> k = m >>= λ _. k

abbrev pub update : (Device → Device) → M (Unit {0})
update f d = (ok tt, f d)

abbrev pub pure : {A : Type 0} → A → M A
pure a d = (ok a, d)

-- `ret < 0` of an int.
abbrev pub negative : ℕ → Bool
negative ret = leb int_limit ret

-- Throw if the test holds.
abbrev pub throw_if : Bool → Bytes → M (Unit {0})
throw_if true e d = (error e, d)
throw_if false e d = (ok tt, d)

-- A device before anything was called.
abbrev pub no_device : Device
no_device = record {
  handle = false;
  created = 0;
  closed = 0;
  compiled = 0;
  freed = 0;
  active = false;
  filter = none;
}

abbrev pub open_handle : Device → Device
open_handle d = record d { handle = true; created = d.created + 1 }

-- PcapHelper::close.
unfoldable pub close : Device → Device
close d = if d.handle then record d { handle = false; closed = d.closed + 1 } else d

module _ (lib : Libpcap) where
  -- The constructor of PcapHelper. Where it throws, the object is not there and no destructor runs.
  unfoldable pub construct : Config → M (Unit {0})
  construct c = do
    update (λ d. if lib.creates c.pcap_if then open_handle d else d)
    throw_if (not (lib.creates c.pcap_if)) (codes "pcap_create: " ++ lib.errbuf)
    throw_if (negative lib.set_immediate_mode) (codes "pcap_set_immediate_mode failed")
    throw_if (negative (lib.set_snaplen c.pcap_snap_len)) (codes "pcap_set_immediate_mode failed")
    throw_if (negative (lib.set_buffer_size c.pcap_buf_size)) (codes "pcap_set_buffer_size failed")

  -- PcapHelper::activate; `dlt` is an int by its pattern.
  unfoldable pub activate : ℕ → M (Unit {0})
  activate dlt = do
    throw_if (negative lib.activate) (codes "pcap_activate: " ++ lib.statustostr lib.activate)
    update (λ d. record d { active = true })
    throw_if (not (dlt == u32_mod - 1) && negative (lib.set_datalink dlt))
        (codes "pcap_set_datalink: " ++ lib.last_error)
    throw_if (negative lib.setdirection) (codes "pcap_setdirection: " ++ lib.last_error)

  -- PcapHelper::setPacketFilter.
  unfoldable pub set_packet_filter : Bytes → M (Unit {0})
  set_packet_filter filter = do
    throw_if (negative (lib.compile filter)) (codes "pcap_compile: " ++ lib.last_error)
    update (λ d. record d { compiled = d.compiled + 1 })
    let ret = lib.setfilter filter
    update (λ d. if negative ret then d else record d { filter = some filter })
    update (λ d. record d { freed = d.freed + 1 })
    throw_if (negative ret) (codes "pcap_setfilter: " ++ lib.last_error)

  -- PcapHelper::getFd.
  unfoldable pub get_fd : M ℕ
  get_fd = do
    throw_if (negative lib.selectable_fd) (codes "pcap_get_selectable_fd failed")
    pure (lib.dup lib.selectable_fd)

  -- PcapHelper::getNDropped.
  unfoldable pub get_n_dropped : M ℕ
  get_n_dropped = do
    throw_if (negative lib.stats) (codes "pcap_stats: " ++ lib.last_error)
    pure lib.dropped

  -- The body of LibPcapHelper's constructor: the descriptor that the socket is assigned.
  unfoldable pub attach : Config → M ℕ
  attach c = do activate (u32_mod - 1); set_packet_filter c.pcap_dstmac; get_fd

  -- If that throws, the member `mPcap` is destroyed, which closes the handle.
  abbrev pub destroy_on_error : {A : Type 0} → Result A × Device → Result A × Device
  destroy_on_error (ok a, d) = (ok a, d)
  destroy_on_error (error e, d) = (error e, close d)

  -- The constructor of LibPcapHelper.
  unfoldable pub open_capture : Config → M ℕ
  open_capture c = do construct c; λ d. destroy_on_error (attach c d)

-- PcapHelper::getCurTime: the milliseconds of a system clock that counts nanoseconds.
unfoldable pub get_cur_time : ℕ → ℕ
get_cur_time nanoseconds = nanoseconds / 1000000

-- PcapHelper::readNextPacket: the packet, its length and the error.
unfoldable pub read_next_packet : Poll → Bytes → Option Memory × ℕ × Bytes
read_next_packet poll last_error =
    if negative poll.ret
    then (none, 0, last_error)
    else if poll.ret == 0
    then (none, 0, codes "timed out")
    else (poll.packet, poll.caplen, [])
