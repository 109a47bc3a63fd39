-- ===== src/Settings.antt =====
-- JSONCPPHelper (helper/JSONCPPHelper.cpp) over JsonCpp, and what is read through it: the addresses of
-- initNDN (helper/NDNHelper.cpp) and the settings of the capture (helper/PcapHelper.cpp,
-- helper/LibPcapHelper.cpp).
pub mod Addresses
pub mod Examples
use ip_ndn_stack_cpp.Prelude.{ℕ, zero, suc, ◌+◌, [], ◌∷◌, ◌++◌, Bool, Option, none, some}
use ip_ndn_stack_cpp.Text.{Bytes, codes}
use ip_ndn_stack_cpp.Ndn.State.{Ndn}
use ip_ndn_stack_cpp.Device.{Config}

-- JsonCpp: `none` stands for the exception Json::LogicError. `parse` is what a null root holds after
-- Json::Reader::parse, whose success the source does not look at.
pub record JsonCpp : Type 1 where
  pub Value : Type 0
  pub Double : Type 0
  pub parse : Bytes → Value
  pub member : Value → Bytes → Option Value
  pub as_string : Value → Option Bytes
  pub as_int : Value → Option ℕ
  pub as_uint64 : Value → Option ℕ
  pub as_bool : Value → Option Bool
  pub as_double : Value → Option Double
  pub size : Value → ℕ
  pub element : Value → ℕ → Option Value

-- A call returns, throws a std::exception, ends the process by exit, or does not come back.
pub data Startup (A : Type 0) : Type 0 where
  done : A → Startup A
  throws : Startup A
  exits : Startup A
  blocks : Startup A

infixl 5 ◌>>=◌
unfoldable pub ◌>>=◌ : {A B : Type 0} → Startup A → (A → Startup B) → Startup B
◌>>=◌ (done a) f = f a
◌>>=◌ throws f = throws
◌>>=◌ exits f = exits
◌>>=◌ blocks f = blocks

abbrev pub pure : {A : Type 0} → A → Startup A
pure a = done a

unfoldable pub or_throw : {A : Type 0} → Option A → Startup A
or_throw none = throws
or_throw (some a) = done a

abbrev pub key_config_register_ip : Bytes
key_config_register_ip = codes "registerIp"

-- One address, and then the rest of the loop.
abbrev pub push_back :
    Startup Bytes → (Ndn → Startup (Unit {0}) × Ndn) → Ndn → Startup (Unit {0}) × Ndn
push_back (done ip) rest s = rest (record s { register_ip = s.register_ip ++ ip ∷ [] })
push_back throws rest s = (throws, s)
push_back exits rest s = (exits, s)
push_back blocks rest s = (blocks, s)

abbrev pub with_addresses :
    {A : Type 0} → Startup A → (A → Ndn → Startup (Unit {0}) × Ndn) → Ndn → Startup (Unit {0}) × Ndn
with_addresses (done ips) f s = f ips s
with_addresses throws f s = (throws, s)
with_addresses exits f s = (exits, s)
with_addresses blocks f s = (blocks, s)

module _ (json : JsonCpp) where
  unfoldable pub get : json.Value → Bytes → Startup json.Value
  get root key = or_throw (json.member root key)

  unfoldable pub get_string : json.Value → Bytes → Startup Bytes
  get_string root key = do value ← get root key; or_throw (json.as_string value)

  unfoldable pub get_int : json.Value → Bytes → Startup ℕ
  get_int root key = do value ← get root key; or_throw (json.as_int value)

  pub getull : json.Value → Bytes → Startup ℕ
  getull root key = do value ← get root key; or_throw (json.as_uint64 value)

  pub get_bool : json.Value → Bytes → Startup Bool
  get_bool root key = do value ← get root key; or_throw (json.as_bool value)

  pub get_double : json.Value → Bytes → Startup json.Double
  get_double root key = do value ← get root key; or_throw (json.as_double value)

  unfoldable pub text_at : json.Value → ℕ → Startup Bytes
  text_at ips i = do value ← or_throw (json.element ips i); or_throw (json.as_string value)

  -- The loop of initNDN from `i` on, for so many elements.
  unfoldable pub register_ips : json.Value → ℕ → ℕ → Ndn → Startup (Unit {0}) × Ndn
  register_ips ips zero i s = (done tt, s)
  register_ips ips (suc n) i s = push_back (text_at ips i) (register_ips ips n (i + 1)) s

module _ (json : JsonCpp) (files : Bytes → Option Bytes) where
  -- The constructor: the root that it leaves. `files` gives the content of a file that opens.
  unfoldable pub load : Bytes → Startup json.Value
  load file_path = elim (files file_path) [ none ↦ exits | some text ↦ done (json.parse text) ]

  -- The member of the settings that initNDN reads.
  unfoldable pub addresses : Bytes → Startup json.Value
  addresses path = do root ← load path; get json root key_config_register_ip

  -- NDNHelper::initNDN.
  unfoldable pub init_ndn : Bytes → Ndn → Startup (Unit {0}) × Ndn
  init_ndn config_file_path s =
      with_addresses (addresses config_file_path) (λ ips. register_ips json ips (json.size ips) 0) s

  -- What PcapHelper's constructor reads; the filter is read after it.
  unfoldable pub pcap_settings : Bytes → Startup Config
  pcap_settings config_file_path = do
    root ← load config_file_path
    interface_name ← get_string json root (codes "pcap_if")
    bufsize ← get_int json root (codes "pcap_buf_size")
    snaplen ← get_int json root (codes "pcap_snap_len")
    pure (record {
      pcap_if = interface_name;
      pcap_buf_size = bufsize;
      pcap_snap_len = snaplen;
      pcap_dstmac = [];
    })

  -- The filter that LibPcapHelper's constructor reads.
  unfoldable pub packet_filter : Bytes → Startup Bytes
  packet_filter config_file_path = do
    root ← load config_file_path
    get_string json root (codes "pcap_dstmac")
