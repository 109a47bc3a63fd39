-- ===== src/Settings/Examples.antt =====
-- A small stand-in for JsonCpp, and the two kinds of settings that the program is shipped with: the
-- addresses as a list, and as one text.
use ip_ndn_stack_cpp.Prelude.{
  ℕ, ◌≡◌, refl, List, [], ◌∷◌, ◌++◌, length, get_elem?, true, Option, none, some, bytes_eq,
  if◌then◌else◌,
}
use ip_ndn_stack_cpp.Text.{Bytes, codes}
use ip_ndn_stack_cpp.Ndn.Handlers.{start}
use ip_ndn_stack_cpp.Ndn.Delivery.{all_accepted}
use ip_ndn_stack_cpp.Ndn.Examples.{idle_ndn}
use ip_ndn_stack_cpp.Settings.{
  JsonCpp, done, throws, ◌>>=◌, or_throw, load, get, text_at, addresses, init_ndn,
}
use ip_ndn_stack_cpp.Settings.Addresses.{HasTexts, init_ndn-start}

pub data Leaf : Type 0 where
  null : Leaf
  int : ℕ → Leaf
  text : Bytes → Leaf

pub data Item : Type 0 where
  leaf : Leaf → Item
  array : List Leaf → Item

pub data Sample : Type 0 where
  item : Item → Sample
  object : List (Bytes × Item) → Sample

abbrev member_of : List (Bytes × Item) → Bytes → Item
member_of [] key = leaf null
member_of ((k, v) ∷ l) key = if bytes_eq k key then v else member_of l key

abbrev sample_member : Sample → Bytes → Option Sample
sample_member (item (leaf null)) key = some (item (leaf null))
sample_member (item (leaf (int n))) key = none
sample_member (item (leaf (text b))) key = none
sample_member (item (array l)) key = none
sample_member (object l) key = some (item (member_of l key))

abbrev sample_string : Sample → Option Bytes
sample_string (item (leaf null)) = some []
sample_string (item (leaf (int n))) = none
sample_string (item (leaf (text b))) = some b
sample_string (item (array l)) = none
sample_string (object l) = none

abbrev sample_int : Sample → Option ℕ
sample_int (item (leaf null)) = some 0
sample_int (item (leaf (int n))) = some n
sample_int (item (leaf (text b))) = none
sample_int (item (array l)) = none
sample_int (object l) = none

abbrev sample_size : Sample → ℕ
sample_size (item (leaf l)) = 0
sample_size (item (array l)) = length l
sample_size (object l) = length l

abbrev leaf_at : Option Leaf → Option Sample
leaf_at none = none
leaf_at (some l) = some (item (leaf l))

abbrev sample_element : Sample → ℕ → Option Sample
sample_element (item (leaf l)) i = none
sample_element (item (array l)) i = leaf_at (get_elem? l i)
sample_element (object l) i = none

-- Every text stands for these settings.
abbrev pub reads : Sample → JsonCpp
reads root = record {
  Value = Sample;
  Double = ℕ;
  parse = λ t. root;
  member = sample_member;
  as_string = sample_string;
  as_int = sample_int;
  as_uint64 = sample_int;
  as_bool = λ v. none;
  as_double = sample_int;
  size = sample_size;
  element = sample_element;
}

abbrev pub settings : Item → Sample
settings ips = object (
    (codes "pcap_if", leaf (text (codes "enp1s0f0")))
    ∷ (codes "pcap_buf_size", leaf (int 209715200))
    ∷ (codes "pcap_snap_len", leaf (int 65535))
    ∷ (codes "pcap_dstmac", leaf (text (codes "ip")))
    ∷ (codes "registerIp", ips)
    ∷ [])

abbrev pub two_addresses : List Bytes
two_addresses = codes "192.170.1.1" ∷ codes "192.169.1.9" ∷ []

abbrev pub listed : Item
listed = array (text (codes "192.170.1.1") ∷ text (codes "192.169.1.9") ∷ [])

abbrev pub one_file : Bytes → Option Bytes
one_file path = if bytes_eq path (codes "config.json") then some [] else none

abbrev pub config_path : Bytes
config_path = codes "config.json"

pub listed-addresses : addresses (reads (settings listed)) one_file config_path ≡ done (item listed)
unfolding addresses load get ◌>>=◌ or_throw bytes_eq
listed-addresses = refl

pub listed-HasTexts : HasTexts (reads (settings listed)) (item listed) 0 two_addresses
unfolding HasTexts text_at ◌>>=◌ or_throw
listed-HasTexts = (refl, (refl, tt))

init_ndn-start_example :
    (init_ndn (reads (settings listed)) one_file config_path idle_ndn
      ≡ (done tt, record idle_ndn { register_ip = idle_ndn.register_ip ++ two_addresses }))
    × (start (λ prefix. true) (init_ndn (reads (settings listed)) one_file config_path idle_ndn).1
        ≡ record idle_ndn {
          register_ip = idle_ndn.register_ip ++ two_addresses;
          filters =
              idle_ndn.filters
              ++ all_accepted (λ prefix. true) (idle_ndn.register_ip ++ two_addresses);
        })
init_ndn-start_example =
    init_ndn-start (reads (settings listed)) one_file config_path (item listed) two_addresses
      (λ prefix. true) idle_ndn listed-addresses refl listed-HasTexts

-- A second address that is a number.
abbrev numbered : Item
numbered = array (text (codes "192.170.1.1") ∷ int 7 ∷ [])

numbered-addresses :
    addresses (reads (settings numbered)) one_file config_path ≡ done (item numbered)
unfolding addresses load get ◌>>=◌ or_throw bytes_eq
numbered-addresses = refl

numbered-HasTexts :
    HasTexts (reads (settings numbered)) (item numbered) 0 (codes "192.170.1.1" ∷ [])
unfolding HasTexts text_at ◌>>=◌ or_throw
numbered-HasTexts = (refl, tt)

number_throws : text_at (reads (settings numbered)) (item numbered) 1 ≡ throws
unfolding text_at ◌>>=◌ or_throw
number_throws = refl

-- One text in place of the list: nothing is registered.
abbrev unlisted : Item
unlisted = leaf (text (codes "192.169.1.6"))

unlisted-addresses :
    addresses (reads (settings unlisted)) one_file config_path ≡ done (item unlisted)
unfolding addresses load get ◌>>=◌ or_throw bytes_eq
unlisted-addresses = refl

unlisted_registers_nothing :
    init_ndn (reads (settings unlisted)) one_file config_path idle_ndn ≡ (done tt, idle_ndn)
unfolding HasTexts
unlisted_registers_nothing =
    (init_ndn-start (reads (settings unlisted)) one_file config_path (item unlisted) []
      (λ prefix. true) idle_ndn unlisted-addresses refl tt).0
