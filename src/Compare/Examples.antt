-- ===== src/Compare/Examples.antt =====
-- The comparison at two tuples that differ in a port.
use ip_ndn_stack_cpp.Prelude.{◌≡◌, ◌⊎◌}
use ip_ndn_stack_cpp.Tuple.{Tuple}
use ip_ndn_stack_cpp.Packet.Examples.{blank_tuple}
use ip_ndn_stack_cpp.Compare.{cmp}
use ip_ndn_stack_cpp.Compare.Order.{IsSame, cmp-trichotomy}

abbrev lower : Tuple
lower = record blank_tuple {
  key = record { src_ip = 1; dst_ip = 2; src_port = 80; dst_port = 90; proto = 6 };
}

abbrev higher : Tuple
higher = record blank_tuple {
  key = record { src_ip = 1; dst_ip = 2; src_port = 81; dst_port = 10; proto = 6 };
}

cmp-trichotomy_example :
    ((cmp lower higher ≡ 1) × (cmp higher lower ≡ 0))
    ⊎ (((cmp lower higher ≡ 0) × (cmp higher lower ≡ 1))
        ⊎ ((cmp lower higher ≡ 0) × (cmp higher lower ≡ 0) × IsSame lower higher))
cmp-trichotomy_example = cmp-trichotomy lower higher
