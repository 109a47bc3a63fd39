-- ===== src/Ndn/Sockets.antt =====
-- A function that reads dotted addresses back, so that the theorems over inet_addr apply to something.
use ip_ndn_stack_cpp.Prelude.{ℕ, ◌+◌, ◌*◌, ◌<◌, ◌≡◌, ap, ◌∙◌, List, [], ◌∷◌, arith}
use ip_ndn_stack_cpp.Text.{Bytes, dot, to_string}
use ip_ndn_stack_cpp.Text.Decimal.{value, value-to_string}
use ip_ndn_stack_cpp.Text.Split
use ip_ndn_stack_cpp.Word.{u32_mod, ntohl, ntohl-ntohl, ntohl-lt, shr, low_byte}
use ip_ndn_stack_cpp.Naming.{dotted}
use ip_ndn_stack_cpp.Naming.Parts.{octets, dotted-join}
use ip_ndn_stack_cpp.Naming.Injective.{octets-Lacks}
use ip_ndn_stack_cpp.Ndn.Handlers.{Sockets}

from_octets : ℕ → List Bytes → ℕ
from_octets acc [] = acc
from_octets acc (p ∷ ps) = from_octets (acc * 256 + value 0 p) ps

pub read_address : Bytes → ℕ
unfolding from_octets
read_address s = ntohl (from_octets 0 (Split.split s dot))

join_octets : (x : ℕ) → x < u32_mod → from_octets 0 (to_string (low_byte (shr x 24)) ∷ octets x) ≡ x
unfolding from_octets
join_octets x h = omega (
  arith,
  value-to_string (low_byte (shr x 24)),
  value-to_string (low_byte (shr x 16)),
  value-to_string (low_byte (shr x 8)),
  value-to_string (low_byte (shr x 0)),
)

pub read_address-dotted : (ip : ℕ) → ip < u32_mod → read_address (dotted (ntohl ip)) ≡ ip
unfolding read_address
read_address-dotted ip h =
    let x = ntohl ip in
    ap (λ s. ntohl (from_octets 0 (Split.split s dot))) (dotted-join x)
    ∙ ap (λ l. ntohl (from_octets 0 l))
        (Split.split-join dot (to_string (low_byte (shr x 24))) (octets x) (octets-Lacks x))
    ∙ ap ntohl (join_octets x (ntohl-lt ip))
    ∙ ntohl-ntohl ip h

abbrev pub reference_sockets : Sockets
reference_sockets = record { inet_addr = read_address; inet_addr-dotted = read_address-dotted }
