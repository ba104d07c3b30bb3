-- ===== src/Strategy/Nat.antt =====
-- nat_classifier.c: the names and the order of the NAT types.
use orcashi.Prelude.{ℕ, Bool}
use orcashi.CString.Text.{Bytes, codes}
use orcashi.Strategy.Types.{NatType, full_cone, restricted_cone, port_restricted, symmetric}
use orcashi.Strategy.Select.{same_nat}

unfoldable pub nat_type_to_string : NatType → Bytes
nat_type_to_string full_cone = codes "FULL_CONE"
nat_type_to_string restricted_cone = codes "RESTRICTED_CONE"
nat_type_to_string port_restricted = codes "PORT_RESTRICTED"
nat_type_to_string symmetric = codes "SYMMETRIC"
nat_type_to_string NatType.unknown = codes "UNKNOWN"

unfoldable pub nat_type_priority : NatType → ℕ
nat_type_priority full_cone = 1
nat_type_priority restricted_cone = 2
nat_type_priority port_restricted = 3
nat_type_priority symmetric = 4
nat_type_priority NatType.unknown = 5

unfoldable pub nat_is_symmetric : NatType → Bool
nat_is_symmetric n = same_nat n symmetric
