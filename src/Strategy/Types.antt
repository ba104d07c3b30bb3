-- ===== src/Strategy/Types.antt =====
-- strategy_selector.h and nat_classifier.h: the types of the strategy selector, and
-- the table of strategy_selector.c.
use orcashi.Prelude.{ℕ, Bool, true, false, List, [], ◌∷◌}
use orcashi.CString.Text.{Bytes, codes}

-- The numbers of an enum, in the order of the declaration.
pub data NatType : Type 0 where
  unknown full_cone restricted_cone port_restricted symmetric : NatType

pub data StrategyType : Type 0 where
  no_strategy ipv6_direct upnp udp_punch ttl_punch simultaneous_open port_prediction tcp_punch
        friend_relay :
      StrategyType
  turn_relay manual_port : StrategyType

unfoldable pub type_number : StrategyType → ℕ
type_number no_strategy = 0
type_number ipv6_direct = 1
type_number upnp = 2
type_number udp_punch = 3
type_number ttl_punch = 4
type_number simultaneous_open = 5
type_number port_prediction = 6
type_number tcp_punch = 7
type_number friend_relay = 8
type_number turn_relay = 9
type_number manual_port = 10

unfoldable pub nat_number : NatType → ℕ
nat_number NatType.unknown = 0
nat_number full_cone = 1
nat_number restricted_cone = 2
nat_number port_restricted = 3
nat_number symmetric = 4

pub record StrategyInfo : Type 0 where
  pub type : StrategyType
  pub name : Bytes
  pub priority : ℕ
  pub max_wait_ms : ℕ
  pub requires_peer : Bool
  pub requires_server : Bool

pub record PeerProfile : Type 0 where
  pub nat_type : NatType
  pub has_ipv6 : Bool
  pub has_upnp : Bool
  pub has_relay : Bool
  pub is_relay : Bool
  pub is_firewalled : Bool
  pub ip : Bytes
  pub port : ℕ
  pub ipv6 : Bytes
  pub ipv6_port : ℕ

abbrev entry : StrategyType → Bytes → ℕ → ℕ → Bool → Bool → StrategyInfo
entry t name priority wait peer server = record {
  type = t;
  name = name;
  priority = priority;
  max_wait_ms = wait;
  requires_peer = peer;
  requires_server = server;
}

-- The table `g_strategy_info`: its entry 0, and the others.
abbrev pub none_info : StrategyInfo
none_info = entry no_strategy (codes "NONE") 99 0 false false

abbrev pub later_info : List StrategyInfo
later_info =
    entry ipv6_direct (codes "IPv6_DIRECT") 1 2000 false false
    ∷ entry upnp (codes "UPnP") 2 3000 false false
    ∷ entry udp_punch (codes "UDP_PUNCH") 3 5000 false false
    ∷ entry ttl_punch (codes "TTL_PUNCH") 4 3000 false false
    ∷ entry simultaneous_open (codes "SIMULTANEOUS_OPEN") 5 4000 false false
    ∷ entry port_prediction (codes "PORT_PREDICTION") 6 5000 false false
    ∷ entry tcp_punch (codes "TCP_PUNCH") 7 8000 false false
    ∷ entry friend_relay (codes "FRIEND_RELAY") 8 5000 true false
    ∷ entry turn_relay (codes "TURN_RELAY") 9 6000 false true
    ∷ entry manual_port (codes "MANUAL_PORT") 10 60000 false false
    ∷ []

abbrev pub g_strategy_info : List StrategyInfo
g_strategy_info = none_info ∷ later_info
