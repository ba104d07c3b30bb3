-- ===== src/Strategy/Select.antt =====
-- strategy_selector.c: looking a strategy up, and which strategies fit two peers.
use orcashi.Prelude.{
  ℕ, zero, suc, Bool, true, false, ◌&&◌, ◌||◌, Option, none, some, List, [], ◌∷◌, ◌++◌, ◌==◌,
  if◌then◌else◌,
}
use orcashi.CString.Text.{Bytes, codes}
use orcashi.Strategy.Types.{
  NatType, symmetric, restricted_cone, port_restricted, nat_number, StrategyType, no_strategy,
  ipv6_direct, upnp, udp_punch, ttl_punch, simultaneous_open, port_prediction, tcp_punch,
  friend_relay, turn_relay, manual_port, type_number, StrategyInfo, PeerProfile, none_info,
  later_info, g_strategy_info,
}

abbrev pub same_nat : NatType → NatType → Bool
same_nat m n = nat_number m == nat_number n

unfoldable pub find_info : List StrategyInfo → StrategyType → Option StrategyInfo
unfolding type_number
find_info [] t = none
find_info (i ∷ is) t = if type_number i.type == type_number t then some i else find_info is t

unfoldable pub strategy_name : StrategyType → Bytes
strategy_name t = elim (find_info g_strategy_info t) [ some i ↦ i.name | none ↦ codes "UNKNOWN" ]

unfoldable pub strategy_get_info : StrategyType → StrategyInfo
strategy_get_info t = elim (find_info g_strategy_info t) [ some i ↦ i | none ↦ none_info ]

unfoldable pub strategy_get_priority : StrategyType → ℕ
strategy_get_priority t = (strategy_get_info t).priority

unfoldable pub strategy_is_applicable : StrategyType → PeerProfile → PeerProfile → Bool
strategy_is_applicable ipv6_direct l r = l.has_ipv6 && r.has_ipv6
strategy_is_applicable upnp l r = l.has_upnp && r.has_upnp
strategy_is_applicable udp_punch l r =
    if same_nat l.nat_type symmetric && same_nat r.nat_type symmetric then false else true
strategy_is_applicable ttl_punch l r = true
strategy_is_applicable simultaneous_open l r =
    same_nat l.nat_type restricted_cone
    || (same_nat l.nat_type port_restricted
        || (same_nat r.nat_type restricted_cone || same_nat r.nat_type port_restricted))
strategy_is_applicable port_prediction l r =
    same_nat l.nat_type symmetric || same_nat r.nat_type symmetric
strategy_is_applicable tcp_punch l r =
    if same_nat l.nat_type symmetric || same_nat r.nat_type symmetric then false else true
strategy_is_applicable friend_relay l r = l.has_relay || r.has_relay
strategy_is_applicable turn_relay l r = true
strategy_is_applicable manual_port l r = true
strategy_is_applicable no_strategy l r = false

-- The inner loop of `strategy_filter`: the strategies of one priority.
unfoldable pub filter_priority :
    ℕ → List StrategyInfo → PeerProfile → PeerProfile → List StrategyType
unfolding strategy_is_applicable
filter_priority priority [] l r = []
filter_priority priority (i ∷ is) l r =
    let rest = filter_priority priority is l r in
    if (i.priority == priority) && strategy_is_applicable i.type l r then i.type ∷ rest else rest

-- The outer loop: `n` priorities from `priority` on.
unfoldable pub filter_from : ℕ → ℕ → PeerProfile → PeerProfile → List StrategyType
unfolding filter_priority
filter_from zero priority l r = []
filter_from (suc n) priority l r =
    filter_priority priority later_info l r ++ filter_from n (suc priority) l r

-- The entries that `strategy_filter` writes to the list, whose number is its result.
unfoldable pub strategy_filter : PeerProfile → PeerProfile → List StrategyType
unfolding filter_from
strategy_filter l r = filter_from 10 1 l r

unfoldable pub strategy_type_to_string : StrategyType → Bytes
unfolding strategy_name
strategy_type_to_string t = strategy_name t
