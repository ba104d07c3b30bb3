-- ===== src/Tests/Plan.antt =====
-- The strategy selector's theorems for two peers, one of them behind a symmetric NAT.
use orcashi.Prelude.{◌≤◌, ◌≡◌, ◌↔◌, true, false, [], ◌∷◌, length}
use mathlib.Core.List.{Perm}
use orcashi.CString.Text.{codes}
use orcashi.Strategy.Types.{full_cone, symmetric, PeerProfile, manual_port, udp_punch, ipv6_direct}
use orcashi.Strategy.Select.{strategy_filter, strategy_is_applicable}
use orcashi.Strategy.Sort.{IsSorted, strategy_sort_by_priority, sort-IsSorted}
use orcashi.Strategy.Fit.{Has, filter-selects, filter_comm}

abbrev open_peer : PeerProfile
open_peer = record {
  nat_type = full_cone;
  has_ipv6 = true;
  has_upnp = false;
  has_relay = true;
  is_relay = false;
  is_firewalled = false;
  ip = codes "10.0.0.1";
  port = 9000;
  ipv6 = [];
  ipv6_port = 0;
}

abbrev hidden_peer : PeerProfile
hidden_peer = record open_peer { nat_type = symmetric; ip = codes "10.0.0.2" }

filter-selects_example :
    (Has udp_punch (strategy_filter open_peer hidden_peer)
      ↔ (strategy_is_applicable udp_punch open_peer hidden_peer ≡ true))
    × (IsSorted (strategy_filter open_peer hidden_peer)
        × ((strategy_sort_by_priority (strategy_filter open_peer hidden_peer)
              ≡ strategy_filter open_peer hidden_peer)
            × (length (strategy_filter open_peer hidden_peer) ≤ 10)))
filter-selects_example = filter-selects udp_punch open_peer hidden_peer

filter_comm_example : strategy_filter open_peer hidden_peer ≡ strategy_filter hidden_peer open_peer
filter_comm_example = filter_comm open_peer hidden_peer

sort-IsSorted_example :
    IsSorted (strategy_sort_by_priority (manual_port ∷ udp_punch ∷ ipv6_direct ∷ []))
    × Perm
        (strategy_sort_by_priority (manual_port ∷ udp_punch ∷ ipv6_direct ∷ []))
        (manual_port ∷ udp_punch ∷ ipv6_direct ∷ [])
sort-IsSorted_example = sort-IsSorted (manual_port ∷ udp_punch ∷ ipv6_direct ∷ [])
