-- ===== src/P2p/Capability.antt =====
-- p2p_manager.c: what the DHT tells of a peer.
use orcashi.Prelude.{ℤ, pos, Bool, false, none, some, [], Code, ok, err}
use orcashi.CString.Text.{Bytes}
use orcashi.CString.Memory.{Run, done, ◌>>=◌, strcpy}
use orcashi.Strategy.Types.{NatType, unknown}
use orcashi.P2p.Types.{Host}

pub record PeerCapability : Type 0 where
  pub id : Bytes
  pub ip : Bytes
  pub port : ℤ
  pub has_ipv6 : Bool
  pub ipv6 : Bytes
  pub nat_type : NatType
  pub has_upnp : Bool
  pub has_relay : Bool
  pub is_relay : Bool
  pub last_seen : ℤ

-- The capability before the DHT is asked.
abbrev pub no_capability : Bytes → PeerCapability
no_capability id = record {
  id = id;
  ip = [];
  port = pos 0;
  has_ipv6 = false;
  ipv6 = [];
  nat_type = unknown;
  has_upnp = false;
  has_relay = false;
  is_relay = false;
  last_seen = pos 0;
}

unfoldable pub p2p_get_peer_capability : Host → Bytes → Run (Code × PeerCapability)
p2p_get_peer_capability h peer_id = do
  id ← strcpy 64 peer_id
  elim (h.dht_lookup peer_id) [
    | none ↦ done (err, no_capability id)
    | some (ip, port) ↦
        strcpy 16 ip >>= λ copy. done (ok, record (no_capability id) { ip = copy; port = port })
  ]

unfoldable pub p2p_exchange_capabilities : Host → Bytes → Run (Code × PeerCapability)
unfolding p2p_get_peer_capability
p2p_exchange_capabilities h peer_id = p2p_get_peer_capability h peer_id
