-- ===== src/P2p/Histories.antt =====
-- Histories of the P2P manager.
use orcashi.Prelude.{ℕ, refl, ℤ, false, List, [], ◌∷◌, Code, arith, replicate, length-replicate}
use orcashi.CString.Text.{Bytes}
use orcashi.CString.Memory.{Run, done, AtEnd, AtEnd-done, AtEnd-then, ◌>>=◌}
use orcashi.Events.World.{World}
use orcashi.Events.Keeps.{IsSound}
use orcashi.P2p.Types.{Manager, Host, p2p_max_peers, zero_peer}
use orcashi.P2p.Listener.{receive, keepalive}
use orcashi.P2p.Connect.{
  p2p_connect, p2p_accept, p2p_disconnect, p2p_send_secure, p2p_send, p2p_init, p2p_cleanup,
}
use orcashi.P2p.Keeps.{IsManager, Ends}
use orcashi.P2p.Steps.{receive-IsManager, keepalive-IsManager}
use orcashi.P2p.Calls.{
  p2p_connect-Ends, p2p_accept-Ends, p2p_disconnect-Ends, p2p_send_secure-Ends, p2p_send-Ends,
  p2p_cleanup-IsManager, p2p_init-IsManager,
}

-- The data before `p2p_init`.
abbrev pub start_manager : World → Manager
start_manager w = record {
  peers = replicate p2p_max_peers zero_peer;
  peer_count = 0;
  mutex_held = false;
  initialized = false;
  world = w;
  sent = [];
}

-- What the program, the listener and the keepalives ask of the manager.
pub data Action : Type 0 where
  connecting_to accepting disconnecting_from : Bytes → Action
  sending sending_secure : Bytes → Bytes → Action
  receiving : Bytes → ℤ → Bytes → ℕ → Action
  starting keeping cleaning : Action

unfoldable pub perform : Host → Action → Manager → Run Manager
perform h (connecting_to id) m = p2p_connect h id m >>= λ r. done r.1
perform h (accepting id) m = p2p_accept h id m >>= λ r. done r.1
perform h (disconnecting_from id) m = p2p_disconnect h id m >>= λ r. done r.1
perform h (sending id text) m = p2p_send h id text m >>= λ r. done r.1
perform h (sending_secure id text) m = p2p_send_secure h id text m >>= λ r. done r.1
perform h (receiving ip port buffer n) m = receive h ip port buffer n m
perform h starting m = done (p2p_init h m).1
perform h keeping m = keepalive h m
perform h cleaning m = p2p_cleanup h m

-- Each action comes with what it gets from outside.
unfoldable pub perform_all : List (Host × Action) → Manager → Run Manager
unfolding perform
perform_all [] m = done m
perform_all ((h, a) ∷ rest) m = perform h a m >>= perform_all rest

manager_of :
    (r : Run (Code × Manager)) → Ends false r → AtEnd (IsManager false) (r >>= λ r. done r.1)
manager_of r v = AtEnd-then _ r _ v λ r' v'. AtEnd-done _ v'

pub perform-IsManager :
    (h : Host) (a : Action) {m : Manager}
    → IsManager false m
    → AtEnd (IsManager false) (perform h a m)
unfolding perform
perform-IsManager h (connecting_to id) v = manager_of _ (p2p_connect-Ends h id v)
perform-IsManager h (accepting id) v = manager_of _ (p2p_accept-Ends h id v)
perform-IsManager h (disconnecting_from id) v = manager_of _ (p2p_disconnect-Ends h id v)
perform-IsManager h (sending id text) v = manager_of _ (p2p_send-Ends h id text v)
perform-IsManager h (sending_secure id text) v = manager_of _ (p2p_send_secure-Ends h id text v)
perform-IsManager h (receiving ip port buffer n) v = receive-IsManager h ip port buffer n v
perform-IsManager h starting v = AtEnd-done _ (p2p_init-IsManager h v)
perform-IsManager h keeping v = keepalive-IsManager h v
perform-IsManager h cleaning v = p2p_cleanup-IsManager h v

-- Every history that comes to an end leaves a manager as it should be with the mutex free, where
-- it began with one: the table keeps its 256 slots, and the count does not exceed them.
pub perform_all-IsManager :
    (rest : List (Host × Action)) {m : Manager}
    → IsManager false m
    → AtEnd (IsManager false) (perform_all rest m)
unfolding perform_all
perform_all-IsManager [] v = AtEnd-done _ v
perform_all-IsManager ((h, a) ∷ rest) {m} v =
    AtEnd-then _ (perform h a m) (perform_all rest) (perform-IsManager h a v)
      λ m' v'. perform_all-IsManager rest v'

pub start_manager-IsManager : (w : World) → IsSound w → IsManager false (start_manager w)
start_manager-IsManager w s = record {
  mutex = refl;
  slots = length-replicate p2p_max_peers zero_peer;
  count_in = omega arith;
  sound = s;
}
