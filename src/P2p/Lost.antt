-- ===== src/P2p/Lost.antt =====
-- The events of confirmations, as the P2P manager raises them.
use orcashi.Prelude.{◌≡◌, refl, ℤ, ok}
use orcashi.CString.Text.{Bytes}
use orcashi.Events.Types.{accept_confirm, reject_confirm, event_create}
use orcashi.Events.World.{World, call}
use orcashi.Events.Handlers.{calls, event_process, handler_calls}
use orcashi.State.Ids.{normalize_id}
use orcashi.State.Peers.{state_get_peer, state_update_peer, state_remove_peer}
use orcashi.State.Fields.{with_peer, state_set_online, state_set_ip, state_set_port}
use orcashi.State.Ghosts.{state_deliver_ghost_messages}

-- The events that the P2P manager raises for a confirmation and for a rejection name the peer in
-- `peer_id`, and their handlers read `from_id`, which is empty: processing such an event reports
-- success and changes nothing.
confirmations_lost :
    (now raised : ℤ) (id : Bytes) (w : World)
    → (event_process now (event_create accept_confirm id raised) w ≡ (ok, w))
      × (event_process now (event_create reject_confirm id raised) w ≡ (ok, w))
unfolding event_process event_create handler_calls calls call state_update_peer state_remove_peer
    state_set_online state_set_ip state_set_port with_peer state_get_peer
    state_deliver_ghost_messages normalize_id
confirmations_lost now raised id w = (refl, refl)
