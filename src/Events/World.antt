-- ===== src/Events/World.antt =====
-- What the event loop works on: the data of state_manager.c and the event queue. The functions of
-- state_manager.c as steps on both; what each returns besides is dropped, as the handlers drop it.
use orcashi.Prelude.{ℕ, ℤ, Bool, Code}
use orcashi.CString.Text.{Bytes}
use orcashi.Events.Types.{Event}
use orcashi.Events.Queue.{EventQueue, event_queue_push}
use orcashi.State.Types.{Store, PeerState}
use orcashi.State.Peers.{state_add_peer, state_update_peer, state_remove_peer}
use orcashi.State.Fields.{
  state_set_online, state_set_busy, state_set_secure, state_set_ip, state_set_port, state_set_name,
  state_set_public_key, state_update_last_seen,
}
use orcashi.State.Ghosts.{state_add_ghost_message, state_deliver_ghost_messages, state_add_message}

pub record World : Type 0 where
  pub store : Store
  pub queue : EventQueue

-- The calls of state_manager.c that change something.
pub data Call : Type 0 where
  add_peer remove_peer update_last_seen deliver_ghost_messages : Bytes → Call
  update_peer : Bytes → PeerState → Call
  set_online set_busy set_secure : Bytes → Bool → Call
  set_ip set_name set_public_key add_message : Bytes → Bytes → Call
  set_port : Bytes → ℤ → Call
  add_ghost_message : Bytes → Bytes → ℕ → Call
  push_event : Event → Call

abbrev pub on_store : World → (Store → Code × Store) → World
on_store w f = record w { store = (f w.store).1 }

-- One call at the time `now`.
unfoldable pub call : ℤ → Call → World → World
call now (add_peer id) w = on_store w (state_add_peer id now)
call now (remove_peer id) w = on_store w (state_remove_peer id)
call now (update_last_seen id) w = on_store w (state_update_last_seen id now)
call now (update_peer id state) w = on_store w (state_update_peer id state now)
call now (set_online id b) w = on_store w (state_set_online id b now)
call now (set_busy id b) w = on_store w (state_set_busy id b)
call now (set_secure id b) w = on_store w (state_set_secure id b)
call now (set_ip id ip) w = on_store w (state_set_ip id ip)
call now (set_name id name) w = on_store w (state_set_name id name)
call now (set_public_key id key) w = on_store w (state_set_public_key id key)
call now (add_message id text) w = on_store w (state_add_message id text)
call now (set_port id port) w = on_store w (state_set_port id port)
call now (add_ghost_message id text rand) w = on_store w (state_add_ghost_message id text now rand)
call now (push_event e) w = record w { queue = (event_queue_push e w.queue).1 }
call now (deliver_ghost_messages id) w =
    let (n, s, q) = state_deliver_ghost_messages id now w.store w.queue in
    record { store = s; queue = q }
