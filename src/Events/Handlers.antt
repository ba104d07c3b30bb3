-- ===== src/Events/Handlers.antt =====
-- The handlers of event_loop.c, `event_process`, and the event loop among the other threads. What
-- is printed for the user is left out. A handler is the calls that it makes, in order, so that
-- other threads may run between them.
use orcashi.Prelude.{
  ℤ, is_positive, Bool, true, false, not, Option, none, some, List, [], ◌∷◌, ◌++◌, Code, ok, err,
}
use orcashi.CString.Text.{Bytes, is_empty}
use orcashi.Events.Types.{
  EventType, Event, none_, add_request, accept_confirm, reject_confirm, message_received,
  peer_online, peer_offline, ghost_delivered, status_update, dht_found, dht_not_found, error,
  event_create,
}
use orcashi.Events.Queue.{EventQueue, take_event, event_queue_push}
use orcashi.Events.World.{
  World, Call, call, remove_peer, update_last_seen, deliver_ghost_messages, update_peer, set_online,
  set_secure, set_ip, add_message, set_port,
}
use orcashi.State.Types.{request_received, friend}

unfoldable pub calls : ℤ → List Call → World → World
calls now [] w = w
calls now (c ∷ cs) w = calls now cs (call now c w)

abbrev pub when : Bool → Call → List Call
when true c = c ∷ []
when false c = []

abbrev pub event_handle_add_request : Event → List Call
event_handle_add_request e =
    update_peer e.from_id request_received ∷ set_ip e.from_id e.ip ∷ set_port e.from_id e.port ∷ []

abbrev pub event_handle_accept_confirm : Event → List Call
event_handle_accept_confirm e =
    update_peer e.from_id friend
    ∷ set_online e.from_id true
    ∷ set_ip e.from_id e.ip
    ∷ set_port e.from_id e.port
    ∷ deliver_ghost_messages e.from_id
    ∷ []

abbrev pub event_handle_reject_confirm : Event → List Call
event_handle_reject_confirm e = remove_peer e.from_id ∷ []

abbrev pub event_handle_message_received : Event → List Call
event_handle_message_received e =
    set_online e.from_id true ∷ update_last_seen e.from_id ∷ add_message e.from_id e.message ∷ []

abbrev pub event_handle_peer_online : Event → List Call
event_handle_peer_online e =
    set_online e.peer_id true
    ∷ set_ip e.peer_id e.ip
    ∷ set_port e.peer_id e.port
    ∷ deliver_ghost_messages e.peer_id
    ∷ []

abbrev pub event_handle_peer_offline : Event → List Call
event_handle_peer_offline e = set_online e.peer_id false ∷ []

abbrev pub event_handle_status_update : Event → List Call
event_handle_status_update e =
    when (not (is_empty e.ip)) (set_ip e.peer_id e.ip)
    ++ (when (is_positive e.port) (set_port e.peer_id e.port)
        ++ when e.is_secure (set_secure e.peer_id true))

abbrev pub event_handle_dht_found : Event → List Call
event_handle_dht_found e =
    set_ip e.peer_id e.ip ∷ set_port e.peer_id e.port ∷ set_online e.peer_id true ∷ []

abbrev pub event_handle_dht_not_found : Event → List Call
event_handle_dht_not_found e = set_online e.peer_id false ∷ []

-- These two only print.
abbrev pub event_handle_ghost_delivered : Event → List Call
event_handle_ghost_delivered e = []

abbrev pub event_handle_error : Event → List Call
event_handle_error e = []

-- The switch of `event_process`.
unfoldable pub handler_calls : EventType → Event → Code × List Call
handler_calls add_request e = (ok, event_handle_add_request e)
handler_calls accept_confirm e = (ok, event_handle_accept_confirm e)
handler_calls reject_confirm e = (ok, event_handle_reject_confirm e)
handler_calls message_received e = (ok, event_handle_message_received e)
handler_calls peer_online e = (ok, event_handle_peer_online e)
handler_calls peer_offline e = (ok, event_handle_peer_offline e)
handler_calls ghost_delivered e = (ok, event_handle_ghost_delivered e)
handler_calls status_update e = (ok, event_handle_status_update e)
handler_calls dht_found e = (ok, event_handle_dht_found e)
handler_calls dht_not_found e = (ok, event_handle_dht_not_found e)
handler_calls error e = (ok, event_handle_error e)
handler_calls none_ e = (err, [])

-- `event_process` with no other thread in between.
unfoldable pub event_process : ℤ → Event → World → Code × World
unfolding calls handler_calls
event_process now e w = let (code, cs) = handler_calls e.kind e in (code, calls now cs w)

-- The event loop's thread: the calls that its handler has still to make, and what all threads share.
pub record Loop : Type 0 where
  pub todo : List Call
  pub world : World

-- One critical section: of another thread, or of the event loop, which makes the next call of its
-- handler or takes the next event (and waits where there is none).
pub data Turn : Type 0 where
  other : Call → Turn
  own : Turn

unfoldable pub next_event : Option Event × EventQueue → World → Loop
next_event (none, q) w = record { todo = []; world = record w { queue = q } }
next_event (some e, q) w = record {
  todo = (handler_calls e.kind e).1;
  world = record w { queue = q };
}

unfoldable pub go_on : ℤ → List Call → World → Loop
unfolding next_event
go_on now [] w = next_event (take_event w.queue) w
go_on now (c ∷ cs) w = record { todo = cs; world = call now c w }

-- `event_loop_run` under an interleaving with other threads, each turn at its time.
unfoldable pub event_loop_run : List (ℤ × Turn) → Loop → Loop
unfolding go_on
event_loop_run [] l = l
event_loop_run ((now, other c) ∷ ts) l = event_loop_run ts (record l { world = call now c l.world })
event_loop_run ((now, own) ∷ ts) l = event_loop_run ts (go_on now l.todo l.world)

-- The functions by which other parts raise events.
unfoldable pub event_trigger_add_request : Bytes → Bytes → ℤ → ℤ → EventQueue → Code × EventQueue
event_trigger_add_request from_id ip port now q =
    event_queue_push
      (record (event_create add_request from_id now) { from_id = from_id; ip = ip; port = port }) q

unfoldable pub event_trigger_accept_confirm : Bytes → Bytes → ℤ → ℤ → EventQueue → Code × EventQueue
event_trigger_accept_confirm from_id ip port now q =
    event_queue_push
      (record (event_create accept_confirm from_id now) { from_id = from_id; ip = ip; port = port })
      q

unfoldable pub event_trigger_message_received : Bytes → Bytes → ℤ → EventQueue → Code × EventQueue
event_trigger_message_received from_id message now q =
    event_queue_push
      (record (event_create message_received from_id now) { from_id = from_id; message = message })
      q

unfoldable pub event_trigger_peer_online : Bytes → Bytes → ℤ → ℤ → EventQueue → Code × EventQueue
event_trigger_peer_online peer_id ip port now q =
    event_queue_push (record (event_create peer_online peer_id now) { ip = ip; port = port }) q

unfoldable pub event_trigger_peer_offline : Bytes → ℤ → EventQueue → Code × EventQueue
event_trigger_peer_offline peer_id now q =
    event_queue_push (event_create peer_offline peer_id now) q
