-- ===== src/Events/Outcome.antt =====
-- What `event_process` does to the table of peers, for each kind of event.
use orcashi.Prelude.{
  ◌≡◌, refl, ap, ◌∙◌, ℤ, pos, is_positive, Bool, true, false, not, Option, none, some, arith,
  if◌then◌else◌, Code, ok, inl, inr, All, All-append, ◌>>=◌,
}
use orcashi.CString.Text.{Bytes, is_empty}
use orcashi.Events.Types.{
  EventType, Event, none_, add_request, accept_confirm, reject_confirm, message_received,
  peer_online, peer_offline, ghost_delivered, status_update, dht_found, dht_not_found, error,
}
use orcashi.Events.World.{World, Call, call, set_ip, set_port}
use orcashi.Events.Handlers.{handler_calls, event_process, when}
use orcashi.Events.Keeps.{IsSound}
use orcashi.State.Types.{Peer, PeerState, request_received, friend, Store}
use orcashi.State.Ids.{is_same_id}
use orcashi.State.Peers.{updated_peer}
use orcashi.State.Valid.{IsValid}
use orcashi.State.View.{view, Rewrites}
use orcashi.State.Setters.{Setter, apply, written, setters-Rewrites}
use orcashi.State.Peers.{state_update_peer}
use orcashi.State.Change.{update_peer-Rewrites}
use orcashi.Events.Effects.{IsOn, effects, calls-ChangesAt}

-- The peer that an event is about.
abbrev pub subject : EventType → Event → Bytes
subject add_request e = e.from_id
subject accept_confirm e = e.from_id
subject reject_confirm e = e.from_id
subject message_received e = e.from_id
subject _ e = e.peer_id

-- The peer after a status update: an empty address, a port that is not positive and a connection
-- that is not secure say nothing.
abbrev pub updated : Event → Peer → Peer
updated e p = record p {
  ip = if is_empty e.ip then p.ip else e.ip;
  port = if is_positive e.port then e.port else p.port;
  is_secure = if e.is_secure then true else p.is_secure;
}

-- What each event is to make of its peer.
unfoldable pub outcome : EventType → Event → ℤ → Peer → Option Peer
outcome add_request e now p =
    some (record p { state = request_received; last_seen = now; ip = e.ip; port = e.port })
outcome accept_confirm e now p = some (record p {
  state = friend;
  friend_since = now;
  online = true;
  last_seen = now;
  ip = e.ip;
  port = e.port;
  ghost_count = pos 0;
})
outcome reject_confirm e now p = none
outcome message_received e now p = some (record p { online = true; last_seen = now })
outcome peer_online e now p =
    some
      (record p { online = true; last_seen = now; ip = e.ip; port = e.port; ghost_count = pos 0 })
outcome peer_offline e now p = some (record p { online = false; last_seen = now })
outcome status_update e now p = some (updated e p)
outcome dht_found e now p =
    some (record p { ip = e.ip; port = e.port; online = true; last_seen = now })
outcome dht_not_found e now p = some (record p { online = false; last_seen = now })
outcome ghost_delivered e now p = some p
outcome error e now p = some p
outcome none_ e now p = some p

outcome_lem :
    (kind : EventType) (e : Event) (now : ℤ) (o : Option Peer)
    → effects now (handler_calls kind e).1 o ≡ (o >>= outcome kind e now)
unfolding effects handler_calls outcome
outcome_lem add_request e now none = refl
outcome_lem accept_confirm e now none = refl
outcome_lem reject_confirm e now none = refl
outcome_lem message_received e now none = refl
outcome_lem peer_online e now none = refl
outcome_lem peer_offline e now none = refl
outcome_lem ghost_delivered e now none = refl
outcome_lem status_update e now none = ground arith
outcome_lem dht_found e now none = refl
outcome_lem dht_not_found e now none = refl
outcome_lem error e now none = refl
outcome_lem none_ e now none = refl
outcome_lem add_request e now (some p) = refl
outcome_lem accept_confirm e now (some p) = refl
outcome_lem reject_confirm e now (some p) = refl
outcome_lem message_received e now (some p) = refl
outcome_lem peer_online e now (some p) = refl
outcome_lem peer_offline e now (some p) = refl
outcome_lem ghost_delivered e now (some p) = refl
outcome_lem status_update e now (some p) = ground arith
outcome_lem dht_found e now (some p) = refl
outcome_lem dht_not_found e now (some p) = refl
outcome_lem error e now (some p) = refl
outcome_lem none_ e now (some p) = refl

when-IsOn : (id : Bytes) (b : Bool) (c : Call) → IsOn id c → All (IsOn id) (when b c)
when-IsOn id true c on = (on, tt)
when-IsOn id false c on = tt

handler_calls-IsOn :
    (kind : EventType) (e : Event) → All (IsOn (subject kind e)) (handler_calls kind e).1
unfolding handler_calls
handler_calls-IsOn add_request e = (refl, (refl, (refl, tt)))
handler_calls-IsOn accept_confirm e = (refl, (refl, (refl, (refl, (refl, tt)))))
handler_calls-IsOn reject_confirm e = (refl, tt)
handler_calls-IsOn message_received e = (refl, (refl, (tt, tt)))
handler_calls-IsOn peer_online e = (refl, (refl, (refl, (refl, tt))))
handler_calls-IsOn peer_offline e = (refl, tt)
handler_calls-IsOn ghost_delivered e = tt
handler_calls-IsOn status_update e =
    All-append _ (when (not (is_empty e.ip)) (set_ip e.peer_id e.ip)) _
      (when-IsOn e.peer_id _ _ refl)
      (All-append _ (when (is_positive e.port) (set_port e.peer_id e.port)) _
        (when-IsOn e.peer_id _ _ refl) (when-IsOn e.peer_id _ _ refl))
handler_calls-IsOn dht_found e = (refl, (refl, (refl, tt)))
handler_calls-IsOn dht_not_found e = (refl, tt)
handler_calls-IsOn error e = tt
handler_calls-IsOn none_ e = tt

-- Processing an event on a sound state, with no other thread in between, makes of the peer that the
-- event is about what `outcome` says for its kind, under every spelling of the id. It changes no
-- other peer, and adds none: an event about an unknown peer leaves the table as it is.
pub event_process-outcome :
    (now : ℤ) (e : Event) {w : World} (other : Bytes)
    → IsSound w
    → view (event_process now e w).1.store other ≡ (
        if is_same_id (subject e.kind e) other
        then (view w.store (subject e.kind e) >>= outcome e.kind e now)
        else view w.store other)
unfolding event_process
event_process-outcome now e {w} other h =
    calls-ChangesAt now (handler_calls e.kind e).1 (subject e.kind e) other
      (handler_calls-IsOn e.kind e) h
    ∙ ap (λ o. if is_same_id (subject e.kind e) other then o else view w.store other)
        (outcome_lem e.kind e now (view w.store (subject e.kind e)))

Rewrites-none :
    (id : Bytes) (write : Peer → Peer) (other : Bytes) {s : Store} (r : Code × Store)
    → view s id ≡ none
    → Rewrites id write other s r
    → r.1 ≡ s
Rewrites-none id write other r absent (inl (e, at, same)) = same
Rewrites-none id write other r absent (inr (p, known, e, now)) =
    absurd (ground (arith, absent, known))

update_unknown :
    (id : Bytes) (state : PeerState) (now : ℤ) {s : Store}
    → IsValid s
    → view s id ≡ none
    → (state_update_peer id state now s).1 ≡ s
update_unknown id state now {s} v absent =
    Rewrites-none id (updated_peer state now) id _ absent (update_peer-Rewrites id state now id v)

setter_unknown :
    (w : Setter) (id : Bytes) (now : ℤ) {s : Store}
    → IsValid s
    → view s id ≡ none
    → (apply w id now s).1 ≡ s
setter_unknown w id now {s} v absent =
    Rewrites-none id (written w now) id _ absent (setters-Rewrites w id now id v)

-- A friend request from a peer that is not in the table is forgotten: the handler updates peers and
-- never adds one, so that it reports success and leaves the table, the messages and the queue as
-- they are.
add_request_unknown :
    (now : ℤ) (e : Event) (w : World)
    → IsSound w
    → e.kind ≡ add_request
    → view w.store e.from_id ≡ none
    → event_process now e w ≡ (ok, w)
unfolding event_process call
add_request_unknown now e w h kind unknown = rw (
  kind,
  update_unknown e.from_id request_received now h.valid unknown,
  setter_unknown (Setter.ip e.ip) e.from_id now h.valid unknown,
  setter_unknown (Setter.port e.port) e.from_id now h.valid unknown,
)
