-- ===== src/Events/Effects.antt =====
-- What processing an event does to the table of peers.
use mathlib.Core.Option
use orcashi.Prelude.{
  ◌≡◌, subst, ℤ, pos, Option, none, List, [], ◌∷◌, Bool-cases, inl, inr, leb, All,
}
use orcashi.CString.Text.{Bytes}
use orcashi.Events.World.{
  World, Call, call, remove_peer, update_last_seen, deliver_ghost_messages, update_peer, set_online,
  set_secure, set_ip, add_message, set_port,
}
use orcashi.Events.Handlers.{calls}
use orcashi.Events.Keeps.{IsSound, call-IsSound}
use orcashi.State.Types.{Peer, Store, max_messages}
use orcashi.State.Peers.{updated_peer, state_get_peer}
use orcashi.State.Valid.{IsValid}
use orcashi.State.Setters.{Setter, apply, written, setters-Rewrites}
use orcashi.State.Change.{update_peer-Rewrites, remove_peer-Removes}
use orcashi.State.Waiting.{recount}
use orcashi.State.Effect.{
  ChangesAt, ChangesAt-Rewrites, ChangesAt-Removes, ChangesAt-then, view_self, deliver-ChangesAt,
}
use orcashi.State.Ghosts.{state_add_message}

-- The calls that handlers make, on the peer `id`.
abbrev pub IsOn : Bytes → Call → Type 0
IsOn id (update_peer i state) = i ≡ id
IsOn id (set_online i b) = i ≡ id
IsOn id (set_secure i b) = i ≡ id
IsOn id (set_ip i ip) = i ≡ id
IsOn id (set_port i port) = i ≡ id
IsOn id (update_last_seen i) = i ≡ id
IsOn id (deliver_ghost_messages i) = i ≡ id
IsOn id (remove_peer i) = i ≡ id
IsOn id (add_message i text) = Unit {0}
IsOn id _ = ⊥

-- What such a call makes of the peer.
unfoldable pub effect : ℤ → Call → Option Peer → Option Peer
effect now (update_peer i state) o = Option.map (updated_peer state now) o
effect now (set_online i b) o = Option.map (written (Setter.online b) now) o
effect now (set_secure i b) o = Option.map (written (Setter.secure b) now) o
effect now (set_ip i ip) o = Option.map (written (Setter.ip ip) now) o
effect now (set_port i port) o = Option.map (written (Setter.port port) now) o
effect now (update_last_seen i) o = Option.map (written Setter.last_seen now) o
effect now (deliver_ghost_messages i) o = Option.map (recount (λ k. pos 0)) o
effect now (remove_peer i) o = none
effect now _ o = o

setter-ChangesAt :
    {s : Store} (w : Setter) (id : Bytes) (now : ℤ) (other : Bytes)
    → IsValid s
    → ChangesAt id (Option.map (written w now)) s (apply w id now s).1 other
setter-ChangesAt {s} w id now other v =
    ChangesAt-Rewrites id (written w now) s other (apply w id now s) (view_self s id other)
      (setters-Rewrites w id now other v)

message-ChangesAt :
    (id from_id text other : Bytes) (s : Store)
    → ChangesAt id (λ o. o) s (state_add_message from_id text s).1 other
unfolding state_add_message state_get_peer
message-ChangesAt id from_id text other s = elim (Bool-cases (leb max_messages s.message_count)) [
  | inl full ↦ rw full (view_self s id other)
  | inr room ↦ rw room (view_self s id other)
]

at_subject :
    (id i : Bytes) (f : Option Peer → Option Peer) (s s' : Store) (other : Bytes)
    → i ≡ id
    → ChangesAt i f s s' other
    → ChangesAt id f s s' other
at_subject id i f s s' other e h = subst (λ a. ChangesAt a f s s' other) e h

call-ChangesAt :
    {w : World} (now : ℤ) (c : Call) (id other : Bytes)
    → IsOn id c
    → IsSound w
    → ChangesAt id (effect now c) w.store (call now c w).store other
unfolding effect call
call-ChangesAt {w} now (update_peer i state) id other on h =
    at_subject id i (effect now (update_peer i state)) w.store _ other on (
      ChangesAt-Rewrites i (updated_peer state now) w.store other _ (view_self w.store i other)
        (update_peer-Rewrites i state now other h.valid))
call-ChangesAt {w} now (set_online i b) id other on h =
    at_subject id i (effect now (set_online i b)) w.store _ other on
      (setter-ChangesAt (Setter.online b) i now other h.valid)
call-ChangesAt {w} now (set_secure i b) id other on h =
    at_subject id i (effect now (set_secure i b)) w.store _ other on
      (setter-ChangesAt (Setter.secure b) i now other h.valid)
call-ChangesAt {w} now (set_ip i ip) id other on h =
    at_subject id i (effect now (set_ip i ip)) w.store _ other on
      (setter-ChangesAt (Setter.ip ip) i now other h.valid)
call-ChangesAt {w} now (set_port i port) id other on h =
    at_subject id i (effect now (set_port i port)) w.store _ other on
      (setter-ChangesAt (Setter.port port) i now other h.valid)
call-ChangesAt {w} now (update_last_seen i) id other on h =
    at_subject id i (effect now (update_last_seen i)) w.store _ other on
      (setter-ChangesAt Setter.last_seen i now other h.valid)
call-ChangesAt {w} now (deliver_ghost_messages i) id other on h =
    at_subject id i (effect now (deliver_ghost_messages i)) w.store _ other on
      (deliver-ChangesAt i other now w.queue h.valid h.tracked)
call-ChangesAt {w} now (remove_peer i) id other on h =
    at_subject id i (effect now (remove_peer i)) w.store _ other on
      (ChangesAt-Removes i w.store other _ (remove_peer-Removes i other h.valid))
call-ChangesAt {w} now (add_message i text) id other on h =
    message-ChangesAt id i text other w.store
call-ChangesAt now _ id other on h = absurd on

unfoldable pub effects : ℤ → List Call → Option Peer → Option Peer
unfolding effect
effects now [] o = o
effects now (c ∷ cs) o = effects now cs (effect now c o)

pub calls-ChangesAt :
    (now : ℤ) (cs : List Call) (id other : Bytes) {w : World}
    → All (IsOn id) cs
    → IsSound w
    → ChangesAt id (effects now cs) w.store (calls now cs w).store other
unfolding effects calls
calls-ChangesAt now [] id other {w} on h = view_self w.store id other
calls-ChangesAt now (c ∷ cs) id other {w} (on, rest) h =
    ChangesAt-then id (effect now c) (effects now cs) w.store (call now c w).store
      (calls now (c ∷ cs) w).store other (call-ChangesAt now c id id on h)
      (call-ChangesAt now c id other on h)
      (calls-ChangesAt now cs id other rest (call-IsSound now c h))
