-- ===== src/P2p/Requests.antt =====
-- Requests and their answers, as they are read from a message.
use mathlib.Core.Option
use orcashi.Prelude.{
  ℕ, zero, suc, ◌^◌, ◌≤◌, ◌<◌, ◌≡◌, refl, ap, ◌∙◌, true, ◌⊎◌, inl, inr, Option, none, some, ℤ,
  if-true, ◌>>=◌, [], ◌∷◌, ◌++◌, ltb, if◌then◌else◌, ok, length, set, All, arith, le→ltb,
  Bool-cases,
}
use orcashi.CString.Text.{Bytes}
use orcashi.CString.Memory.{done, overrun, c_string, write_nul, strcpy}
use orcashi.State.Types.{Peer, request_received}
use orcashi.State.Ids.{is_same_id}
use orcashi.State.View.{view}
use orcashi.Events.Types.{Event, add_request, reject_confirm, event_create}
use orcashi.Events.Ring.{pending, spec_push, push_refines}
use orcashi.Events.Keeps.{IsSound}
use orcashi.Events.Outcome.{outcome, event_process-outcome}
use orcashi.Events.World.{call, update_peer, set_ip, set_port, push_event, remove_peer}
use orcashi.Events.Handlers.{calls, event_process}
use orcashi.P2p.Types.{P2pPeer, Manager, Host}
use orcashi.P2p.Message.{
  P2pMessage, header_len, read_message, build_message, built_header, read-build,
}
use orcashi.P2p.Table.{peer_at, act}
use orcashi.P2p.Handlers.{
  sender_id, request_event, confirm_calls, handle_add_request, handle_accept_confirm,
  handle_reject_confirm, is_header, dispatch, process_message,
}

-- No byte is NUL.
abbrev pub IsText : Bytes → Type 0
IsText = All (λ c. 0 < c)

pub c_string-text : (s rest : Bytes) → IsText s → c_string (s ++ (0 ∷ rest)) ≡ done s
unfolding c_string
c_string-text [] rest t = refl
c_string-text (zero ∷ s) rest (p, t) = absurd (omega arith)
c_string-text (suc c ∷ s) rest (p, t) = rw (c_string-text s rest t) refl

set-append : (s rest : Bytes) (c : ℕ) → set (s ++ (c ∷ rest)) (length s) 0 ≡ s ++ (0 ∷ rest)
set-append [] rest c = refl
set-append (d ∷ s) rest c = ap (◌∷◌ d) (set-append s rest c)

in_bounds : (s rest : Bytes) (c : ℕ) → ltb (length s) (length (s ++ (c ∷ rest))) ≡ true
in_bounds [] rest c = ground arith
in_bounds (d ∷ s) rest c = ground (arith, in_bounds s rest c)

sender_id-text :
    (msg : P2pMessage) (id rest : Bytes) (c : ℕ)
    → IsText id
    → msg.payload_len ≡ length id
    → sender_id msg (id ++ (c ∷ rest)) ≡ done id
unfolding sender_id write_nul
sender_id-text msg id rest c t e =
    rw (e, in_bounds id rest c, set-append id rest c) (c_string-text id rest t)

-- A peer of the state manager from which a request came by way of a peer of the table.
abbrev pub requested : ℤ → P2pPeer → Peer → Peer
requested now from p = record p {
  state = request_received;
  last_seen = now;
  ip = from.ip;
  port = from.port;
}

module _ (h g : Host) (i n : ℕ) (m : Manager) (id rest : Bytes) (c : ℕ) (t : IsText id)
    (fits : length id < 2 ^ 32) (long : header_len ≤ n) where
  -- What comes of a message of a type whose payload is `id`.
  processed :
      (type : ℕ)
      → type < 256
      → process_message h i (build_message g type id ++ (c ∷ rest)) n m
        ≡ dispatch h i (built_header g type id) (id ++ (c ∷ rest)) m
  unfolding process_message
  processed type small =
      rw (le→ltb n header_len long, read-build g type id (c ∷ rest) small fits) refl

  -- The calls that a request to add the sender makes, where the sender's id has fewer than 64 bytes;
  -- a longer id is copied past the end of the event's field.
  request_calls : process_message h i (build_message g 6 id ++ (c ∷ rest)) n m ≡ (
      if ltb (length id) 64
      then done (
        ok,
        act h.now
            (update_peer id request_received
              ∷ set_ip id (peer_at m i).ip
              ∷ set_port id (peer_at m i).port
              ∷ push_event (request_event h.now id (peer_at m i))
              ∷ [])
            m,
      )
      else overrun)
  unfolding dispatch handle_add_request strcpy calls
  request_calls = processed 6 (omega arith) ∙ elim (Bool-cases (ltb (length id) 64)) [
    | inl e ↦ rw (sender_id-text (built_header g 6 id) id rest c t refl, e) refl
    | inr e ↦ rw (sender_id-text (built_header g 6 id) id rest c t refl, e) refl
  ]

  -- Where the table of the state manager is sound and the sender's id has fewer than 64 bytes, a
  -- request to add the sender is a success. What was known under the id now waits for an answer, was
  -- heard of now and has the address and the port from which the message came; an unknown id stays
  -- unknown, and every other id finds what it found. The event of the request is put behind those that
  -- wait, where there are fewer than 1024.
  pub request :
      IsSound m.world
      → length id < 64
      → (m' : Manager) × (process_message h i (build_message g 6 id ++ (c ∷ rest)) n m
          ≡ done (ok, m'))
        × ((other : Bytes)
            → view m'.world.store other ≡ (
                if is_same_id id other
                then Option.map (requested h.now (peer_at m i)) (view m.world.store id)
                else view m.world.store other))
        × (pending m'.world.queue
            ≡ (spec_push (request_event h.now id (peer_at m i)) (pending m.world.queue)).1)
  unfolding outcome event_process is_same_id event_create call
  request sound short = (
    act h.now
        (update_peer id request_received
          ∷ set_ip id (peer_at m i).ip
          ∷ set_port id (peer_at m i).port
          ∷ push_event event
          ∷ [])
        m,
    request_calls ∙ if-true (ltb (length id) 64) _ _ (ground arith),
    λ other.
        event_process-outcome h.now event other sound
        ∙ ap (λ o. if is_same_id id other then o else view m.world.store other)
            (as_map (view m.world.store id)),
    ap (λ r. r.1) (push_refines event sound.ring),
  )
    where
      event : Event
      event = request_event h.now id (peer_at m i)

      as_map :
          (o : Option Peer)
          → (o >>= outcome add_request event h.now) ≡ Option.map (requested h.now (peer_at m i)) o
      as_map none = refl
      as_map (some p) = refl

  -- The answers.
  pub answers :
      (process_message h i (build_message g 7 id ++ (c ∷ rest)) n m
        ≡ done (ok, act h.now (confirm_calls h.now id (peer_at m i)) m))
      × (process_message h i (build_message g 8 id ++ (c ∷ rest)) n m
          ≡ done (
            ok,
            act h.now (remove_peer id ∷ push_event (event_create reject_confirm id h.now) ∷ []) m,
          ))
  unfolding dispatch handle_accept_confirm handle_reject_confirm
  answers = (
    processed 7 (omega arith) ∙ rw (sender_id-text (built_header g 7 id) id rest c t refl) refl,
    processed 8 (omega arith) ∙ rw (sender_id-text (built_header g 8 id) id rest c t refl) refl,
  )

sender_id_long :
    (msg : P2pMessage) (payload : Bytes)
    → length payload ≤ msg.payload_len
    → sender_id msg payload ≡ overrun
unfolding sender_id write_nul
sender_id_long msg payload k = rw (le→ltb msg.payload_len (length payload) k) refl

type_between : (k : ℕ) → 6 ≤ k → k ≤ 8 → (k ≡ 6) ⊎ ((k ≡ 7) ⊎ (k ≡ 8))
type_between k a b = omega arith

-- The length that a message names is not compared with what was received: a request or an answer
-- whose header is right and whose length is not less than the rest of the buffer behind the header
-- makes the code write a NUL outside of the buffer.
pub unchecked_length :
    (h : Host) (i n : ℕ) (buffer payload : Bytes) (msg : P2pMessage) (m : Manager)
    → header_len ≤ n
    → read_message buffer ≡ some (msg, payload)
    → is_header msg ≡ true
    → 6 ≤ msg.type
    → msg.type ≤ 8
    → length payload ≤ msg.payload_len
    → process_message h i buffer n m ≡ overrun
unfolding process_message dispatch handle_add_request handle_accept_confirm handle_reject_confirm
unchecked_length h i n buffer payload msg m long read header low high past =
    rw (le→ltb n header_len long, read, header)
      (elim (type_between msg.type low high) [
        | inl e ↦ rw (e, sender_id_long msg payload past) refl
        | inr (inl e) ↦ rw (e, sender_id_long msg payload past) refl
        | inr (inr e) ↦ rw (e, sender_id_long msg payload past) refl
      ])
